-- ===== src/Router/IndexLaws.antt =====
-- routertwo/router.go: what index and reduceIndex do to the names of each owner.
use remotemoe.Prelude.{
  ℕ, ◌≡◌, refl, List, [], ◌∷◌, ◌++◌, Option, none, some, arith, ◌==◌, if◌then◌else◌, In, In-append,
  inl, inr, ◌≢◌, ◌⊎◌, Bool-cases,
}
use remotemoe.Text.{Text, text_eq, text_eq_iff}
use remotemoe.Dict.{lookup, lookup-insert, lookup-delete}
use remotemoe.Route.{NamedRoute}
use remotemoe.Router.{Index, index, without, reduced, reduce_index}

abbrev pub listed : Option (List NamedRoute) → List NamedRoute
listed none = []
listed (some ns) = ns

-- The names of an owner, which Names returns.
abbrev pub names_of : Text → Index → List NamedRoute
names_of o idx = listed (lookup o idx)

-- The addresses in a list differ.
abbrev pub Distinct : List NamedRoute → Type 0
Distinct [] = Unit {0}
Distinct (n ∷ ns) = ((m : NamedRoute) → In m ns → m.ref ≢ n.ref) × Distinct ns

pub names_of-index :
    (n : NamedRoute) (idx : Index) (o : Text)
    → names_of o (index n idx)
      ≡ (if text_eq n.owner o then names_of o idx ++ n ∷ [] else names_of o idx)
unfolding index
names_of-index n idx o = ground (
  arith,
  text_eq_iff n.owner o,
  lookup-insert n.owner o (n ∷ []) idx,
  lookup-insert n.owner o (names_of n.owner idx ++ n ∷ []) idx,
)

-- The list without the first entry at an address.
abbrev pub but : ℕ → List NamedRoute → List NamedRoute
but ref [] = []
but ref (n ∷ ns) = let rest = but ref ns in if n.ref == ref then ns else n ∷ rest

without-but :
    (ref : ℕ) (ns : List NamedRoute)
    → (without ref ns ≡ some (but ref ns)) ⊎ ((without ref ns ≡ none) × (but ref ns ≡ ns))
unfolding without
without-but ref [] = inr (refl, refl)
without-but ref (n ∷ ns) = ground (arith, without-but ref ns)

module _ (key : Text) (idx : Index) (o : Text) where
  names_of-reduced :
      (ms : List NamedRoute)
      → names_of o (reduced key (some ms) idx) ≡ (if text_eq key o then ms else names_of o idx)
  names_of-reduced [] = ground (arith, lookup-delete key o idx)
  names_of-reduced (m ∷ ms) = ground (arith, lookup-insert key o (m ∷ ms) idx)

  module _ (n : NamedRoute) where
    pub names_of-reduce_index :
        names_of o (reduce_index key n idx)
        ≡ (if text_eq key o then but n.ref (names_of o idx) else names_of o idx)
    unfolding reduce_index
    names_of-reduce_index = ground (
      arith,
      text_eq_iff key o,
      without-but n.ref (names_of key idx),
      names_of-reduced (but n.ref (names_of key idx)),
    )

-- An owner without names has no entry.
abbrev pub IsTrim : Index → Type 0
IsTrim idx = (o : Text) → lookup o idx ≢ some []

concat-ne-nil : (n : NamedRoute) (ns : List NamedRoute) → ns ++ n ∷ [] ≢ []
concat-ne-nil n [] e = cc
concat-ne-nil n (m ∷ ns) e = cc

pub index-IsTrim : (n : NamedRoute) (idx : Index) → IsTrim idx → IsTrim (index n idx)
unfolding index
index-IsTrim n idx t o = ground (
  arith,
  t o,
  lookup-insert n.owner o (n ∷ []) idx,
  lookup-insert n.owner o (names_of n.owner idx ++ n ∷ []) idx,
  concat-ne-nil n (names_of n.owner idx),
)

reduced-IsTrim :
    (key : Text) (ms : List NamedRoute) (idx : Index)
    → IsTrim idx
    → IsTrim (reduced key (some ms) idx)
reduced-IsTrim key [] idx t o = ground (arith, t o, lookup-delete key o idx)
reduced-IsTrim key (m ∷ ms) idx t o = ground (arith, t o, lookup-insert key o (m ∷ ms) idx)

pub reduce_index-IsTrim :
    (key : Text) (n : NamedRoute) (idx : Index) → IsTrim idx → IsTrim (reduce_index key n idx)
unfolding reduce_index
reduce_index-IsTrim key n idx t o = ground (
  arith,
  t o,
  without-but n.ref (names_of key idx),
  reduced-IsTrim key (but n.ref (names_of key idx)) idx t o,
)

-- Taking an address out of a list of distinct addresses.
pub In-but :
    (ref : ℕ) (m : NamedRoute) (ns : List NamedRoute)
    → Distinct ns
    → In m (but ref ns)
    → In m ns × (m.ref ≢ ref)
In-but ref m [] d h = elim h [ ]
In-but ref m (n ∷ ns) d h = ground (arith, d.0 m, In-but ref m ns d.1)

pub In-but_ne :
    (ref : ℕ) (m : NamedRoute) (ns : List NamedRoute) → In m ns → m.ref ≢ ref → In m (but ref ns)
In-but_ne ref m [] h ne = h
In-but_ne ref m (n ∷ ns) h ne = ground (arith, In-but_ne ref m ns)

pub but-Distinct : (ref : ℕ) (ns : List NamedRoute) → Distinct ns → Distinct (but ref ns)
but-Distinct ref [] d = tt
but-Distinct ref (n ∷ ns) d = elim (Bool-cases (n.ref == ref)) [
  | inl here ↦ rw here d.1
  | inr there ↦ rw there (λ m h. d.0 m (In-but ref m ns d.1 h).0, but-Distinct ref ns d.1)
]

pub append-Distinct :
    (n : NamedRoute) (ns : List NamedRoute)
    → Distinct ns
    → ((m : NamedRoute) → In m ns → m.ref ≢ n.ref)
    → Distinct (ns ++ n ∷ [])
append-Distinct n [] d h = (λ m e. absurd e, tt)
append-Distinct n (x ∷ xs) d h = (
  λ m k. ground (arith, In-append m xs (n ∷ []) k, d.0 m, h x (inl refl)),
  append-Distinct n xs d.1 (λ m k. h m (inr k)),
)

-- Two entries of a list of distinct addresses with one address are the same.
pub Distinct-eq :
    (m n : NamedRoute) (ns : List NamedRoute)
    → Distinct ns
    → In m ns
    → In n ns
    → m.ref ≡ n.ref
    → m ≡ n
Distinct-eq m n [] d h k e = absurd h
Distinct-eq m n (x ∷ xs) d h k e = ground (arith, d.0 m, d.0 n, Distinct-eq m n xs d.1)
