-- ===== src/Router/Indexes.antt =====
-- routertwo/router.go: the index of names by owner, against the routes that readers see.
use remotemoe.Prelude.{
  ◌≡◌, refl, [], ◌∷◌, Option, none, some, arith, In, In-append, In-append_left, In-append_right,
  inl, inr, ◌≢◌, ◌⊎◌, ◌↔◌, Bool-cases, ap, subst,
}
use remotemoe.Text.{Text, text_eq, text_eq_iff, text_eq_refl}
use remotemoe.Route.{NamedRoute, Route, name_route}
use remotemoe.Router.{Index, index, reduce_index}
use remotemoe.Router.Effects.{written, erased}
use remotemoe.Router.IndexLaws.{
  names_of, Distinct, names_of-index, names_of-reduce_index, In-but, In-but_ne, but-Distinct,
  append-Distinct, Distinct-eq,
}

abbrev pub View : Type 0
View = Text → Option Route

-- The index lists under each owner exactly the owner's names, each once, and a name is routed
-- under itself.
pub record Indexes (v : View) (idx : Index) : Type 0 where
  pub owner : (o : Text) (n : NamedRoute) → In n (names_of o idx) → n.owner ≡ o
  pub routed : (o : Text) (n : NamedRoute) → In n (names_of o idx) → v n.name ≡ some (name_route n)
  pub complete :
      (k : Text) (n : NamedRoute) → v k ≡ some (name_route n) → In n (names_of n.owner idx)
  pub distinct : (o : Text) → Distinct (names_of o idx)
  pub keyed : (k : Text) (n : NamedRoute) → v k ≡ some (name_route n) → n.name ≡ k

-- Whatever leaves the names alone keeps it.
pub keep-Indexes :
    (v w : View) (idx : Index)
    → ((k : Text) (n : NamedRoute) → (v k ≡ some (name_route n)) ↔ (w k ≡ some (name_route n)))
    → Indexes v idx
    → Indexes w idx
keep-Indexes v w idx same h = record {
  owner = h.owner;
  routed = λ o n m. (same n.name n).0 (h.routed o n m);
  complete = λ k n e. h.complete k n ((same k n).1 e);
  distinct = h.distinct;
  keyed = λ k n e. h.keyed k n ((same k n).1 e);
}

module _ (v w : View) (idx : Index) (n : NamedRoute) (h : Indexes v idx) where
  -- A new name under a new address.
  module _ (absent : v n.name ≡ none)
      (fresh : (o : Text) (m : NamedRoute) → In m (names_of o idx) → m.ref ≢ n.ref)
      (law : (k : Text) → w k ≡ written n.name (name_route n) k (v k)) where
    added_cases :
        (o : Text) (m : NamedRoute)
        → In m (names_of o (index n idx))
        → In m (names_of o idx) ⊎ ((m ≡ n) × (n.owner ≡ o))
    added_cases o m i = elim (Bool-cases (text_eq n.owner o)) [
      | inl own ↦
          elim (In-append m (names_of o idx) (n ∷ []) (rw (names_of-index n idx o, own) at i)) [
            | inl old ↦ inl old
            | inr (inl e) ↦ inr (e, (text_eq_iff n.owner o).0 own)
            | inr (inr e) ↦ absurd e
          ]
      | inr other ↦ inl (rw (names_of-index n idx o, other) at i)
    ]

    still_listed :
        (o : Text) (m : NamedRoute) → In m (names_of o idx) → In m (names_of o (index n idx))
    still_listed o m i = rw (names_of-index n idx o) (elim (Bool-cases (text_eq n.owner o)) [
      | inl own ↦ rw own (In-append_left m (names_of o idx) (n ∷ []) i)
      | inr other ↦ rw other i
    ])

    newly_listed : In n (names_of n.owner (index n idx))
    newly_listed =
        rw (names_of-index n idx n.owner, text_eq_refl n.owner)
          (In-append_right n (names_of n.owner idx) (n ∷ []) (inl refl))

    pub add-Indexes : Indexes w (index n idx)
    add-Indexes = record {
      owner = λ o m i. ground (arith, added_cases o m i, h.owner o m);
      routed = λ o m i.
          ground (arith, added_cases o m i, h.routed o m, law m.name, text_eq_iff n.name m.name);
      complete = λ k m e. ground (
        arith,
        law k,
        text_eq_iff n.name k,
        h.complete k m,
        still_listed m.owner m,
        newly_listed,
      );
      keyed = λ k m e. ground (arith, law k, text_eq_iff n.name k, h.keyed k m);
      distinct = λ o. rw (names_of-index n idx o) (elim (Bool-cases (text_eq n.owner o)) [
        | inl own ↦ rw own (append-Distinct n (names_of o idx) (h.distinct o) (fresh o))
        | inr other ↦ rw other (h.distinct o)
      ]);
    }

  -- A name that goes.
  module _ (routed : v n.name ≡ some (name_route n))
      (law : (k : Text) → w k ≡ erased n.name k (v k)) where
    removed_cases :
        (o : Text) (m : NamedRoute)
        → In m (names_of o (reduce_index n.owner n idx))
        → In m (names_of o idx) × (m.name ≢ n.name)
    removed_cases o m i = elim (Bool-cases (text_eq n.owner o)) [
      | inl own ↦
          let (old, ne) =
            In-but n.ref m (names_of o idx) (h.distinct o)
              (rw (names_of-reduce_index n.owner idx o n, own) at i) in
          (old, λ e. ne (ground (arith, h.routed o m old, routed)))
      | inr other ↦
          let old : In m (names_of o idx) =
            rw (names_of-reduce_index n.owner idx o n, other) at i in
          (old, λ e. ground (arith, h.routed o m old, h.owner o m old, text_eq_iff n.owner o))
    ]

    left_listed :
        (o : Text) (m : NamedRoute)
        → In m (names_of o idx)
        → m.name ≢ n.name
        → In m (names_of o (reduce_index n.owner n idx))
    left_listed o m i ne =
        rw (names_of-reduce_index n.owner idx o n) (elim (Bool-cases (text_eq n.owner o)) [
          | inl own ↦ rw own (
              In-but_ne n.ref m (names_of o idx) i (λ e. ne (
                ap (λ (x : NamedRoute). x.name)
                  (Distinct-eq m n (names_of o idx) (h.distinct o) i
                    (subst (λ x. In n (names_of x idx)) ((text_eq_iff n.owner o).0 own)
                      (h.complete n.name n routed))
                    e))))
          | inr other ↦ rw other i
        ])

    pub remove-Indexes : Indexes w (reduce_index n.owner n idx)
    remove-Indexes = record {
      owner = λ o m i. h.owner o m (removed_cases o m i).0;
      routed = λ o m i.
          ground (arith, law m.name, text_eq_iff n.name m.name, removed_cases o m i, h.routed o m);
      complete = λ k m e.
          left_listed m.owner m (h.complete k m (ground (arith, law k)))
            (ground (arith, law k, text_eq_iff n.name k, h.keyed k m));
      keyed = λ k m e. ground (arith, law k, h.keyed k m);
      distinct = λ o.
          rw (names_of-reduce_index n.owner idx o n) (elim (Bool-cases (text_eq n.owner o)) [
            | inl own ↦ rw own (but-Distinct n.ref (names_of o idx) (h.distinct o))
            | inr other ↦ rw other (h.distinct o)
          ]);
    }
