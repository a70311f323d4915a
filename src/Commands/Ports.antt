-- ===== src/Commands/Ports.antt =====
-- ssh/command/autossh.go: the ports of a session in the order in which they are printed.
use remotemoe.Prelude.{
  ℕ, ◌<◌, ◌≡◌, refl, sym, ap, ltb, List, [], ◌∷◌, ◌++◌, In, inl, inr, ◌↔◌, ◌⊎◌, ◌≢◌, arith,
  if◌then◌else◌, Bool-cases,
}
use remotemoe.Text.{Text, bytes}
use remotemoe.Net.Decimal.{decimal}

-- sort.Sort of an IntSlice.
abbrev insert_int : ℕ → List ℕ → List ℕ
insert_int p [] = p ∷ []
insert_int p (q ∷ qs) = let rest = insert_int p qs in if ltb q p then q ∷ rest else p ∷ q ∷ qs

-- serviceKeys, on the ports in the order in which Go happens to visit the map.
unfoldable pub service_keys : List ℕ → List ℕ
service_keys [] = []
service_keys (p ∷ ps) = insert_int p (service_keys ps)

-- joinDigits, behind its first number.
abbrev join_rest : List ℕ → Text
join_rest [] = []
join_rest (p ∷ []) = bytes " and " ++ decimal p
join_rest (p ∷ q ∷ ps) = bytes ", " ++ decimal p ++ join_rest (q ∷ ps)

unfoldable pub join_digits : List ℕ → Text
join_digits [] = []
join_digits (p ∷ ps) = decimal p ++ join_rest ps

-- A list without repetitions, as the keys of a map are.
abbrev pub IsOnce : List ℕ → Type 0
IsOnce [] = Unit {0}
IsOnce (p ∷ ps) = (In p ps → ⊥) × IsOnce ps

abbrev IsRising : List ℕ → Type 0
IsRising [] = Unit {0}
IsRising (p ∷ ps) = ((q : ℕ) → In q ps → p < q) × IsRising ps

In-insert_int : (q p : ℕ) (ps : List ℕ) → In q (insert_int p ps) ↔ ((q ≡ p) ⊎ In q ps)
In-insert_int q p [] = ground arith
In-insert_int q p (r ∷ ps) = elim (Bool-cases (ltb r p)) [
  | inl less ↦ ground (arith, less, In-insert_int q p ps)
  | inr more ↦ ground (arith, more)
]

In-service_keys : (q : ℕ) (ps : List ℕ) → In q (service_keys ps) ↔ In q ps
unfolding service_keys
In-service_keys q [] = ((λ i. i), λ i. i)
In-service_keys q (p ∷ ps) =
    ground (arith, In-insert_int q p (service_keys ps), In-service_keys q ps)

insert_int-IsRising :
    (p : ℕ) (ps : List ℕ) → IsRising ps → (In p ps → ⊥) → IsRising (insert_int p ps)
insert_int-IsRising p [] v n = ((λ q i. absurd i), tt)
insert_int-IsRising p (r ∷ ps) v n = elim (Bool-cases (ltb r p)) [
  | inl less ↦ rw less (
    (λ q i. elim ((In-insert_int q p ps).0 i) [
      | inl e ↦ ground (arith, less, e)
      | inr j ↦ v.0 q j
    ]),
    insert_int-IsRising p ps v.1 (λ i. n (inr i)),
  )
  | inr more ↦
      let different : p ≢ r = λ e. n (inl e) in
      let least : p < r = ground (arith, more, different) in
      rw more (
        (λ q i. elim i [
          | inl e ↦ ground (arith, least, e)
          | inr j ↦ ground (arith, least, v.0 q j)
        ]),
        v,
      )
]

service_keys-IsRising : (ps : List ℕ) → IsOnce ps → IsRising (service_keys ps)
unfolding service_keys
service_keys-IsRising [] s = tt
service_keys-IsRising (p ∷ ps) s =
    insert_int-IsRising p (service_keys ps) (service_keys-IsRising ps s.1)
      (λ i. s.0 ((In-service_keys p ps).0 i))

-- A rising list is determined by its members.
rising_unique :
    (ps qs : List ℕ) → IsRising ps → IsRising qs → ((q : ℕ) → In q ps ↔ In q qs) → ps ≡ qs
rising_unique [] [] v w same = refl
rising_unique [] (q ∷ qs) v w same = absurd ((same q).1 (inl refl))
rising_unique (p ∷ ps) [] v w same = absurd ((same p).0 (inl refl))
rising_unique (p ∷ ps) (q ∷ qs) v w same =
    let heads : p ≡ q = heads_equal ((same p).0 (inl refl)) ((same q).1 (inl refl)) in
    let tails : (x : ℕ) → In x ps ↔ In x qs = λ x. (
      (λ i. elim ((same x).0 (inr i)) [
        | inl e ↦ absurd (omega (arith, v.0 x i, heads, e))
        | inr j ↦ j
      ]),
      λ i. elim ((same x).1 (inr i)) [
        | inl e ↦ absurd (omega (arith, w.0 x i, heads, e))
        | inr j ↦ j
      ],
    ) in
    rw heads (ap (λ t. q ∷ t) (rising_unique ps qs v.1 w.1 tails))
  where
    heads_equal : In p (q ∷ qs) → In q (p ∷ ps) → p ≡ q
    heads_equal (inl e) j = e
    heads_equal (inr i) (inl e) = sym e
    heads_equal (inr i) (inr j) = absurd (omega (arith, w.0 p i, v.0 q j))

-- The first line of `session autossh` does not depend on the order in which Go visits the map: two
-- visits of the same ports, without repetitions, yield one text.
join_digits-service_keys :
    (ps qs : List ℕ)
    → IsOnce ps
    → IsOnce qs
    → ((q : ℕ) → In q ps ↔ In q qs)
    → join_digits (service_keys ps) ≡ join_digits (service_keys qs)
join_digits-service_keys ps qs s t same = ap join_digits (
    rising_unique (service_keys ps) (service_keys qs) (service_keys-IsRising ps s)
      (service_keys-IsRising qs t)
      (λ q. (
        (λ i. (In-service_keys q qs).1 ((same q).0 ((In-service_keys q ps).0 i))),
        λ i. (In-service_keys q ps).1 ((same q).1 ((In-service_keys q qs).0 i)),
      )))
