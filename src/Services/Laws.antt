-- ===== src/Services/Laws.antt =====
-- services/services.go: the table of ports is the inverse of the table of services.
use remotemoe.Prelude.{
  ℕ, ◌≡◌, refl, sym, ap, subst, ◌∙◌, ◌==◌, List, [], ◌∷◌, none, some, In, inl, inr, ◌↔◌, ◌⊎◌, arith,
  Bool-cases,
}
use remotemoe.Text.{Text}
use remotemoe.Services.{Ports, service_of, add_ports, fill, ports, services}

-- Some service of the list has the port.
abbrev pub Has : Text → ℕ → List (Text × List ℕ) → Type 0
Has s p order = (ps : List ℕ) × In (s, ps) order × In p ps

-- No port belongs to two services.
abbrev pub IsDisjoint : List (Text × List ℕ) → Type 0
IsDisjoint order = (s t : Text) (p : ℕ) → Has s p order → Has t p order → s ≡ t

service_of-add_ports :
    (s : Text) (ps : List ℕ) (t : Ports) (p : ℕ)
    → (In p ps × (service_of p (add_ports s ps t) ≡ some s))
      ⊎ ((In p ps → ⊥) × (service_of p (add_ports s ps t) ≡ service_of p t))
unfolding add_ports service_of
service_of-add_ports s [] t p = inr ((λ i. i), refl)
service_of-add_ports s (q ∷ ps) t p = elim (service_of-add_ports s ps ((q, s) ∷ t) p) [
  | inl (i, e) ↦ inl (inr i, e)
  | inr (n, e) ↦ elim (Bool-cases (q == p)) [
    | inl same ↦ inl (inl (ground (arith, same)), ground (arith, e, same))
    | inr other ↦
        inr (
          (λ i. elim i [ inl x ↦ ground (arith, x, other) | inr j ↦ n j ]),
          ground (arith, e, other),
        )
  ]
]

Has-head :
    (s : Text) (ps : List ℕ) (order : List (Text × List ℕ)) (p : ℕ)
    → In p ps
    → Has s p ((s, ps) ∷ order)
Has-head s ps order p i = (ps, inl refl, i)

Has-tail :
    (e : Text × List ℕ) (order : List (Text × List ℕ)) (s : Text) (p : ℕ)
    → Has s p order
    → Has s p (e ∷ order)
Has-tail e order s p (ps, i, j) = (ps, inr i, j)

service_of-fill :
    (order : List (Text × List ℕ)) (t : Ports) (p : ℕ)
    → ((s : Text) × Has s p order × (service_of p (fill order t) ≡ some s))
      ⊎ (((s : Text) → Has s p order → ⊥) × (service_of p (fill order t) ≡ service_of p t))
unfolding fill
service_of-fill [] t p = inr ((λ s (ps, i, j). i), refl)
service_of-fill ((s, ps) ∷ order) t p = elim (service_of-fill order (add_ports s ps t) p) [
  | inl (r, h, e) ↦ inl (r, Has-tail (s, ps) order r p h, e)
  | inr (n, e) ↦ elim (service_of-add_ports s ps t p) [
    | inl (i, f) ↦ inl (s, Has-head s ps order p i, e ∙ f)
    | inr (m, f) ↦ inr (
      (λ r (qs, i, j). elim i [
        | inl q ↦ m (subst (In p) (ap (λ (x : Text × List ℕ). x.1) q) j)
        | inr k ↦ n r (qs, k, j)
      ]),
      e ∙ f,
    )
  ]
]

-- The table of disjoint services finds exactly the service of a port.
service_of-fill_iff :
    (order : List (Text × List ℕ)) (p : ℕ) (s : Text)
    → IsDisjoint order
    → (service_of p (fill order []) ≡ some s) ↔ Has s p order
unfolding service_of
service_of-fill_iff order p s d = elim (service_of-fill order [] p) [
  | inl (r, h, e) ↦ (
    (λ q. subst (λ x. Has x p order) (some_inj r s (sym e ∙ q)) h),
    λ k. e ∙ ap some (d r s p h k),
  )
  | inr (n, e) ↦ ((λ q. absurd (none_some s (sym e ∙ q))), λ k. absurd (n s k))
]
  where
    some_inj : (a b : Text) → some a ≡ some b → a ≡ b
    some_inj a b q = cc

    none_some : (a : Text) → none ≡ some a → ⊥
    none_some a q = cc

service_of-ports : (s : Text) (p : ℕ) → Has s p services → service_of p ports ≡ some s
unfolding ports service_of
service_of-ports s p (ps, i, j) = ground (arith, i, j)

services-IsDisjoint : IsDisjoint services
services-IsDisjoint s t p h k = same s t (sym (service_of-ports s p h) ∙ service_of-ports t p k)
  where
    same : (a b : Text) → some a ≡ some b → a ≡ b
    same a b q = cc

Has-same :
    (order other : List (Text × List ℕ)) (s : Text) (p : ℕ)
    → ((e : Text × List ℕ) → In e order → In e other)
    → Has s p order
    → Has s p other
Has-same order other s p f (ps, i, j) = (ps, f (s, ps) i, j)

-- In whatever order init visits the services, the table finds for a port exactly the service that
-- has it.
service_of-order_iff :
    (order : List (Text × List ℕ)) (p : ℕ) (s : Text)
    → ((e : Text × List ℕ) → In e order ↔ In e services)
    → (service_of p (fill order []) ≡ some s) ↔ Has s p services
service_of-order_iff order p s same =
    let there = λ (r : Text). Has-same order services r p (λ e. (same e).0) in
    let found = service_of-fill_iff order p s (λ a b q h k.
      services-IsDisjoint a b q (Has-same order services a q (λ e. (same e).0) h)
        (Has-same order services b q (λ e. (same e).0) k)) in
    (λ e. there s (found.0 e), λ h. found.1 (Has-same services order s p (λ e. (same e).1) h))
