-- ===== src/Router/Spec/Gone.antt =====
-- routertwo/router.go: the names that RemoveNames removes, as texts, and those that it leaves.
use remotemoe.Prelude.{
  ◌≡◌, refl, sym, subst, ap, List, [], ◌∷◌, Option, none, some, true, false, inl, inr, arith, In,
  length, ltb, Bool-cases,
}
use remotemoe.Text.{Text, text_eq, text_eq_iff}
use remotemoe.Route.{NamedRoute, Route, host_route, name_route}
use remotemoe.Disk.{Env}
use remotemoe.Router.SweepLaws.{removable, gone, is_name}
use remotemoe.Router.Spec.{Target, session, alias, is_alias_of, target, name_texts}

-- The target is a name of the owner only for such a route.
pub routed_of_target :
    (o : Text) (t : Option Route)
    → target t ≡ some (alias o)
    → (n : NamedRoute) × (t ≡ some (name_route n)) × (n.owner ≡ o)
routed_of_target o none e = cc
routed_of_target o (some (host_route h)) e = cc
routed_of_target o (some (name_route n)) e = (n, refl, cc)

pub target_of_alias : (o : Text) (e : Option Target) → is_alias_of o e ≡ true → e ≡ some (alias o)
target_of_alias o none h = cc
target_of_alias o (some (session q)) h = cc
target_of_alias o (some (alias a)) h = ap (λ t. some (alias t)) ((text_eq_iff a o).0 h)

pub is_name_of_text : (k : Text) (ns : List NamedRoute) → In k (name_texts ns) → is_name k ns ≡ true
is_name_of_text k [] i = absurd i
is_name_of_text k (n ∷ ns) (inl e) = ground (arith, text_eq_iff n.name k, sym e)
is_name_of_text k (n ∷ ns) (inr i) = ground (arith, is_name_of_text k ns i)

pub text_of_is_name : (k : Text) (ns : List NamedRoute) → is_name k ns ≡ true → In k (name_texts ns)
text_of_is_name k [] e = cc
text_of_is_name k (n ∷ ns) e = elim (Bool-cases (text_eq n.name k)) [
  | inl same ↦ inl (sym ((text_eq_iff n.name k).0 same))
  | inr other ↦ inr (text_of_is_name k ns (ground arith))
]

module _ (env : Env) where
  -- What is gone was in the list, and its file could be removed.
  pub In-gone :
      (k : Text) (ns : List NamedRoute)
      → In k (name_texts (gone env ns))
      → (n : NamedRoute) × In n ns × (n.name ≡ k) × (env.can_unlink n.name ≡ true)
  In-gone k [] i = absurd i
  In-gone k (n ∷ ns) i = elim (Bool-cases (env.can_unlink n.name)) [
    | inl can ↦ elim (subst (λ g. In k (name_texts g)) (gone_more can) i) [
      | inl e ↦ (n, inl refl, sym e, can)
      | inr j ↦ let (m, there, same, able) = In-gone k ns j in (m, inr there, same, able)
    ]
    | inr stays ↦ absurd (subst (λ g. In k (name_texts g)) (gone_none stays) i)
  ]
    where
      gone_more : env.can_unlink n.name ≡ true → gone env (n ∷ ns) ≡ n ∷ gone env ns
      gone_more can = ground arith

      gone_none : env.can_unlink n.name ≡ false → gone env (n ∷ ns) ≡ []
      gone_none stays = ground arith

  -- If not all are gone, the file of another could not be removed.
  pub first_stuck :
      (ns : List NamedRoute)
      → ltb (removable env ns) (length ns) ≡ true
      → (n : NamedRoute) × In n ns × (env.can_unlink n.name ≡ false)
  first_stuck [] e = cc
  first_stuck (n ∷ ns) e = elim (Bool-cases (env.can_unlink n.name)) [
    | inl can ↦ let (m, there, rest) = first_stuck ns (ground arith) in (m, inr there, rest)
    | inr stays ↦ (n, inl refl, stays)
  ]

  pub all_gone :
      (ns : List NamedRoute) → ltb (removable env ns) (length ns) ≡ false → gone env ns ≡ ns
  all_gone [] e = refl
  all_gone (n ∷ ns) e = elim (Bool-cases (env.can_unlink n.name)) [
    | inl can ↦ ground (arith, all_gone ns)
    | inr stays ↦ ground arith
  ]
