-- ===== src/Router/Ownership.antt =====
-- routertwo/router.go: through a history, a name stays with its owner until that removes names.
use remotemoe.Prelude.{
  ℕ, ◌≡◌, refl, sym, ◌∙◌, subst, ap, List, [], ◌∷◌, Option, none, some, Bool, true, ◌≢◌, inl, inr,
  arith, In, take, suc, zero, Bool-cases, Option-cases,
}
use remotemoe.Text.{Text, text_eq, text_eq_iff}
use remotemoe.Dict.{lookup}
use remotemoe.Route.{Peer, NamedRoute, name_route, new_name}
use remotemoe.Disk.{Env}
use remotemoe.Router.{find}
use remotemoe.Router.Sweep.{remove_names, remove_listed}
use remotemoe.Router.IndexLaws.{names_of, listed}
use remotemoe.Router.Effects.Names.{
  takes, find-add_name, taken_away, find-remove_name, taken_away-eq-some,
}
use remotemoe.Router.SweepLaws.{
  removable, gone, is_name, find-remove_listed, remove_names_unlisted, remove_names_listed,
}
use remotemoe.Router.History.{
  World, Call, onlines, offlines, removes_all, adds, removes, step, run, IsValid, Allowed,
  AllAllowed,
}
use remotemoe.Router.History.Sessions.{online-names, offline-names}
use remotemoe.Router.History.Valid.{step-IsValid}

pub is_name-In :
    (k : Text) (ns : List NamedRoute)
    → is_name k ns ≡ true
    → (m : NamedRoute) × In m ns × (m.name ≡ k)
is_name-In k [] e = cc
is_name-In k (n ∷ ns) e = elim (Bool-cases (text_eq n.name k)) [
  | inl here ↦ (n, inl refl, (text_eq_iff n.name k).0 here)
  | inr there ↦ let (m, i, q) = is_name-In k ns (rw there at e) in (m, inr i, q)
]

pub In-take : (k : ℕ) (m : NamedRoute) (ns : List NamedRoute) → In m (take k ns) → In m ns
In-take zero m ns i = absurd i
In-take (suc k) m [] i = i
In-take (suc k) m (n ∷ ns) (inl e) = inl e
In-take (suc k) m (n ∷ ns) (inr i) = inr (In-take k m ns i)

-- Whose names a call removes.
abbrev pub remover : Call → Option Text
remover (removes env s p) = some p.fqdn
remover (removes_all env p) = some p.fqdn
remover (onlines env p) = none
remover (offlines env p) = none
remover (adds env s p) = none

abbrev pub NotBy : Text → List Call → Type 0
NotBy o [] = Unit {0}
NotBy o (c ∷ cs) = (remover c ≢ some o) × NotBy o cs

module _ (unicode_lower : Text → Text) (is_key : Text → Bool) where
  module _ (w : World) (v : IsValid unicode_lower is_key w) (k : Text) (n : NamedRoute)
      (there : find k w.router ≡ some (name_route n)) where
    adds-keeps :
        (env : Env) (s : Text) (p : Peer)
        → find k (step unicode_lower w (adds env s p)).router ≡ some (name_route n)
    unfolding step takes
    adds-keeps env s p =
        let new = new_name unicode_lower w.next_ref s p in
        ground (arith, there, find-add_name env new w.router v.synced k, text_eq_iff new.name k)

    removes-keeps :
        (env : Env) (s : Text) (p : Peer)
        → n.owner ≢ p.fqdn
        → find k (step unicode_lower w (removes env s p)).router ≡ some (name_route n)
    unfolding step
    removes-keeps env s p other = elim (Option-cases (taken_away env s p w.router)) [
      | inl kept ↦ find-remove_name env s p w.router v.synced k ∙ rw kept there
      | inr (m, went) ↦
          let (found, own) = taken_away-eq-some env s p w.router m went in
          ground (arith, there, find-remove_name env s p w.router v.synced k, went, text_eq_iff s k)
    ]

    listed-keeps :
        (env : Env) (p : Peer) (m : NamedRoute) (ms : List NamedRoute)
        → n.owner ≢ p.fqdn
        → lookup p.fqdn w.router.name_index ≡ some (m ∷ ms)
        → env.can_unlink m.name ≡ true
        → find k (remove_listed env p (m ∷ ms) w.router).0 ≡ some (name_route n)
    listed-keeps env p m ms other e first =
        find-remove_listed env p m ms w.router first v.synced k
        ∙ elim (Bool-cases (is_name k (gone env (m ∷ ms)))) [
          | inl named ↦
              let (x, i, q) = is_name-In k (gone env (m ∷ ms)) named in
              let mine : In x (names_of p.fqdn w.router.name_index) =
                subst (In x) (sym (ap listed e)) (In-take (removable env (m ∷ ms)) x (m ∷ ms) i) in
              absurd (
                other (
                  ground (
                    arith,
                    there,
                    q,
                    v.indexed.routed p.fqdn x mine,
                    v.indexed.owner p.fqdn x mine,
                  )))
          | inr unnamed ↦ rw unnamed there
        ]

    removes_all-keeps :
        (env : Env) (p : Peer)
        → Allowed unicode_lower is_key w (removes_all env p)
        → n.owner ≢ p.fqdn
        → find k (step unicode_lower w (removes_all env p)).router ≡ some (name_route n)
    unfolding step
    removes_all-keeps env p allowed other = part (lookup p.fqdn w.router.name_index) refl
      where
        part :
            (o : Option (List NamedRoute))
            → lookup p.fqdn w.router.name_index ≡ o
            → find k (remove_names env p w.router).0 ≡ some (name_route n)
        part none e = rw (remove_names_unlisted env p w.router e) there
        part (some []) e = absurd (v.trim p.fqdn e)
        part (some (m ∷ ms)) e =
            rw (remove_names_listed env p w.router (m ∷ ms) e)
              (listed-keeps env p m ms other e (allowed m ms (ap listed e)))

    pub step-keeps_name :
        (c : Call)
        → Allowed unicode_lower is_key w c
        → remover c ≢ some n.owner
        → find k (step unicode_lower w c).router ≡ some (name_route n)
    unfolding step
    step-keeps_name (onlines env p) a h =
        (online-names unicode_lower is_key w v env p a k n).0 there
    step-keeps_name (offlines env p) a h =
        (offline-names unicode_lower is_key w v env p k n).0 there
    step-keeps_name (adds env s p) a h = adds-keeps env s p
    step-keeps_name (removes env s p) a h = removes-keeps env s p (λ e. h (ap some (sym e)))
    step-keeps_name (removes_all env p) a h = removes_all-keeps env p a (λ e. h (ap some (sym e)))

  -- From a well-formed router on, through every allowed history in which its owner removes nothing,
  -- a name stays routed to the same owner, whatever all others do.
  pub run-keeps_name :
      (w : World) (cs : List Call) (k : Text) (n : NamedRoute)
      → IsValid unicode_lower is_key w
      → AllAllowed unicode_lower is_key w cs
      → NotBy n.owner cs
      → find k w.router ≡ some (name_route n)
      → find k (run unicode_lower w cs).router ≡ some (name_route n)
  unfolding run
  run-keeps_name w [] k n v a h there = there
  run-keeps_name w (c ∷ cs) k n v a h there =
      run-keeps_name (step unicode_lower w c) cs k n (step-IsValid unicode_lower is_key w c v a.0)
        a.1 h.1 (step-keeps_name w v k n there c a.0 h.0)
