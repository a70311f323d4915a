-- ===== src/Router/Emptied.antt =====
-- routertwo/router.go: what RemoveNames answers and leaves.
use remotemoe.Prelude.{
  ◌≡◌, refl, sym, ◌∙◌, subst, ap, List, [], ◌∷◌, Option, none, some, Bool, true, false, ◌≢◌, inl,
  inr, arith, In, take, length, ltb, if◌then◌else◌, Bool-cases,
}
use remotemoe.Text.{Text, text_eq_iff, text_eq_refl}
use remotemoe.Dict.{lookup}
use remotemoe.Route.{Peer, NamedRoute, Route, host_route, name_route}
use remotemoe.Disk.{Env}
use remotemoe.Router.{Router, find, fs_error}
use remotemoe.Router.Sweep.{remove_names}
use remotemoe.Router.Invariant.{IsSynced}
use remotemoe.Router.IndexLaws.{names_of, listed}
use remotemoe.Router.SweepLaws.{
  removable, gone, is_name, remove_listed_answer, find-remove_listed, remove_listed-IsSynced,
  remove_names_listed, remove_names_unlisted,
}
use remotemoe.Router.History.{World, IsValid}
use remotemoe.Router.Answers.{belongs}

-- With both tables alike, and if the file of the caller's first name can be removed, RemoveNames
-- removes the longest row of the caller's names whose files can be removed: it answers those names,
-- with an error if others are left, no other route changes, and both tables stay alike.
pub remove_names_answer :
    (env : Env) (p : Peer) (r : Router) (n : NamedRoute) (ns : List NamedRoute)
    → IsSynced r
    → lookup p.fqdn r.name_index ≡ some (n ∷ ns)
    → env.can_unlink n.name ≡ true
    → ((remove_names env p r).1
        ≡ some (record {
          list = take (removable env (n ∷ ns)) (n ∷ ns);
          error = if ltb (removable env (n ∷ ns)) (length (n ∷ ns)) then some fs_error else none;
        }))
      × ((k : Text)
          → find k (remove_names env p r).0
            ≡ (if is_name k (take (removable env (n ∷ ns)) (n ∷ ns)) then none else find k r))
      × IsSynced (remove_names env p r).0
remove_names_answer env p r n ns s e first = rw (remove_names_listed env p r (n ∷ ns) e) (
  remove_listed_answer env p n ns r first,
  find-remove_listed env p n ns r first s,
  remove_listed-IsSynced env p n ns r first s,
)

belongs-eq-false :
    (o : Text) (t : Option Route)
    → ((m : NamedRoute) → t ≡ some (name_route m) → m.owner ≢ o)
    → belongs o t ≡ false
belongs-eq-false o none h = refl
belongs-eq-false o (some (host_route g)) h = refl
belongs-eq-false o (some (name_route m)) h = ground (arith, h m refl, text_eq_iff m.owner o)

-- The files of these names can be removed.
abbrev pub AllGo : Env → List NamedRoute → Type 0
AllGo env [] = Unit {0}
AllGo env (n ∷ ns) = (env.can_unlink n.name ≡ true) × AllGo env ns

gone_all : (env : Env) (ns : List NamedRoute) → AllGo env ns → gone env ns ≡ ns
gone_all env [] a = refl
gone_all env (n ∷ ns) a = ground (arith, gone_all env ns)

removable_all :
    (env : Env) (ns : List NamedRoute) → AllGo env ns → ltb (removable env ns) (length ns) ≡ false
removable_all env [] a = refl
removable_all env (n ∷ ns) a = ground (arith, removable_all env ns)

is_name_of_In : (n : NamedRoute) (ns : List NamedRoute) → In n ns → is_name n.name ns ≡ true
is_name_of_In n [] i = absurd i
is_name_of_In n (m ∷ ns) (inl e) =
    ground (arith, ap (λ (x : NamedRoute). x.name) e, text_eq_refl n.name)
is_name_of_In n (m ∷ ns) (inr i) = ground (arith, is_name_of_In n ns i)

module _ (unicode_lower : Text → Text) (is_key : Text → Bool) where
  module _ (w : World) (env : Env) (p : Peer) (v : IsValid unicode_lower is_key w)
      (all : AllGo env (names_of p.fqdn w.router.name_index)) where
    part_answer :
        (o : Option (List NamedRoute))
        → lookup p.fqdn w.router.name_index ≡ o
        → (remove_names env p w.router).1
          ≡ some (record { list = names_of p.fqdn w.router.name_index; error = none })
    part_answer none e = rw (remove_names_unlisted env p w.router e, e)
    part_answer (some []) e = absurd (v.trim p.fqdn e)
    part_answer (some (n ∷ ns)) e =
        let a : AllGo env (n ∷ ns) = subst (AllGo env) (ap listed e) all in
        (remove_names_answer env p w.router n ns v.synced e a.0).0
        ∙ rw (gone_all env (n ∷ ns) a, removable_all env (n ∷ ns) a, e)

    part_find :
        (k : Text) (m : NamedRoute) (o : Option (List NamedRoute))
        → lookup p.fqdn w.router.name_index ≡ o
        → find k (remove_names env p w.router).0 ≡ some (name_route m)
        → m.owner ≢ p.fqdn
    part_find k m none e there own =
        let before = rw (remove_names_unlisted env p w.router e) at there in
        absurd (
          subst (In m) (ap (λ o. names_of o w.router.name_index) own ∙ ap listed e)
            (v.indexed.complete k m before))
    part_find k m (some []) e there own = absurd (v.trim p.fqdn e)
    part_find k m (some (n ∷ ns)) e there own =
        let a : AllGo env (n ∷ ns) = subst (AllGo env) (ap listed e) all in
        let after = (remove_names_answer env p w.router n ns v.synced e a.0).1 k in
        let kept = sym after ∙ there in
        elim (Bool-cases (is_name k (n ∷ ns))) [
          | inl named ↦ ground (arith, gone_all env (n ∷ ns) a, kept, named)
          | inr unnamed ↦
              let before : find k w.router ≡ some (name_route m) =
                ground (arith, gone_all env (n ∷ ns) a, kept, unnamed) in
              let mine : In m (n ∷ ns) =
                subst (In m) (ap (λ o. names_of o w.router.name_index) own ∙ ap listed e)
                  (v.indexed.complete k m before) in
              ground (arith, is_name_of_In m (n ∷ ns) mine, v.indexed.keyed k m before, unnamed)
        ]

  -- In a well-formed router, if all files of the caller's names can be removed, RemoveNames answers
  -- all of them without an error, and no name of the caller is routed any more.
  pub remove_names_empties :
      (w : World) (env : Env) (p : Peer)
      → IsValid unicode_lower is_key w
      → AllGo env (names_of p.fqdn w.router.name_index)
      → ((remove_names env p w.router).1
          ≡ some (record { list = names_of p.fqdn w.router.name_index; error = none }))
        × ((k : Text) → belongs p.fqdn (find k (remove_names env p w.router).0) ≡ false)
  remove_names_empties w env p v all = (
    part_answer w env p v all _ refl,
    λ k. belongs-eq-false p.fqdn _ (λ m. part_find w env p v all k m _ refl),
  )
