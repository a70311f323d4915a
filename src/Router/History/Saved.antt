-- ===== src/Router/History/Saved.antt =====
-- routertwo/router.go: after a history on a file system that obliges, a router that is started again
-- on the files has the same routes.
use remotemoe.Prelude.{
  ℕ, zero, suc, ◌≡◌, refl, sym, ap, ◌∙◌, subst, List, [], ◌∷◌, Bool, true, Option, none, some, In,
  inl, inr, ◌⊎◌, take,
}
use mathlib.Core.Option
use remotemoe.Text.{Text}
use remotemoe.Text.Lower.{to_lower}
use remotemoe.Dict.{lookup}
use remotemoe.Files.Laws.{IsSlashFree}
use remotemoe.Route.{Peer, NamedRoute, Route, host_route, name_route, new_name}
use remotemoe.Disk.{Env, Disk, Content, file}
use remotemoe.Router.{Router, find}
use remotemoe.Router.Invariant.{IsSynced, IsKeyed}
use remotemoe.Router.Effects.{stores}
use remotemoe.Router.IndexLaws.{listed}
use remotemoe.Router.Sweep.{remove_names}
use remotemoe.Router.SweepLaws.{removable, remove_names_listed, remove_names_unlisted}
use remotemoe.Router.Persist.{AllSlashFree}
use remotemoe.Router.Saved.{
  IsSaved, online-IsSaved, offline-IsSaved, add_name-IsSaved, remove_name-IsSaved,
  remove_listed-IsSaved,
}
use remotemoe.Router.Load.{Entry, directory, opened, up, new_router}
use remotemoe.Router.Restart.{content, lasting, AreWired, IsEntry, new_router-find}
use remotemoe.Router.History.{
  World, Call, onlines, offlines, removes_all, adds, removes, step, run, IsValid, AllAllowed,
  empty_world,
}
use remotemoe.Router.History.Valid.{step-IsValid, run_empty-IsValid, empty-IsValid}

AllSlashFree-take :
    (c : ℕ) (d : Text) (k : ℕ) (ns : List NamedRoute)
    → ((n : NamedRoute) → In n ns → IsSlashFree n.name)
    → AllSlashFree c d (take k ns)
AllSlashFree-take c d zero ns f = tt
AllSlashFree-take c d (suc k) [] f = tt
AllSlashFree-take c d (suc k) (n ∷ ns) f =
    (f n (inl refl), AllSlashFree-take c d k ns (λ m i. f m (inr i)))

module _ (unicode_lower : Text → Text) where
  -- The file system obliges, and the names that come in hold no slash.
  abbrev pub Obliges : Call → Type 0
  Obliges (onlines env p) = (stores env ≡ true) × IsSlashFree p.fqdn
  Obliges (offlines env p) = stores env ≡ true
  Obliges (removes_all env p) = (k : Text) → env.can_unlink k ≡ true
  Obliges (adds env s p) = (stores env ≡ true) × IsSlashFree (to_lower unicode_lower s)
  Obliges (removes env s p) = (k : Text) → env.can_unlink k ≡ true

  abbrev pub AllOblige : List Call → Type 0
  AllOblige [] = Unit {0}
  AllOblige (call ∷ cs) = Obliges call × AllOblige cs

  module _ (is_key : Text → Bool) (c : ℕ) (d : Text) where
    module _ (w : World) (v : IsValid unicode_lower is_key w) (saved : IsSaved c d w.router) where
      pub keyed : IsKeyed w.router
      keyed k (host_route h) e = (v.hosts k h e).0
      keyed k (name_route n) e = v.indexed.keyed k n e

      removes_all-IsSaved :
          (env : Env) (p : Peer)
          → ((k : Text) → env.can_unlink k ≡ true)
          → IsSaved c d (remove_names env p w.router).0
      removes_all-IsSaved env p un = part (lookup p.fqdn w.router.name_index) refl
        where
          part :
              (o : Option (List NamedRoute))
              → lookup p.fqdn w.router.name_index ≡ o
              → IsSaved c d (remove_names env p w.router).0
          part none e = rw (remove_names_unlisted env p w.router e) saved
          part (some []) e = absurd (v.trim p.fqdn e)
          part (some (n ∷ ns)) e = rw (remove_names_listed env p w.router (n ∷ ns) e) (
              remove_listed-IsSaved c d env w.router saved v.synced un p n ns (
                AllSlashFree-take c d (removable env (n ∷ ns)) (n ∷ ns) (λ m i.
                  saved.names m.name (name_route m)
                    (v.indexed.routed p.fqdn m (subst (In m) (sym (ap listed e)) i)))))

      step-IsSaved : (call : Call) → Obliges call → IsSaved c d (step unicode_lower w call).router
      unfolding step new_name
      step-IsSaved (onlines env p) o = online-IsSaved c d env w.router saved v.synced o.0 p o.1
      step-IsSaved (offlines env p) o = offline-IsSaved c d env w.router saved v.synced o p keyed
      step-IsSaved (removes_all env p) o = removes_all-IsSaved env p o
      step-IsSaved (adds env s p) o =
          add_name-IsSaved c d env w.router saved v.synced o.0
            (new_name unicode_lower w.next_ref s p) o.1
      step-IsSaved (removes env s p) o = remove_name-IsSaved c d env w.router saved v.synced o s p

    pub run-IsSaved :
        (w : World) (cs : List Call)
        → IsValid unicode_lower is_key w
        → IsSaved c d w.router
        → AllAllowed unicode_lower is_key w cs
        → AllOblige cs
        → IsSaved c d (run unicode_lower w cs).router
    unfolding run
    run-IsSaved w [] v s a o = s
    run-IsSaved w (call ∷ cs) v s a o =
        run-IsSaved (step unicode_lower w call) cs (step-IsValid unicode_lower is_key w call v a.0)
          (step-IsSaved w v s call o.0) a.1 o.1

    pub empty-IsSaved : IsSaved c d (empty_world (c ∷ d)).router
    unfolding find lookup
    empty-IsSaved = record { directory = refl; names = λ k t e. cc; files = λ k h. refl }

  -- What WalkDir visits: directories, and the files that stand under names without slashes; all of
  -- those.
  pub record IsWalk (db_path : Text) (disk : Disk) (walk : List Entry) : Type 0 where
    pub sound :
        (e : Entry)
        → In e walk
        → (e ≡ directory)
          ⊎ ((k : Text) × (x : Content) × IsSlashFree k
              × (lookup (file db_path k) disk ≡ some x)
              × (e ≡ opened x))
    pub complete :
        (k : Text) (x : Content)
        → IsSlashFree k
        → lookup (file db_path k) disk ≡ some x
        → In (opened x) walk

  map-eq-some :
      (o : Option Route) (x : Content)
      → Option.map content o ≡ some x
      → (t : Route) × (o ≡ some t) × (content t ≡ x)
  map-eq-some none x e = cc
  map-eq-some (some t) x e = (t, refl, cc)

  pub saved-IsEntry :
      (c : ℕ) (d : Text) (r : Router) (walk : List Entry)
      → IsKeyed r
      → IsSaved c d r
      → IsWalk (c ∷ d) r.disk walk
      → (e : Entry) → In e walk
      → IsEntry r e
  saved-IsEntry c d r walk keyed s w e i = elim (w.sound e i) [
    | inl q ↦ inl q
    | inr (k, x, free, there, q) ↦
        let (t, found, same) = map-eq-some (find k r) x (sym (s.files k free) ∙ there) in
        inr (t, q ∙ ap opened (sym same), ap (λ j. find j r) (keyed k t found) ∙ found)
  ]

  saved-In :
      (c : ℕ) (d : Text) (r : Router) (walk : List Entry)
      → IsSaved c d r
      → IsWalk (c ∷ d) r.disk walk
      → (k : Text) (t : Route) → find k r ≡ some t
      → In (opened (content t)) walk
  saved-In c d r walk s w k t e =
      w.complete k (content t) (s.names k t e)
        (s.files k (s.names k t e) ∙ ap (Option.map content) e)

  valid-AreWired :
      (is_key : Text → Bool) (w : World) → IsValid unicode_lower is_key w → AreWired w.router
  valid-AreWired is_key w v k (host_route h) e = tt
  valid-AreWired is_key w v k (name_route n) e = (v.names k n e).2

  -- After an allowed history from an empty router, on a file system that obliges and with names
  -- without slashes, NewRouter on a walk that visits all files, and directories, comes up with both
  -- tables alike and with the very routes of the router, but for the sessions of hosts and the
  -- addresses of names: each name has its owner, and its router set.
  pub run-restarts :
      (is_key : Text → Bool) (c : ℕ) (d : Text) (cs : List Call) (walk : List Entry)
      → AllAllowed unicode_lower is_key (empty_world (c ∷ d)) cs
      → AllOblige cs
      → IsWalk (c ∷ d) (run unicode_lower (empty_world (c ∷ d)) cs).router.disk walk
      → (u : Router) × (new_router
            (c ∷ d)
            (run unicode_lower (empty_world (c ∷ d)) cs).router.disk
            walk
          ≡ up u)
        × IsSynced u
        × ((k : Text)
            → Option.map lasting (find k u)
              ≡ Option.map lasting (find k (run unicode_lower (empty_world (c ∷ d)) cs).router))
  run-restarts is_key c d cs walk a o visits =
      let w = run unicode_lower (empty_world (c ∷ d)) cs in
      let v = run_empty-IsValid unicode_lower is_key (c ∷ d) cs a in
      let saved =
        run-IsSaved is_key c d (empty_world (c ∷ d)) cs (empty-IsValid unicode_lower is_key (c ∷ d))
          (empty-IsSaved is_key c d) a o in
      let named = keyed is_key c d w v saved in
      new_router-find w.router (c ∷ d) w.router.disk walk named (valid-AreWired is_key w v)
        (saved-IsEntry c d w.router walk named saved visits)
        (saved-In c d w.router walk saved visits)
