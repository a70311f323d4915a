-- ===== src/Router/Spec/Refines.antt =====
-- routertwo/router.go: over whole histories the router answers and changes as a registry does.
use remotemoe.Prelude.{◌≡◌, refl, ap, sym, List, [], ◌∷◌, none, Bool}
use remotemoe.Text.{Text}
use remotemoe.Route.{host_route, name_route, new_name}
use remotemoe.Dict.{lookup}
use remotemoe.Router.{find}
use remotemoe.Router.Invariant.{IsKeyed}
use remotemoe.Router.History.{
  World, Call, onlines, offlines, removes_all, adds, removes, step, run, IsValid, Allowed,
  AllAllowed, empty_world,
}
use remotemoe.Router.History.Valid.{step-IsValid, empty-IsValid}
use remotemoe.Router.Spec.{
  registry, Does, DoesAll, onlined, finished, nothing_more, and_then, answer, answers,
}
use remotemoe.Router.Spec.Single.{
  online-result, registry-online, registry-offline, add_name-answer, registry-add_name,
  remove_name-answer, registry-remove_name,
}
use remotemoe.Router.Spec.All.{remove_names_obeys}

module _ (unicode_lower : Text → Text) (is_key : Text → Bool) where
  keyed : (w : World) → IsValid unicode_lower is_key w → IsKeyed w.router
  keyed w v k (host_route h) e = (v.hosts k h e).0
  keyed w v k (name_route n) e = v.indexed.keyed k n e

  step_obeys :
      (w : World) (c : Call)
      → IsValid unicode_lower is_key w
      → Allowed unicode_lower is_key w c
      → Does unicode_lower
          (registry w.router)
          c
          (answer unicode_lower w c)
          (registry (step unicode_lower w c).router)
  unfolding step new_name
  step_obeys w (onlines env p) v a =
      (ap onlined (online-result env w.router v.synced p), registry-online env w.router v.synced p)
  step_obeys w (offlines env p) v a = (refl, registry-offline env w.router v.synced p (keyed w v))
  step_obeys w (removes_all env p) v a = remove_names_obeys unicode_lower is_key w v env p a
  step_obeys w (adds env s p) v a = (
    ap finished (add_name-answer env w.router v.synced (new_name unicode_lower w.next_ref s p)),
    registry-add_name env w.router v.synced (new_name unicode_lower w.next_ref s p),
  )
  step_obeys w (removes env k p) v a = (
    ap finished (remove_name-answer env w.router v.synced k p),
    registry-remove_name env w.router v.synced k p,
  )

  run_obeys :
      (w : World) (cs : List Call)
      → IsValid unicode_lower is_key w
      → AllAllowed unicode_lower is_key w cs
      → DoesAll unicode_lower
          (registry w.router)
          cs
          (answers unicode_lower w cs)
          (registry (run unicode_lower w cs).router)
  unfolding run
  run_obeys w [] v a = nothing_more _
  run_obeys w (c ∷ cs) v a =
      and_then (step_obeys w c v a.0)
        (run_obeys (step unicode_lower w c) cs (step-IsValid unicode_lower is_key w c v a.0) a.1)

  registry-empty : (db_path : Text) → registry (empty_world db_path).router ≡ (λ k. none)
  unfolding find lookup
  registry-empty db_path = refl

  -- From an empty router on, through every allowed history, the router answers and changes as an
  -- empty registry: Online puts the session under its name and tells whether one was there, Offline
  -- takes away only the very session, AddName takes a free name, RemoveName gives up the caller's
  -- own, each if the file system lets it, with these errors otherwise, and RemoveNames, without a panic,
  -- gives up the names that it answers, whose files go, and all of them or else, with an error, all
  -- but some with a file that stays. Nothing else changes.
  pub run_refines_registry :
      (db_path : Text) (cs : List Call)
      → AllAllowed unicode_lower is_key (empty_world db_path) cs
      → DoesAll unicode_lower
          (λ k. none)
          cs
          (answers unicode_lower (empty_world db_path) cs)
          (registry (run unicode_lower (empty_world db_path) cs).router)
  run_refines_registry db_path cs a =
      rw (sym (registry-empty db_path))
        (run_obeys (empty_world db_path) cs (empty-IsValid unicode_lower is_key db_path) a)
