-- ===== src/Tests/Registries.antt =====
-- The registry that a concrete history leaves.
use remotemoe.Prelude.{◌≡◌, refl, subst, Bool, List, [], ◌∷◌, none, true, false}
use remotemoe.Text.{bytes, text_eq}
use remotemoe.Route.{NamedRoute}
use remotemoe.Disk.{Env}
use remotemoe.Router.History.{World, Call, onlines, offlines, removes_all, adds, run, AllAllowed}
use remotemoe.Router.Spec.{DoesAll, answers, registry, onlined, finished, took_away, silent}
use remotemoe.Router.Spec.Refines.{run_refines_registry}
use remotemoe.Router.{ok, err, occupied, exchange}
use remotemoe.Router.Sweep.{remove_listed, sweep_all, sweep, delete_names}
use remotemoe.Tests.Routes.{program, blog}
use remotemoe.Tests.Data.{alice, bob, at, no_unicode, is_session, db, fresh}

-- Alice adds two names, and removes all when the file of the second cannot be removed.
abbrev half_stuck : Env
half_stuck = record (at 9) { can_unlink = λ k. text_eq k blog }

abbrev is_first_blog : List NamedRoute → Bool
is_first_blog [] = true
is_first_blog (n ∷ ns) = text_eq n.name blog

abbrev calls : List Call
calls =
    onlines (at 1) alice
    ∷ adds (at 2) blog alice
    ∷ adds (at 3) (bytes "wiki.moe") alice
    ∷ adds (at 4) blog bob
    ∷ removes_all half_stuck alice
    ∷ offlines (at 5) alice
    ∷ []

abbrev end : World
end = run no_unicode fresh calls

calls_allowed : AllAllowed no_unicode is_session fresh calls
unfolding program is_session
calls_allowed = (
  refl,
  (
    (refl, refl),
    (
      (refl, refl),
      ((refl, refl), ((λ n ns e. subst (λ l. is_first_blog l ≡ true) e refl), (tt, tt))),
    ),
  ),
)

run_refines_registry_example :
    DoesAll no_unicode (λ k. none) calls (answers no_unicode fresh calls) (registry end.router)
run_refines_registry_example = run_refines_registry no_unicode is_session db calls calls_allowed

-- The answers.
answers_lem :
    answers no_unicode fresh calls
    ≡ onlined (ok false)
      ∷ finished (ok tt)
      ∷ finished (ok tt)
      ∷ finished (err (occupied blog))
      ∷ took_away (blog ∷ []) true
      ∷ silent
      ∷ []
unfolding program remove_listed sweep_all sweep delete_names exchange
answers_lem = refl
