-- ===== src/Tests/Restarts.antt =====
-- A restart after a history.
use remotemoe.Prelude.{◌≡◌, refl, List, [], ◌∷◌, some, In, inl, inr, ◌⊎◌, arith}
use mathlib.Core.Option
use remotemoe.Text.{Text, bytes}
use remotemoe.Text.Lower.{to_lower}
use remotemoe.Dict.{lookup}
use remotemoe.Files.Laws.{IsSlashFree}
use remotemoe.Disk.{Disk, Content, file}
use remotemoe.Router.{Router, find}
use remotemoe.Router.Invariant.{IsSynced}
use remotemoe.Route.{NamedRoute, name_route, wake, allocated, exported}
use remotemoe.Router.Load.{
  Entry, directory, opened, Loaded, up, failed, load_entry, load, new_router,
}
use remotemoe.Router.Ownership.{NotBy}
use remotemoe.Router.History.{Call, onlines, adds, removes, run, IsValid, AllAllowed}
use remotemoe.Router.History.Restarted.{IsOnceWalk}
use remotemoe.Router.History.Outlives.{restarted, names_outlive_restart}
use remotemoe.Router.Restart.{lasting}
use remotemoe.Router.History.Saved.{AllOblige, IsWalk, run-restarts}
use remotemoe.Tests.Data.{alice, bob, at, no_unicode, is_session, db}
use remotemoe.Tests.Routes.{
  program, history, history_allowed, after, blog, blog_route, blog_is_routed,
}

abbrev files : Disk → List Entry
files [] = []
files ((f, x) ∷ disk) = opened x ∷ files disk

lookup-files :
    (f : Text) (x : Content) (disk : Disk) → lookup f disk ≡ some x → In (opened x) (files disk)
unfolding lookup
lookup-files f x [] e = cc
lookup-files f x ((g, y) ∷ disk) e = ground (arith, e, lookup-files f x disk)

abbrev pub walk : List Entry
walk = directory ∷ files after.router.disk

pub obliges : AllOblige no_unicode history
unfolding to_lower
obliges = (
  (refl, (refl, (refl, (refl, (refl, (refl, (refl, tt))))))),
  (
    (refl, (refl, (refl, (refl, (refl, (refl, (refl, (refl, (refl, tt))))))))),
    (
      (refl, (refl, (refl, (refl, (refl, (refl, (refl, tt))))))),
      (
        (refl, (refl, (refl, (refl, (refl, (refl, (refl, (refl, (refl, tt))))))))),
        ((λ k. refl), (refl, tt)),
      ),
    ),
  ),
)

visited :
    (e : Entry)
    → In e walk
    → (e ≡ directory)
      ⊎ ((k : Text) × (x : Content) × IsSlashFree k
          × (lookup (file db k) after.router.disk ≡ some x)
          × (e ≡ opened x))
unfolding program
visited e (inl d) = inl d
visited e (inr (inl q)) =
    inr (alice.fqdn, _, (refl, (refl, (refl, (refl, (refl, (refl, tt)))))), refl, q)
visited e (inr (inr (inl q))) =
    inr (blog, _, (refl, (refl, (refl, (refl, (refl, (refl, (refl, (refl, tt)))))))), refl, q)
visited e (inr (inr (inr (inl q)))) =
    inr (bob.fqdn, _, (refl, (refl, (refl, (refl, (refl, (refl, tt)))))), refl, q)
visited e (inr (inr (inr (inr i)))) = elim i [ ]

pub walk-IsWalk : IsWalk no_unicode db after.router.disk walk
walk-IsWalk = record {
  sound = visited;
  complete = λ k x h e. inr (lookup-files (file db k) x after.router.disk e);
}

run-restarts_example :
    (u : Router) × (new_router db after.router.disk walk ≡ up u)
    × IsSynced u
    × ((k : Text) → Option.map lasting (find k u) ≡ Option.map lasting (find k after.router))
run-restarts_example =
    run-restarts no_unicode is_session b'/' (bytes "var/routerdata") history walk history_allowed
      obliges walk-IsWalk

-- The router that comes up again, and what Bob does there to Alice's name.
abbrev pub up_or : Loaded → Router
up_or (up r) = r
up_or (failed e) = after.router

abbrev pub again : Router
again = up_or (new_router db after.router.disk walk)

pub comes_up : new_router db after.router.disk walk ≡ up again
unfolding program new_router load load_entry wake allocated
comes_up = refl

abbrev attack : List Call
attack = onlines (at 7) bob ∷ removes (at 8) blog bob ∷ adds (at 9) blog bob ∷ []

attack_allowed : AllAllowed no_unicode is_session (restarted walk again) attack
unfolding is_session to_lower
attack_allowed = (refl, (tt, ((refl, refl), tt)))

attack_by_others : NotBy alice.fqdn attack
attack_by_others = ((λ e. cc), ((λ e. absurd (ground (arith, e))), ((λ e. cc), tt)))

pub once : IsOnceWalk walk
unfolding program exported
once = (
  (λ t q. cc),
  (
    (λ t q i. elim i [
      | inl e ↦ cc
      | inr (inl e) ↦ absurd (ground (arith, e))
      | inr (inr none_left) ↦ none_left
    ]),
    ((λ t q i. elim i [ inl e ↦ cc | inr none_left ↦ none_left ]), ((λ t q i. i), tt)),
  ),
)

names_outlive_restart_example :
    IsValid no_unicode is_session (restarted walk again)
    × (m : NamedRoute) × (find blog (run no_unicode (restarted walk again) attack).router
        ≡ some (name_route m))
    × (m.owner ≡ alice.fqdn)
names_outlive_restart_example =
    names_outlive_restart no_unicode is_session b'/' (bytes "var/routerdata") history attack walk
      again blog blog_route history_allowed obliges walk-IsWalk once comes_up blog_is_routed
      attack_allowed attack_by_others
