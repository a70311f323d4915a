-- ===== src/Tests/Routes.antt =====
-- The router's theorems at concrete histories.
use remotemoe.Prelude.{◌≡◌, refl, ◌↔◌, false, List, [], ◌∷◌, some, true, arith}
use remotemoe.Text.{Text, bytes, text_eq}
use remotemoe.Text.Lower.{to_lower}
use remotemoe.Dict.{lookup, insert, delete}
use remotemoe.Route.{Peer, NamedRoute, name_route, new_name, exported, replaced}
use remotemoe.Disk.{store, unlink, file}
use remotemoe.Files.{path_join, clean, split_slash, resolve, resolve_all, join_slash, is_rooted}
use remotemoe.Router.{find, names, ok, err}
use remotemoe.Router.Calls.{online, offline, add_name, remove_name}
use remotemoe.Router.Sweep.{remove_names}
use remotemoe.Router.History.{
  World, Call, onlines, offlines, removes_all, adds, removes, step, run, IsValid, AllAllowed,
}
use remotemoe.Router.Invariant.{IsSynced}
use remotemoe.Router.Effects.{stores}
use remotemoe.Router.Answers.{store_failure, HasSession, online_answer}
use remotemoe.Router.History.Valid.{run_empty-IsValid}
use remotemoe.Router.Ownership.{NotBy, run-keeps_name}
use remotemoe.Tests.Data.{alice, bob, at, no_unicode, is_session, db, fresh}

abbrev pub blog : Text
blog = bytes "blog.moe"

-- Alice comes online and adds a name, Bob tries to take it.
abbrev pub history : List Call
history =
    onlines (at 1) alice
    ∷ adds (at 2) (bytes "Blog.moe") alice
    ∷ onlines (at 3) bob
    ∷ adds (at 4) blog bob
    ∷ removes (at 5) blog bob
    ∷ offlines (at 6) bob
    ∷ []

abbrev pub after : World
after = run no_unicode fresh history

abbrev pub blog_route : NamedRoute
blog_route = record { ref = 0; name = blog; owner = alice.fqdn; wired = true }

pub history_allowed : AllAllowed no_unicode is_session fresh history
unfolding to_lower is_session
history_allowed = (refl, ((refl, refl), (refl, ((refl, refl), (tt, (tt, tt))))))

unfoldable pub program : Unit {0}
unfolding run step online offline add_name remove_name remove_names find names lookup insert delete
    store unlink file path_join clean split_slash resolve resolve_all join_slash is_rooted new_name
    to_lower exported text_eq replaced
program = tt

pub blog_is_routed : find blog after.router ≡ some (name_route blog_route)
unfolding program
blog_is_routed = refl

run_empty-IsValid_example : IsValid no_unicode is_session after
run_empty-IsValid_example = run_empty-IsValid no_unicode is_session db history history_allowed

pub after-IsValid : IsValid no_unicode is_session after
after-IsValid = run_empty-IsValid no_unicode is_session db history history_allowed

pub after-IsSynced : IsSynced after.router
after-IsSynced = after-IsValid.synced

-- What Bob tries on a name that is Alice's.
abbrev attack : List Call
attack = onlines (at 7) bob ∷ removes (at 8) blog bob ∷ removes_all (at 9) bob ∷ []

attack_allowed : AllAllowed no_unicode is_session after attack
unfolding program is_session
attack_allowed = (refl, (tt, ((λ n ns e. cc), tt)))

attack_by_others : NotBy alice.fqdn attack
attack_by_others =
    ((λ e. cc), ((λ e. absurd (ground (arith, e))), ((λ e. absurd (ground (arith, e))), tt)))

run-keeps_name_example :
    find blog (run no_unicode after attack).router ≡ some (name_route blog_route)
run-keeps_name_example =
    run-keeps_name no_unicode is_session after attack blog blog_route after-IsValid attack_allowed
      attack_by_others blog_is_routed

abbrev wiki : NamedRoute
wiki = new_name no_unicode 9 (bytes "wiki.moe") alice

online_answer_example :
    ((q : Peer)
      → ((online (at 7) alice after.router).told ≡ some q)
        ↔ HasSession (find alice.fqdn after.router) q)
    × (((online (at 7) alice after.router).result ≡ ok true)
        ↔ ((stores (at 7) ≡ true) × (q : Peer) × HasSession (find alice.fqdn after.router) q))
    × (((online (at 7) alice after.router).result ≡ ok false)
        ↔ ((stores (at 7) ≡ true) × ((q : Peer) → ¬ HasSession (find alice.fqdn after.router) q)))
    × (((online (at 7) alice after.router).result ≡ err (store_failure (at 7)))
        ↔ (stores (at 7) ≡ false))
online_answer_example = online_answer (at 7) alice after.router after-IsSynced
