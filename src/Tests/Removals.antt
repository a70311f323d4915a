-- ===== src/Tests/Removals.antt =====
-- RemoveNames, the router's faults and dials, at a concrete router.
use remotemoe.Prelude.{ℕ, ◌≡◌, ◌≢◌, refl, [], ◌∷◌, none, some, true, false, arith}
use remotemoe.Text.{Text, bytes, text_eq_iff}
use remotemoe.Text.Lower.{to_lower}
use remotemoe.Dict.{lookup}
use remotemoe.Net.{contains, join_host_port}
use remotemoe.Net.RoundTrip.{IsPlain}
use remotemoe.Route.{Host, host_route}
use remotemoe.Router.{find, fs_error}
use remotemoe.Router.Calls.{online, online_host}
use remotemoe.Router.Sweep.{remove_names}
use remotemoe.Router.Invariant.{IsSynced}
use remotemoe.Router.IndexLaws.{names_of}
use remotemoe.Router.Emptied.{AllGo}
use remotemoe.Router.Faults.{remove_names_stuck, squatter_removes_host, own_name_loops}
use remotemoe.Router.Dial.{Dialed, dial}
use remotemoe.Router.DialLaws.{dial_total}
use remotemoe.Router.History.{World, onlines, removes_all, adds, step, run}
use remotemoe.Router.{names}
use remotemoe.Prelude.{map}
use remotemoe.Route.{NamedRoute}
use remotemoe.Commands.{remove_all_hosts, list_hosts, is_removed, no_hostnames}
use remotemoe.Commands.RemoveAll.{remove_all_hosts_lem}
use remotemoe.Tests.Data.{alice, bob, at, stuck, no_unicode, is_session, fresh}
use remotemoe.Tests.Routes.{program, after, blog_route, after-IsValid, after-IsSynced}

alice_has_blog : lookup alice.fqdn after.router.name_index ≡ some (blog_route ∷ [])
unfolding program
alice_has_blog = refl

all_go : AllGo (at 7) (names_of alice.fqdn after.router.name_index)
unfolding program
all_go = (refl, tt)

bob_is_no_blog : bob.fqdn ≢ blog_route.name
bob_is_no_blog e = ground (arith, e)

remove_names_stuck_example :
    ((remove_names stuck alice after.router).1
      ≡ some (record { list = blog_route ∷ []; error = some fs_error }))
    × (find blog_route.name (remove_names stuck alice after.router).0
        ≡ find blog_route.name after.router)
    × (find blog_route.name (online (at 9) bob (remove_names stuck alice after.router).0).router
        ≡ none)
remove_names_stuck_example =
    remove_names_stuck stuck (at 9) alice bob after.router blog_route [] after-IsSynced
      alice_has_blog refl refl bob_is_no_blog

fresh-IsSynced : IsSynced fresh.router
fresh-IsSynced k = refl

bob_is_lower : to_lower no_unicode bob.fqdn ≡ bob.fqdn
unfolding to_lower
bob_is_lower = refl

no_bob : find bob.fqdn fresh.router ≡ none
unfolding program
no_bob = refl

no_names : names_of alice.fqdn fresh.router.name_index ≡ []
unfolding program
no_names = refl

abbrev usurped : World
usurped = run no_unicode fresh (adds (at 1) bob.fqdn alice ∷ onlines (at 1) bob ∷ [])

squatter_removes_host_example :
    (find bob.fqdn usurped.router ≡ some (host_route (online_host (at 1) bob none)))
    × (find bob.fqdn (step no_unicode usurped (removes_all (at 1) alice)).router ≡ none)
squatter_removes_host_example =
    squatter_removes_host no_unicode fresh (at 1) alice bob fresh-IsSynced bob_is_lower no_bob
      no_names refl refl

abbrev web : Text
web = bytes "80"

web-IsPlain : IsPlain web
unfolding contains
web-IsPlain = (refl, refl)

web_has_no_colon : contains b':' web ≡ false
unfolding contains
web_has_no_colon = refl

bob-IsPlain : IsPlain bob.fqdn
unfolding contains
bob-IsPlain = (refl, refl)

own_name_loops_example :
    dial 1000
      (step no_unicode fresh (adds (at 1) bob.fqdn bob)).router
      (join_host_port bob.fqdn web)
    ≡ none
own_name_loops_example =
    own_name_loops no_unicode fresh (at 1) bob web fresh-IsSynced bob_is_lower no_bob refl
      bob-IsPlain web-IsPlain web_has_no_colon 1000

contains-session :
    (b : ℕ) (k : Text)
    → is_session k ≡ true
    → contains b alice.fqdn ≡ false
    → contains b bob.fqdn ≡ false
    → contains b k ≡ false
unfolding is_session
contains-session b k e x y = ground (arith, text_eq_iff k alice.fqdn, text_eq_iff k bob.fqdn)

pub session-IsPlain : (k : Text) → is_session k ≡ true → IsPlain k
unfolding contains
session-IsPlain k e = (contains-session b'[' k e refl refl, contains-session b']' k e refl refl)

dial_total_example : (d : Dialed) × (dial 2 after.router (bytes "blog.moe:80") ≡ some d)
dial_total_example =
    dial_total no_unicode is_session after 0 (bytes "blog.moe:80") after-IsValid session-IsPlain

abbrev alice_host : Host
alice_host = record { routable = some alice; name = alice.fqdn; last_seen = 1; created = 1 }

remove_all_hosts_lem_example :
    ((remove_all_hosts (at 7) alice after).1
      ≡ some (map (λ (n : NamedRoute). is_removed n.name) (names alice after.router), none))
    × (list_hosts alice (remove_all_hosts (at 7) alice after).0.router ≡ no_hostnames ∷ [])
remove_all_hosts_lem_example =
    remove_all_hosts_lem no_unicode is_session after (at 7) alice after-IsValid all_go
