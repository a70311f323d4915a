-- ===== src/Tests/Systems.antt =====
-- Sessions that come and go, with concrete ones.
use remotemoe.Prelude.{ℕ, ◌≡◌, refl, true, false, some, none, ◌⊎◌}
use remotemoe.Text.{Text, bytes, text_eq}
use remotemoe.Net.{split_host_port, contains, cut_first, cut_last, split_plain}
use remotemoe.Route.{Host, host_route}
use remotemoe.Router.{Router, find}
use remotemoe.Router.Dial.{dial, dial_host, reaches}
use remotemoe.Router.History.{IsValid}
use remotemoe.Session.{Session, running, new_session, disable_timeout}
use remotemoe.Session.Lifetime.{Life, end_handle}
use remotemoe.Session.Requests.{
  Handler, tcpip_forward, register, inform_forward, send, handle_request, reply,
}
use remotemoe.Services.{service_of, ports}
use remotemoe.System.{
  Member, System, new_system, put, reached, handler, connects, asks, ends, Runs, at_once, step_more,
}
use remotemoe.System.Steps.{dial_reaches_live}
use remotemoe.System.Late.{late_request_revives}
use remotemoe.Tests.Routes.{program}
use remotemoe.Tests.Shells.{build, set, execute}
use remotemoe.Tests.Data.{alice, bob, at, no_unicode, is_session, db, fresh}

-- Alice and Bob come, she forwards port 80, he goes, and then a request of his is served.
abbrev one : System
one = record (new_system db) {
  members = put alice.id (record { session = new_session alice; ended = none }) (λ i. none);
}

abbrev two : System
two = record one {
  members = put bob.id (record { session = new_session bob; ended = none }) one.members;
}

abbrev asked : Text → ℕ → Session → Router → Handler
asked hostname at_time s r =
    reached (
      handle_request (λ t. t) (λ t. t) hostname (at at_time) (tcpip_forward (some 80))
        (handler s r))

abbrev asking : ℕ → Member → System → System
asking at_time m y = record {
  world = record y.world { router = (asked (bytes "moe") at_time m.session y.world.router).router };
  members =
      put m.session.peer.id
        (record m { session = (asked (bytes "moe") at_time m.session y.world.router).session })
        y.members;
}

abbrev served : System
served = asking 1 (record { session = new_session alice; ended = none }) two

abbrev life : Life
life = record { session = new_session bob; keep_alive_timer = running }

abbrev bob_over : Member
bob_over = record {
  session = (end_handle (at 2) life served.world.router).0.session;
  ended = some false;
}

abbrev left : System
left = record {
  world = record served.world { router = (end_handle (at 2) life served.world.router).1 };
  members = put bob.id bob_over served.members;
}

abbrev late : System
late = asking 3 bob_over left

runs :
    Runs no_unicode is_session
      (λ t. t)
      (λ t. t)
      (bytes "moe")
      build
      set
      execute
      (new_system db)
      late
unfolding is_session text_eq end_handle disable_timeout
runs =
    step_more left
      (step_more served
        (step_more two
          (step_more one (step_more (new_system db) (at_once refl) (connects alice refl refl))
            (connects bob refl refl))
          (asks (record { session = new_session alice; ended = none }) (at 1)
            (tcpip_forward (some 80)) refl))
        (ends life (at 2) refl))
      (asks bob_over (at 3) (tcpip_forward (some 80)) refl)

dialled : dial 2 late.world.router (bytes "bb.moe:80") ≡ some (reaches bob (bytes "bb.moe:80"))
unfolding program dial dial_host handle_request register inform_forward send end_handle
    disable_timeout split_host_port contains cut_first cut_last service_of ports reply split_plain
dialled = refl

dial_reaches_live_example :
    IsValid no_unicode is_session late.world
    × (m : Member) × (late.members bob.id ≡ some m)
    × (m.session.peer ≡ bob)
    × (m.session.registered ≡ true)
    × ((m.ended ≡ none) ⊎ (m.ended ≡ some false))
    × (h : Host) × (find bob.fqdn late.world.router ≡ some (host_route h))
    × (h.routable ≡ some bob)
dial_reaches_live_example =
    dial_reaches_live no_unicode is_session (λ t. t) (λ t. t) (bytes "moe") build set execute db
      late 2 (bytes "bb.moe:80") (bytes "bb.moe:80") bob runs dialled

-- Bob's session ends, and then his tcpip-forward is served.
late_request_revives_example :
    (h : Host) × (find bob.fqdn
        (reached (
          handle_request
            (λ t. t)
            (λ t. t)
            (bytes "moe")
            (at 3)
            (tcpip_forward (some 80))
            (handler
              (end_handle (at 2) life fresh.router).0.session
              (end_handle (at 2) life fresh.router).1))).router
      ≡ some (host_route h))
    × (h.routable ≡ some bob)
late_request_revives_example =
    late_request_revives (λ t. t) (λ t. t) (bytes "moe") (at 2) (at 3) life fresh.router 80
      (λ k. refl) refl refl
