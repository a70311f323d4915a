-- ===== src/Tests/Reopened.antt =====
-- A URL after a restart, with concrete calls.
use remotemoe.Prelude.{◌≡◌, refl, true, List, [], ◌∷◌, some, In, inl, arith}
use remotemoe.Text.{Text, bytes, text_eq}
use remotemoe.Text.Lower.{to_lower}
use remotemoe.Net.{join_host_port}
use remotemoe.Net.Decimal.{decimal}
use remotemoe.Proxy.{director}
use remotemoe.Proxy.Laws.{IsHostOf}
use remotemoe.Commands.Access.Reading.{read_url}
use remotemoe.Route.{Host, host_route}
use remotemoe.Services.{http}
use remotemoe.Session.Dials.{session_dial, channel}
use remotemoe.Router.{find}
use remotemoe.Router.Load.{load, load_entry, new_router}
use remotemoe.Router.Dial.{dial, reaches}
use remotemoe.Router.Ownership.{NotBy}
use remotemoe.Router.History.{World, Call, onlines, removes, run, AllAllowed}
use remotemoe.Router.History.Outlives.{restarted}
use remotemoe.Route.{wake, allocated}
use remotemoe.Commands.Access.{access}
use remotemoe.Commands.Access.Restarts.{urls_outlive_restart}
use remotemoe.Tests.Routes.{program, history, history_allowed, blog, blog_route, blog_is_routed}
use remotemoe.Tests.Restarts.{walk, again, comes_up, once, obliges, walk-IsWalk}
use remotemoe.Tests.Accesses.{
  session, ip, ip-IsPlain, blog-IsPlain, blog_slash, alice-IsPlain, is_http_port,
}
use remotemoe.Tests.Data.{alice, bob, at, no_unicode, is_session}

-- Bob comes online and fails to remove Alice's name, and she comes online.
abbrev later : List Call
later = onlines (at 7) bob ∷ removes (at 8) blog bob ∷ onlines (at 9) alice ∷ []

abbrev end : World
end = run no_unicode (restarted walk again) later

abbrev alice_host : Host
alice_host = record { routable = some alice; name = alice.fqdn; last_seen = 9; created = 1 }

alice_is_there : find alice.fqdn end.router ≡ some (host_route alice_host)
unfolding program new_router load load_entry wake allocated
alice_is_there = refl

later_allowed : AllAllowed no_unicode is_session (restarted walk again) later
unfolding is_session to_lower text_eq
later_allowed = (refl, (tt, (refl, tt)))

later_by_others : NotBy alice.fqdn later
later_by_others = ((λ e. cc), ((λ e. absurd (ground (arith, e))), ((λ e. cc), tt)))

urls_outlive_restart_example :
    (text : Text) × (authority : Text) × In text (access (bytes "moe") session end.router)
    × (read_url text ≡ some (record { scheme = http; authority = authority; port = 8080 }))
    × IsHostOf blog authority
    × ((director authority (join_host_port ip (decimal 8080))).scheme ≡ http)
    × (address : Text) × (dial 2 end.router
          (director authority (join_host_port ip (decimal 8080))).host
        ≡ some (reaches alice address))
    × (session_dial (some true) session address ≡ channel 8080)
urls_outlive_restart_example =
    urls_outlive_restart no_unicode is_session b'/' (bytes "var/routerdata") history later walk
      again blog blog_route (bytes "moe") http ip 80 8080 0 session alice_host history_allowed
      obliges walk-IsWalk once comes_up blog_is_routed later_allowed later_by_others alice_is_there
      refl refl alice-IsPlain (inl (refl, refl)) is_http_port refl blog-IsPlain.0 blog-IsPlain.1
      blog_slash ip-IsPlain
