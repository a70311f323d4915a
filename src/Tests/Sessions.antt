-- ===== src/Tests/Sessions.antt =====
-- Sessions, commands and the proxy at concrete inputs.
use remotemoe.Prelude.{
  ℕ, zero, suc, ◌≡◌, refl, List, [], ◌∷◌, ◌++◌, none, some, true, false, In, inl, inr, map, arith,
  if◌then◌else◌,
}
use remotemoe.Text.{Text, bytes}
use remotemoe.Text.Lower.{to_lower}
use remotemoe.Net.{contains}
use remotemoe.Net.RoundTrip.{IsPlain}
use remotemoe.Route.{Peer, Host, host_route}
use remotemoe.Disk.{Env}
use remotemoe.Router.{find}
use remotemoe.Router.Answers.{belongs}
use remotemoe.Router.History.{AllAllowed}
use remotemoe.Session.{Session, new_session, has_port}
use remotemoe.Session.Requests.{
  Request, keepalive, tcpip_forward, unknown_request, Handler, goes, blocks, handle_requests,
}
use remotemoe.Session.Requests.Replies.{answer, asks_port, handle_requests-goes}
use remotemoe.Session.Requests.Blocking.{handle_requests-blocks}
use remotemoe.Session.Dials.{DirectTcpip}
use remotemoe.Commands.{add_hosts, remove_hosts, is_active, is_removed}
use remotemoe.Commands.Laws.{remove_hosts-gone, adding, add_hosts-active}
use remotemoe.Tests.Data.{alice, bob, at, no_unicode, is_session, fresh}
use remotemoe.Tests.Routes.{program, after, blog, after-IsValid, after-IsSynced}

abbrev session : Session
session = new_session alice

abbrev handler : Handler
handler = record { session = session; router = fresh.router; replies = [] }

abbrev requests : List Request
requests =
    keepalive
    ∷ tcpip_forward (some 80)
    ∷ tcpip_forward none
    ∷ unknown_request
    ∷ tcpip_forward (some 22)
    ∷ []

abbrev moe : Text
moe = bytes "moe"

handle_requests-goes_example :
    (g : Handler) × (handle_requests no_unicode no_unicode moe (at 1) requests handler ≡ goes g)
    × (g.replies ≡ [] ++ map answer requests)
    × ((p : ℕ)
        → has_port p g.session.services
          ≡ (if asks_port p requests then true else has_port p handler.session.services))
handle_requests-goes_example =
    handle_requests-goes no_unicode no_unicode moe (at 1) requests handler (omega arith)

abbrev copies : ℕ → List Text
copies zero = []
copies (suc n) = moe ∷ copies n

abbrev waiting : Handler
waiting = record handler { session = record session { registered = true; msgs = copies 50 } }

handle_requests-blocks_example :
    (g : Handler) × (handle_requests no_unicode no_unicode moe
        (at 1)
        (tcpip_forward (some 80) ∷ keepalive ∷ [])
        waiting
      ≡ blocks g)
    × (g.replies ≡ [])
handle_requests-blocks_example =
    handle_requests-blocks no_unicode no_unicode moe (at 1) 80 (keepalive ∷ []) waiting refl
      (omega arith)

-- Every session provides the ports 80 and 22.
abbrev provider : Peer → Session
provider p = record (new_session p) { services = 80 ∷ 22 ∷ [] }

abbrev to_blog : DirectTcpip
to_blog = record { addr = blog; rport = 80 }

alice-IsPlain : IsPlain alice.fqdn
unfolding contains
alice-IsPlain = (refl, refl)

blog-IsPlain : IsPlain blog
unfolding contains
blog-IsPlain = (refl, refl)

no_colons : (contains b':' alice.fqdn ≡ false) × (contains b':' blog ≡ false)
unfolding contains
no_colons = (refl, refl)

abbrev alice_host : Host
alice_host = record { routable = some alice; name = alice.fqdn; last_seen = 1; created = 1 }

alice_is_there : find alice.fqdn after.router ≡ some (host_route alice_host)
unfolding program
alice_is_there = refl

-- Alice removes her name and one that she does not have.
abbrev removals : List (Env × Text)
removals = (at 7, blog) ∷ (at 8, bytes "wiki.moe") ∷ (at 9, blog) ∷ []

blog_is_printed : In (is_removed blog) (remove_hosts alice removals after).lines
unfolding program remove_hosts
blog_is_printed = inl refl

remove_hosts-gone_example : find blog (remove_hosts alice removals after).world.router ≡ none
remove_hosts-gone_example =
    remove_hosts-gone no_unicode alice removals after blog after-IsSynced blog_is_printed

-- Bob adds Alice's name and a new one.
abbrev additions : List (Env × Text)
additions = (at 7, blog) ∷ (at 8, bytes "Wiki.moe") ∷ []

additions_allowed : AllAllowed no_unicode is_session after (adding bob additions)
unfolding to_lower is_session
additions_allowed = ((refl, refl), ((refl, refl), tt))

wiki_is_printed : In (is_active (bytes "wiki.moe")) (add_hosts no_unicode bob additions after).1
unfolding program add_hosts
wiki_is_printed = inr (inl refl)

add_hosts-active_example :
    belongs bob.fqdn (find (bytes "wiki.moe") (add_hosts no_unicode bob additions after).0.router)
    ≡ true
add_hosts-active_example =
    add_hosts-active no_unicode bob is_session additions after (bytes "wiki.moe") after-IsValid
      additions_allowed wiki_is_printed
