-- ===== src/Tests/Accesses.antt =====
-- What a session is told about its ports, at concrete inputs.
use remotemoe.Prelude.{
  ℕ, ◌≡◌, ◌≢◌, refl, inl, inr, true, false, List, [], ◌∷◌, some, In, map, arith,
}
use remotemoe.Text.{Text, bytes, text_eq}
use remotemoe.Dict.{lookup}
use remotemoe.Net.{contains, join_host_port}
use remotemoe.Net.RoundTrip.{IsPlain}
use remotemoe.Net.Decimal.{decimal}
use remotemoe.Route.{Host, host_route}
use remotemoe.Services.{http, ssh}
use remotemoe.Router.{find}
use remotemoe.Router.Dial.{dial, reaches}
use remotemoe.Session.{Session, new_session, running, has_port}
use remotemoe.Session.Dials.{channel, session_dial, connected, accept_forward_request}
use remotemoe.Session.Requests.{Handler, tcpip_forward, goes, handle_requests}
use remotemoe.Proxy.{director}
use remotemoe.Proxy.Laws.{IsHostOf}
use remotemoe.Commands.Access.Reading.{read_url, read_jump}
use remotemoe.Commands.Access.Reading.Laws.{IsWord}
use remotemoe.Commands.Access.{url_line, service_ports, hosts_of, access}
use remotemoe.Commands.Access.Urls.{access_urls_open}
use remotemoe.Commands.Access.Jumps.{access_jumps_open}
use remotemoe.Commands.Snippets.{autossh, unitfile}
use remotemoe.Commands.Snippets.Arguments.{asked_ports}
use remotemoe.Commands.Snippets.Laws.{snippets_restore}
use remotemoe.Tests.Data.{alice, bob, at, no_unicode, is_session, fresh}
use remotemoe.Tests.Routes.{program, after, blog, after-IsValid}

abbrev pub session : Session
session = record (new_session alice) { services = 22 ∷ 8080 ∷ [] }

abbrev line : ℕ → Text → Text
line p host = url_line http 80 p host

abbrev hosts : List Text
hosts = alice.fqdn ∷ blog ∷ []

abbrev alice_host : Host
alice_host = record { routable = some alice; name = alice.fqdn; last_seen = 1; created = 1 }

alice_is_there : find alice.fqdn after.router ≡ some (host_route alice_host)
unfolding program
alice_is_there = refl

pub alice-IsPlain : IsPlain alice.fqdn
unfolding contains
alice-IsPlain = (refl, refl)

pub blog-IsPlain : IsPlain blog × (contains b':' blog ≡ false)
unfolding contains
blog-IsPlain = ((refl, refl), refl)

abbrev pub ip : Text
ip = bytes "::1"

pub ip-IsPlain : IsPlain ip
unfolding contains
ip-IsPlain = (refl, refl)

pub is_http_port : In 8080 (service_ports http)
unfolding service_ports lookup text_eq
is_http_port = inr (inr (inr (inr (inl refl))))

blog_is_hers : In blog (hosts_of session after.router)
unfolding program
blog_is_hers = inr (inl refl)

pub blog_slash : contains b'/' blog ≡ false
unfolding contains
blog_slash = refl

access_urls_open_example :
    (text : Text) × (authority : Text) × In text (access (bytes "moe") session after.router)
    × (read_url text ≡ some (record { scheme = http; authority = authority; port = 8080 }))
    × IsHostOf blog authority
    × ((director authority (join_host_port ip (decimal 8080))).scheme ≡ http)
    × (address : Text) × (dial 2 after.router
          (director authority (join_host_port ip (decimal 8080))).host
        ≡ some (reaches alice address))
    × (session_dial (some true) session address ≡ channel 8080)
access_urls_open_example =
    access_urls_open no_unicode is_session (bytes "moe") http blog ip 80 8080 after 0 session
      alice_host after-IsValid alice_is_there refl alice-IsPlain (inl (refl, refl)) is_http_port
      refl blog_is_hers blog-IsPlain.0 blog-IsPlain.1 blog_slash ip-IsPlain

is_ssh_port : In 22 (service_ports ssh)
unfolding service_ports lookup text_eq
is_ssh_port = inl refl

blog-IsWord : IsWord blog
unfolding contains
blog-IsWord = (refl, refl, refl)

moe-IsWord : IsWord (bytes "moe")
unfolding contains
moe-IsWord = (refl, refl, refl)

access_jumps_open_example :
    (text : Text) × In text (access (bytes "moe") session after.router)
    × (read_jump text
        ≡ some (record { server = bytes "moe"; server_port = 22; host = blog; port = 22 }))
    × (t : Session) × (accept_forward_request
          (λ p. session)
          (some true)
          true
          2
          after.router
          (some (record { addr = blog; rport = 22 }))
          (new_session bob)
        ≡ some (t, connected alice 22))
    × (t.idle_timeout ≢ running)
    × (t.idle_disabled ≡ true)
access_jumps_open_example =
    access_jumps_open no_unicode is_session (λ p. session) (bytes "moe") blog 22 after 0 session
      (new_session bob) alice_host after-IsValid alice_is_there refl alice-IsPlain refl is_ssh_port
      refl blog_is_hers blog-IsPlain.0 blog-IsWord moe-IsWord

abbrev moe : Text
moe = bytes "moe"

no_colon : contains b':' moe ≡ false
unfolding contains
no_colon = refl

abbrev handler : Handler
handler = record { session = new_session alice; router = fresh.router; replies = [] }

snippets_restore_example :
    (asked_ports (autossh moe session) ≡ session.services)
    × (asked_ports (unitfile moe session) ≡ session.services)
    × (g : Handler) × (handle_requests no_unicode no_unicode moe
          (at 7)
          (map (λ p. tcpip_forward (some p)) (asked_ports (autossh moe session)))
          handler
        ≡ goes g)
    × ((p : ℕ) → has_port p g.session.services ≡ has_port p session.services)
snippets_restore_example =
    snippets_restore no_unicode no_unicode moe (at 7) session handler no_colon
      (omega arith, (omega arith, tt)) refl (omega arith)
