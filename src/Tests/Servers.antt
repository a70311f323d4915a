-- ===== src/Tests/Servers.antt =====
-- Certificates of a concrete router.
use remotemoe.Prelude.{◌≡◌, ◌≢◌, ◌↔◌, refl, [], none, some, inr}
use remotemoe.Text.{Text, bytes}
use remotemoe.Net.{join_host_port, contains}
use remotemoe.Net.Decimal.{decimal}
use remotemoe.Router.{exists}
use remotemoe.Router.Dial.{dial, unknown_host}
use remotemoe.Proxy.{Url}
use remotemoe.Proxy.Server.{HttpServer, with_local_addr, initialize, new_server}
use remotemoe.Proxy.Server.Policy.{certified_iff_known}
use remotemoe.Tests.Routes.{after, after-IsValid, blog}
use remotemoe.Tests.Accesses.{ip, ip-IsPlain, blog-IsPlain}
use remotemoe.Tests.Removals.{session-IsPlain}
use remotemoe.Tests.Data.{no_unicode, is_session}

abbrev cache : Text
cache = bytes "acme-secrets"

abbrev server : HttpServer
server = record {
  conn_context = with_local_addr;
  cache = cache;
  host_policy = λ k. exists k after.router;
}

-- A request to "blog.moe:443".
abbrev asked : Text
asked = join_host_port blog (bytes "443")

certified_iff_known_example :
    let proxy = initialize (λ a. dial 2 after.router a) in
    (url : Url) × (proxy.director (with_local_addr [] (join_host_port ip (decimal 443))) asked
      ≡ some url)
    × ((exists blog after.router ≡ none)
        ↔ (proxy.transport.dial_context url.host ≢ some (unknown_host blog)))
unfolding new_server contains
certified_iff_known_example =
    certified_iff_known no_unicode is_session after 0 cache blog asked ip 443 [] server
      after-IsValid session-IsPlain blog-IsPlain.0 blog-IsPlain.1
      (inr (bytes "443", (refl, refl), refl, refl)) ip-IsPlain refl
