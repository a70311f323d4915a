-- ===== src/Proxy/Server/Policy.antt =====
-- http/server.go, http/proxy.go and routertwo/router.go together: certificates are for the hosts that lead
-- somewhere.
use remotemoe.Prelude.{
  ℕ, suc, ◌≡◌, ◌≢◌, ◌↔◌, refl, sym, ap, ◌∙◌, Bool, true, false, Option, none, some, arith,
}
use remotemoe.Text.{Text, bytes}
use remotemoe.Dict.{lookup, lookup-insert_self}
use remotemoe.Net.{contains, join_host_port}
use remotemoe.Net.RoundTrip.{IsPlain}
use remotemoe.Net.Decimal.{decimal}
use remotemoe.Session.Dials.{decimal-IsPlain, decimal_colon}
use remotemoe.Route.{Host, NamedRoute, Route, host_route, name_route}
use remotemoe.Router.{Router, find, exists}
use remotemoe.Router.Dial.{dial, dial_route, dial_host, dial_name, unknown_host}
use remotemoe.Router.DialLaws.{dial_join, redial_join}
use remotemoe.Router.History.{World, IsValid}
use remotemoe.Proxy.{Url, director}
use remotemoe.Proxy.Laws.{IsHostOf, dial-director}
use remotemoe.Proxy.Server.{Context, with_local_addr, initialize, directed, HttpServer, new_server}

exists-none_iff : (r : Router) (k : Text) → (exists k r ≡ none) ↔ (find k r ≢ none)
unfolding exists find
exists-none_iff r k = ground arith

dial_host-known : (h : Host) (address k : Text) → some (dial_host h address) ≢ some (unknown_host k)
unfolding dial_host
dial_host-known h address k e = ground arith

unknown_inj : (a b : Text) → some (unknown_host a) ≡ some (unknown_host b) → a ≡ b
unknown_inj a b e = cc

some_inj : (a b : HttpServer) → some a ≡ some b → a ≡ b
some_inj a b e = cc

module _ (unicode_lower : Text → Text) (is_key : Text → Bool) (w : World)
    (v : IsValid unicode_lower is_key w) (plain : (k : Text) → is_key k ≡ true → IsPlain k)
    (fuel : ℕ) (host port : Text) (plain_host : IsPlain host) (p : IsPlain port)
    (c : contains b':' port ≡ false) where
  -- A dial of the owner of a name knows of no host but the owner.
  owner-known :
      (n : NamedRoute)
      → is_key n.owner ≡ true
      → is_key host ≡ false
      → (o : Option Route) → find n.owner w.router ≡ o
      → dial_route (λ a. dial fuel w.router a) n.owner (join_host_port n.owner port) o
        ≢ some (unknown_host host)
  owner-known n key other none f e =
      absurd (ground (arith, ap is_key (unknown_inj n.owner host e), key, other))
  owner-known n key other (some (host_route h)) f e = dial_host-known h _ host e
  owner-known n key other (some (name_route m)) f e =
      absurd (ground (arith, (v.names n.owner m f).0, key))

  route-known :
      (address : Text)
      → address ≡ join_host_port host port
      → (o : Option Route) → find host w.router ≡ o
      → (o ≢ none)
        ↔ (dial_route (λ a. dial (suc fuel) w.router a) host address o ≢ some (unknown_host host))
  route-known address same none f = ((λ h. absurd (h refl)), λ h. absurd (h refl))
  route-known address same (some (host_route h)) f =
      ((λ q e. dial_host-known h address host e), λ q e. cc)
  route-known address same (some (name_route n)) f = (
    (λ q e. owner-known n (v.names host n f).1 (v.names host n f).0 (find n.owner w.router) refl (
        sym (
          ap (λ a. dial_name (λ b. dial (suc fuel) w.router b) n a) same
          ∙ redial_join (suc fuel) w.router n host port plain_host p c (v.names host n f).2
          ∙ dial_join fuel w.router n.owner port (plain n.owner (v.names host n f).1) p c)
        ∙ e)),
    λ q e. cc,
  )

-- For a server with the policy of the router, and a proxy that dials through it, in a well-formed
-- router in which the names of sessions hold no brackets: a certificate is allowed for a host
-- without colon or bracket exactly if a request to this host, with or without a port, does not end
-- at the error that the host is unknown; and on a connection of the server, whose local address has
-- an IP without brackets, the director sends the request somewhere.
pub certified_iff_known :
    (unicode_lower : Text → Text) (is_key : Text → Bool) (w : World) (fuel : ℕ)
    (cache host request_host ip : Text) (q : ℕ) (ctx : Context) (server : HttpServer)
    → IsValid unicode_lower is_key w
    → ((k : Text) → is_key k ≡ true → IsPlain k)
    → IsPlain host
    → contains b':' host ≡ false
    → IsHostOf host request_host
    → IsPlain ip
    → new_server (λ k. exists k w.router) (some cache) ≡ some server
    → let proxy = initialize (λ a. dial (suc (suc fuel)) w.router a) in
      (url : Url) × (proxy.director
          (server.conn_context ctx (join_host_port ip (decimal q)))
          request_host
        ≡ some url)
      × ((server.host_policy host ≡ none)
          ↔ (proxy.transport.dial_context url.host ≢ some (unknown_host host)))
unfolding new_server initialize with_local_addr
certified_iff_known unicode_lower is_key w fuel cache host request_host ip q ctx server v plain
      plain_host colon asked plain_ip made =
    let url = director request_host (join_host_port ip (decimal q)) in
    let known =
      route-known unicode_lower is_key w v plain fuel host (decimal q) plain_host
        (decimal-IsPlain q) (decimal_colon q) (join_host_port host (decimal q)) refl
        (find host w.router) refl in
    let dialled =
      dial-director (suc fuel) w.router host request_host ip q plain_host colon asked plain_ip in
    let is_server = some_inj _ server made in
    let policy : exists host w.router ≡ server.host_policy host =
      ap (λ (x : HttpServer). x.host_policy host) is_server in
    (
      url,
      ap
            (λ (x : HttpServer).
              directed request_host
                (lookup (bytes "localaddr") (x.conn_context ctx (join_host_port ip (decimal q)))))
            (sym is_server)
          ∙ ap (λ a. directed request_host a)
              (lookup-insert_self (bytes "localaddr") (join_host_port ip (decimal q)) ctx),
      (
        λ e d. known.0 ((exists-none_iff w.router host).0 (policy ∙ e)) (sym dialled ∙ d),
        λ h. sym policy ∙ (exists-none_iff w.router host).1 (known.1 (λ d. h (dialled ∙ d))),
      ),
    )
