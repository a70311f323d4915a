-- ===== src/Commands/Access/Urls.antt =====
-- ssh/command/access.go, http/proxy.go, routertwo and ssh/session.go: where a URL leads.
use remotemoe.Prelude.{
  ℕ, suc, ◌<◌, ◌≡◌, refl, sym, subst, ap, ◌∙◌, Bool, true, false, List, ◌++◌, some, In,
  In-append_left, In-append_right, inl, inr, ◌⊎◌, arith,
}
use remotemoe.Text.{Text, text_eq}
use remotemoe.Net.{contains, join_host_port}
use remotemoe.Net.RoundTrip.{IsPlain, split_host_port-join_host_port}
use remotemoe.Net.Decimal.{decimal, u32_mod, parse_uint32-decimal}
use remotemoe.Route.{Host, NamedRoute, host_route}
use remotemoe.Services.{http, https, service_of, ports}
use remotemoe.Session.{Session, has_port}
use remotemoe.Router.{Router, find, names}
use remotemoe.Router.Dial.{reaches, dial, dial_host}
use remotemoe.Router.DialLaws.{dial_join, dial-reaches_owner}
use remotemoe.Router.History.{World, IsValid}
use remotemoe.Router.History.Valid.{In-names_iff}
use remotemoe.Session.Dials.{channel, session_dial, decimal-IsPlain, decimal_colon}
use remotemoe.Proxy.{Url, scheme_of, director}
use remotemoe.Proxy.Laws.{IsHostOf, director_lem}
use remotemoe.Commands.Access.{
  url_line, service_ports, hosts_of, access, http_part, https_part, ssh_part, opening,
}
use remotemoe.Commands.Access.Reading.{IsWeb, read_url}
use remotemoe.Commands.Access.Reading.Laws.{authority_of, authority-IsHostOf, read_url-url_line}
use remotemoe.Commands.Access.Laws.{of_In-map, In-section_iff}

http_port : (p : ℕ) → In p (service_ports http) → (scheme_of (some p) ≡ http) × (p < u32_mod)
unfolding service_ports text_eq service_of ports
http_port p (inl e) = rw e (refl, omega arith)
http_port p (inr (inl e)) = rw e (refl, omega arith)
http_port p (inr (inr (inl e))) = rw e (refl, omega arith)
http_port p (inr (inr (inr (inl e)))) = rw e (refl, omega arith)
http_port p (inr (inr (inr (inr (inl e))))) = rw e (refl, omega arith)
http_port p (inr (inr (inr (inr (inr m))))) = absurd m

https_port : (p : ℕ) → In p (service_ports https) → (scheme_of (some p) ≡ https) × (p < u32_mod)
unfolding service_ports text_eq service_of ports
https_port p (inl e) = rw e (refl, omega arith)
https_port p (inr (inl e)) = rw e (refl, omega arith)
https_port p (inr (inr (inl e))) = rw e (refl, omega arith)
https_port p (inr (inr (inr (inl e)))) = rw e (refl, omega arith)
https_port p (inr (inr (inr (inr m)))) = absurd m

session_dial_join :
    (s : Session) (host : Text) (p : ℕ)
    → IsPlain host
    → p < u32_mod
    → has_port p s.services ≡ true
    → session_dial (some true) s (join_host_port host (decimal p)) ≡ channel p
unfolding session_dial
session_dial_join s host p h l f =
    rw
      (
        split_host_port-join_host_port host (decimal p) h (decimal-IsPlain p) (decimal_colon p),
        parse_uint32-decimal p l,
        f,
      )
      refl

web_port :
    (scheme : Text) (standard p : ℕ)
    → IsWeb scheme standard
    → In p (service_ports scheme)
    → (scheme_of (some p) ≡ scheme) × (p < u32_mod)
web_port scheme standard p (inl (e, q)) i =
    subst (λ s. In p (service_ports s) → (scheme_of (some p) ≡ s) × (p < u32_mod)) (sym e)
      (http_port p) i
web_port scheme standard p (inr (e, q)) i =
    subst (λ s. In p (service_ports s) → (scheme_of (some p) ≡ s) × (p < u32_mod)) (sym e)
      (https_port p) i

module _ (hostname : Text) (s : Session) (r : Router) where
  -- The parts of what `access` prints.
  abbrev first_part : List Text
  first_part = opening s.services

  abbrev second_part : List Text
  second_part = http_part (hosts_of s r) s.services

  abbrev third_part : List Text
  third_part = https_part (hosts_of s r) s.services

  abbrev fourth_part : List Text
  fourth_part = ssh_part hostname (hosts_of s r) s.services

  In-access :
      (t : Text)
      → In t second_part ⊎ In t third_part
      → In t (((first_part ++ second_part) ++ third_part) ++ fourth_part)
  In-access t (inl m) = In-append_left t ((first_part ++ second_part) ++ third_part) fourth_part (
      In-append_left t (first_part ++ second_part) third_part
        (In-append_right t first_part second_part m))
  In-access t (inr m) =
      In-append_left t ((first_part ++ second_part) ++ third_part) fourth_part
        (In-append_right t (first_part ++ second_part) third_part m)

  listed : (t : Text) → In t second_part ⊎ In t third_part → In t (access hostname s r)
  unfolding access
  listed t m = In-access t m

  url_listed :
      (scheme host : Text) (standard p : ℕ)
      → IsWeb scheme standard
      → In p (service_ports scheme)
      → has_port p s.services ≡ true
      → In host (hosts_of s r)
      → In (url_line scheme standard p host) (access hostname s r)
  url_listed scheme host standard p (inl (e, q)) i f j =
      rw (e, q)
        (listed _ (
          inl (
            (In-section_iff (λ p host. url_line http 80 p host) http _ _ (hosts_of s r) s.services
                _).1
              (inr (inl (p, host, subst (λ x. In p (service_ports x)) e i, f, j, refl))))))
  url_listed scheme host standard p (inr (e, q)) i f j =
      rw (e, q)
        (listed _ (
          inr (
            (In-section_iff (λ p host. url_line https 443 p host) https _ _ (hosts_of s r)
                s.services _).1
              (inr (inl (p, host, subst (λ x. In p (service_ports x)) e i, f, j, refl))))))

module _ (unicode_lower : Text → Text) (is_key : Text → Bool) where
  module _ (w : World) (v : IsValid unicode_lower is_key w) (fuel : ℕ) (s : Session) (h : Host)
      (online : find s.peer.fqdn w.router ≡ some (host_route h)) (here : h.routable ≡ some s.peer)
      (plain : IsPlain s.peer.fqdn) where
    dial-added_name :
        (n : NamedRoute) (p : ℕ)
        → IsPlain n.name
        → In n (names s.peer w.router)
        → dial (suc (suc fuel)) w.router (join_host_port n.name (decimal p))
          ≡ some (reaches s.peer (join_host_port s.peer.fqdn (decimal p)))
    dial-added_name n p c i =
        let (found, owned) = (In-names_iff unicode_lower is_key w s.peer n v).0 i in
        dial-reaches_owner fuel w.router n.name (decimal p) n h s.peer c
          (subst IsPlain (sym owned) plain) (decimal-IsPlain p) (decimal_colon p) found
          (v.names n.name n found).2
          (subst (λ o. find o w.router ≡ some (host_route h)) (sym owned) online) here
        ∙ ap (λ o. some (reaches s.peer (join_host_port o (decimal p)))) owned

    -- A dial of the name of the session, or of one of its user's names.
    pub dial-hosts_of :
        (host : Text) (p : ℕ)
        → IsPlain host
        → In host (hosts_of s w.router)
        → dial (suc (suc fuel)) w.router (join_host_port host (decimal p))
          ≡ some (reaches s.peer (join_host_port s.peer.fqdn (decimal p)))
    unfolding dial_host
    dial-hosts_of host p c (inl e) = rw (
      e,
      dial_join (suc fuel) w.router s.peer.fqdn (decimal p) plain (decimal-IsPlain p)
          (decimal_colon p),
      online,
      here,
    )
    dial-hosts_of host p c (inr m) =
        let (n, i, e) = of_In-map (λ (n : NamedRoute). n.name) host (names s.peer w.router) m in
        subst
          (λ a.
            dial (suc (suc fuel)) w.router (join_host_port a (decimal p))
            ≡ some (reaches s.peer (join_host_port s.peer.fqdn (decimal p))))
          (sym e) (dial-added_name n p (subst IsPlain e c) i)

  -- Every URL of `access` works. In a well-formed router in which the session is online, with a name
  -- without brackets: for each http or https port that the session forwards, and each of its names
  -- (without colon, slash or bracket), `access` prints a line that reads as a URL, of the service's
  -- scheme, to that name and port, the port that a browser takes by default if none is written. The
  -- proxy gives a request for the authority of that URL, on a connection to that port, the scheme of
  -- the URL; the dial that follows reaches the session; and this opens a channel for the port, if the
  -- client does.
  pub access_urls_open :
      (hostname scheme host ip : Text) (standard p : ℕ) (w : World) (fuel : ℕ) (s : Session)
      (h : Host)
      → IsValid unicode_lower is_key w
      → find s.peer.fqdn w.router ≡ some (host_route h)
      → h.routable ≡ some s.peer
      → IsPlain s.peer.fqdn
      → IsWeb scheme standard
      → In p (service_ports scheme)
      → has_port p s.services ≡ true
      → In host (hosts_of s w.router)
      → IsPlain host
      → contains b':' host ≡ false
      → contains b'/' host ≡ false
      → IsPlain ip
      → (line : Text) × (authority : Text) × In line (access hostname s w.router)
        × (read_url line ≡ some (record { scheme = scheme; authority = authority; port = p }))
        × IsHostOf host authority
        × ((director authority (join_host_port ip (decimal p))).scheme ≡ scheme)
        × (address : Text) × (dial
              (suc (suc fuel))
              w.router
              (director authority (join_host_port ip (decimal p))).host
            ≡ some (reaches s.peer address))
        × (session_dial (some true) s address ≡ channel p)
  access_urls_open hostname scheme host ip standard p w fuel s h v online here plain web i f j c d
        slash b =
      let asked = authority-IsHostOf standard p host d in
      let url = director_lem host (authority_of standard p host) ip p c d asked b in
      let (same, less) = web_port scheme standard p web i in
      (
        url_line scheme standard p host,
        authority_of standard p host,
        url_listed hostname s w.router scheme host standard p web i f j,
        read_url-url_line scheme host standard p web d slash less,
        asked,
        ap (λ (u : Url). u.scheme) url ∙ same,
        join_host_port s.peer.fqdn (decimal p),
        ap (λ (u : Url). dial (suc (suc fuel)) w.router u.host) url
            ∙ dial-hosts_of w v fuel s h online here plain host p c j,
        session_dial_join s s.peer.fqdn p plain less f,
      )
