-- ===== src/Commands/Access/Restarts.antt =====
-- ssh/command/access.go, http/proxy.go and routertwo/router.go together: the URLs of a name work again after
-- a restart of the program.
use remotemoe.Prelude.{
  ℕ, suc, ◌≡◌, sym, ◌∙◌, subst, Bool, true, false, List, ◌∷◌, some, In, inr, map,
}
use remotemoe.Text.{Text}
use remotemoe.Net.{join_host_port, contains}
use remotemoe.Net.RoundTrip.{IsPlain}
use remotemoe.Net.Decimal.{decimal}
use remotemoe.Proxy.{director}
use remotemoe.Proxy.Laws.{IsHostOf}
use remotemoe.Route.{Host, NamedRoute, host_route, name_route, fqdn}
use remotemoe.Router.{Router, find, names}
use remotemoe.Router.Load.{Entry, up, new_router}
use remotemoe.Router.Dial.{dial, reaches}
use remotemoe.Router.Ownership.{NotBy}
use remotemoe.Router.History.{Call, run, AllAllowed, empty_world}
use remotemoe.Router.History.Valid.{run-IsValid, In-names_iff}
use remotemoe.Router.History.Outlives.{restarted, names_outlive_restart}
use remotemoe.Router.History.Saved.{AllOblige, IsWalk}
use remotemoe.Router.History.Restarted.{IsOnceWalk}
use remotemoe.Session.{Session, has_port}
use remotemoe.Session.Dials.{session_dial, channel}
use remotemoe.Commands.Access.Laws.{In-map}
use remotemoe.Commands.Access.{access, service_ports}
use remotemoe.Commands.Access.Urls.{access_urls_open}
use remotemoe.Commands.Access.Reading.{IsWeb, read_url}

-- A name that was routed before a restart, after an allowed history from an empty router (on a file
-- system that obliges, names without slashes), has working URLs after it: when the program has come
-- up again, in a walk that visits each file once, and after every allowed history that follows, in
-- which the owner removes nothing and at whose end the owner has a session online, then for each
-- http or https port that this session forwards: `access` prints a line that reads as a URL, of
-- the service's scheme, to the name and that port, which is the default one if none is written; the
-- proxy gives a request for the authority of that URL, on a connection to that port, the scheme of
-- the URL; the dial that follows reaches the session; and this opens a channel for the port, if the
-- client does. The names of the session and of the URL hold no brackets, and that of the URL no colon
-- and no slash.
pub urls_outlive_restart :
    (unicode_lower : Text → Text) (is_key : Text → Bool) (c : ℕ) (d : Text) (cs cs' : List Call)
    (walk : List Entry) (u : Router) (k : Text) (n : NamedRoute) (hostname scheme ip : Text)
    (standard p fuel : ℕ) (s : Session) (h : Host)
    → AllAllowed unicode_lower is_key (empty_world (c ∷ d)) cs
    → AllOblige unicode_lower cs
    → IsWalk unicode_lower (c ∷ d) (run unicode_lower (empty_world (c ∷ d)) cs).router.disk walk
    → IsOnceWalk walk
    → new_router (c ∷ d) (run unicode_lower (empty_world (c ∷ d)) cs).router.disk walk ≡ up u
    → find k (run unicode_lower (empty_world (c ∷ d)) cs).router ≡ some (name_route n)
    → AllAllowed unicode_lower is_key (restarted walk u) cs'
    → NotBy n.owner cs'
    → find s.peer.fqdn (run unicode_lower (restarted walk u) cs').router ≡ some (host_route h)
    → h.routable ≡ some s.peer
    → s.peer.fqdn ≡ n.owner
    → IsPlain s.peer.fqdn
    → IsWeb scheme standard
    → In p (service_ports scheme)
    → has_port p s.services ≡ true
    → IsPlain k
    → contains b':' k ≡ false
    → contains b'/' k ≡ false
    → IsPlain ip
    → let end = (run unicode_lower (restarted walk u) cs').router in
      (line : Text) × (authority : Text) × In line (access hostname s end)
      × (read_url line ≡ some (record { scheme = scheme; authority = authority; port = p }))
      × IsHostOf k authority
      × ((director authority (join_host_port ip (decimal p))).scheme ≡ scheme)
      × (address : Text) × (dial
            (suc (suc fuel))
            end
            (director authority (join_host_port ip (decimal p))).host
          ≡ some (reaches s.peer address))
      × (session_dial (some true) s address ≡ channel p)
urls_outlive_restart unicode_lower is_key c d cs cs' walk u k n hostname scheme ip standard p fuel s
      h a o visits once e there a' others online here own plain web i f j colon slash b =
    let (up_valid, m, routed, owned) =
      names_outlive_restart unicode_lower is_key c d cs cs' walk u k n a o visits once e there a'
        others in
    let w = run unicode_lower (restarted walk u) cs' in
    let valid = run-IsValid unicode_lower is_key (restarted walk u) cs' up_valid a' in
    let named : m.name ≡ k = valid.indexed.keyed k m routed in
    let listed =
      (In-names_iff unicode_lower is_key w s.peer m valid).1
        (subst (λ x. find x w.router ≡ some (name_route m)) (sym named) routed, owned ∙ sym own) in
    access_urls_open unicode_lower is_key hostname scheme k ip standard p w fuel s h valid online
      here plain web i f
      (inr (
        subst (λ x. In x (map (λ (r : NamedRoute). fqdn (name_route r)) (names s.peer w.router)))
          named
          (In-map (λ (r : NamedRoute). fqdn (name_route r)) m (names s.peer w.router) listed)))
      j colon slash b
