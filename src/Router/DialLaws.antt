-- ===== src/Router/DialLaws.antt =====
-- routertwo: where the DialContext methods lead, and when they do not return.
use remotemoe.Prelude.{ℕ, zero, suc, ◌≡◌, refl, Bool, true, false, Option, none, some, arith}
use remotemoe.Text.{Text}
use remotemoe.Net.{Split, split, addr_error, contains, split_host_port, join_host_port}
use remotemoe.Net.RoundTrip.{IsPlain, split_host_port-join_host_port}
use remotemoe.Net.Shape.{split_host_port-IsPlain}
use remotemoe.Route.{Peer, Host, NamedRoute, Route, host_route, name_route}
use remotemoe.Router.{Router, find}
use remotemoe.Router.Dial.{
  Dialed, reaches, dial, dial_host, dial_name, dial_split, dial_route, unknown_host, bad_address,
}
use remotemoe.Router.History.{World, IsValid}

-- What a dial finds under a host name, given the port behind it.
pub dial_join :
    (fuel : ℕ) (r : Router) (host port : Text)
    → IsPlain host
    → IsPlain port
    → contains b':' port ≡ false
    → dial (suc fuel) r (join_host_port host port)
      ≡ dial_route (λ a. dial fuel r a) host (join_host_port host port) (find host r)
unfolding dial
dial_join fuel r host port h p c = rw (split_host_port-join_host_port host port h p c)

pub redial_join :
    (fuel : ℕ) (r : Router) (n : NamedRoute) (host port : Text)
    → IsPlain host
    → IsPlain port
    → contains b':' port ≡ false
    → n.wired ≡ true
    → dial_name (λ a. dial fuel r a) n (join_host_port host port)
      ≡ dial fuel r (join_host_port n.owner port)
unfolding dial_name
redial_join fuel r n host port h p c w = rw (split_host_port-join_host_port host port h p c, w)

-- A dial of a routed name whose owner is a host with a session reaches that session, with the
-- owner's name and the port that was asked for, if the names and the port hold no brackets and the
-- port no colon.
pub dial-reaches_owner :
    (fuel : ℕ) (r : Router) (host port : Text) (n : NamedRoute) (h : Host) (p : Peer)
    → IsPlain host
    → IsPlain n.owner
    → IsPlain port
    → contains b':' port ≡ false
    → find host r ≡ some (name_route n)
    → n.wired ≡ true
    → find n.owner r ≡ some (host_route h)
    → h.routable ≡ some p
    → dial (suc (suc fuel)) r (join_host_port host port)
      ≡ some (reaches p (join_host_port n.owner port))
unfolding dial_host
dial-reaches_owner fuel r host port n h p plain plain_o plain_p c e w o q = ground (
  arith,
  dial_join (suc fuel) r host port plain plain_p c,
  redial_join (suc fuel) r n host port plain plain_p c w,
  dial_join fuel r n.owner port plain_o plain_p c,
)

-- The bug: a name that is its own owner makes the methods call one another for ever, whatever
-- the depth of the stack.
pub dial_own_name :
    (fuel : ℕ) (r : Router) (n : NamedRoute) (port : Text)
    → IsPlain n.owner
    → IsPlain port
    → contains b':' port ≡ false
    → find n.owner r ≡ some (name_route n)
    → n.wired ≡ true
    → dial fuel r (join_host_port n.owner port) ≡ none
unfolding dial
dial_own_name zero r n port h p c e w = refl
dial_own_name (suc fuel) r n port h p c e w = ground (
  arith,
  dial_join fuel r n.owner port h p c,
  redial_join fuel r n n.owner port h p c w,
  dial_own_name fuel r n port h p c e w,
)

module _ (unicode_lower : Text → Text) (is_key : Text → Bool) where
  module _ (w : World) (fuel : ℕ) (v : IsValid unicode_lower is_key w)
      (plain : (k : Text) → is_key k ≡ true → IsPlain k) where
    dial_key :
        (k port : Text)
        → is_key k ≡ true
        → IsPlain port
        → contains b':' port ≡ false
        → (d : Dialed) × (dial (suc fuel) w.router (join_host_port k port) ≡ some d)
    dial_key k port key p c = rw (dial_join fuel w.router k port (plain k key) p c) (part _ refl)
      where
        part :
            (o : Option Route)
            → find k w.router ≡ o
            → (d : Dialed) × (dial_route (λ a. dial fuel w.router a) k (join_host_port k port) o
                ≡ some d)
        part none e = (unknown_host k, refl)
        part (some (host_route h)) e = (dial_host h (join_host_port k port), refl)
        part (some (name_route n)) e = absurd (ground (arith, v.names k n e))

    dial_found :
        (host port address : Text) (o : Option Route)
        → find host w.router ≡ o
        → split_host_port address ≡ split host port
        → (d : Dialed) × (dial_route (λ a. dial (suc fuel) w.router a) host address o ≡ some d)
    unfolding dial_name
    dial_found host port address none e s = (unknown_host host, refl)
    dial_found host port address (some (host_route h)) e s = (dial_host h address, refl)
    dial_found host port address (some (name_route n)) e s =
        let (p, c) = split_host_port-IsPlain address host port s in
        rw (s, (v.names host n e).2) (dial_key n.owner port (v.names host n e).1 p c)

  -- In a well-formed router, if the names of sessions hold no brackets, every dial returns: two
  -- levels of calls are enough for every address.
  pub dial_total :
      (w : World) (fuel : ℕ) (address : Text)
      → IsValid unicode_lower is_key w
      → ((k : Text) → is_key k ≡ true → IsPlain k)
      → (d : Dialed) × (dial (suc (suc fuel)) w.router address ≡ some d)
  unfolding dial
  dial_total w fuel address v plain = part (split_host_port address) refl
    where
      part :
          (s : Split)
          → split_host_port address ≡ s
          → (d : Dialed) × (dial_split (λ a. dial (suc fuel) w.router a) w.router address s
              ≡ some d)
      part (addr_error e) q = (bad_address e, refl)
      part (split host port) q = dial_found w fuel v plain host port address _ refl q
