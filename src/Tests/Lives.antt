-- ===== src/Tests/Lives.antt =====
-- The life of a session at concrete inputs.
use remotemoe.Prelude.{
  ℕ, ◌%◌, zero, suc, ◌≡◌, refl, ◌↔◌, true, false, List, [], ◌∷◌, none, some, length, arith,
}
use remotemoe.Text.{Text, bytes}
use remotemoe.Text.Lower.{to_lower}
use remotemoe.Net.{contains}
use remotemoe.Net.RoundTrip.{IsPlain}
use remotemoe.Route.{Peer, Host, host_route}
use remotemoe.Router.{find, ok}
use remotemoe.Router.Calls.{online}
use remotemoe.Router.History.{World, IsValid}
use remotemoe.Session.{Session, new_session, running, session_fqdn}
use remotemoe.Session.Dials.{waits_for_ever}
use remotemoe.Session.Lifetime.{
  NewChannel, direct_tcpip, session_channel, unknown_channel, Met, ChannelEnd, forwarded,
  handle_channels, Life, end_handle,
}
use remotemoe.Session.Lifetime.Channels.{Keeps, any_connected, channels_served}
use remotemoe.Session.Lifetime.Waits.{open_waits}
use remotemoe.Session.Lifetime.Takeover.{takeover}
use remotemoe.Session.Fingerprint.{fingerprint_ish}
use remotemoe.Session.Fingerprint.Laws.{AreBytes, same_fqdn_iff}
use remotemoe.Session.Fingerprint.Shape.{fqdn_shape, are_letters_or_digits}
use remotemoe.Tests.Data.{alice, bob, at, no_unicode, is_session}
use remotemoe.Tests.Removals.{session-IsPlain}
use remotemoe.Tests.Routes.{program, after, blog, after-IsValid}

-- Alice's key opens a second session.
abbrev alice_again : Peer
alice_again = record { id = 3; fqdn = alice.fqdn }

abbrev alice_host : Host
alice_host = record { routable = some alice; name = alice.fqdn; last_seen = 1; created = 1 }

alice_is_there : find alice_again.fqdn after.router ≡ some (host_route alice_host)
unfolding program
alice_is_there = refl

abbrev old : Life
old = record { session = new_session alice; keep_alive_timer = running }

takeover_example :
    ((online (at 7) alice_again after.router).result ≡ ok true)
    × ((online (at 7) alice_again after.router).told ≡ some alice)
    × ((g : Host) × (find alice.fqdn (online (at 7) alice_again after.router).router
          ≡ some (host_route g))
        × (g.routable ≡ some alice_again))
    × ((k : Text)
        → find k (end_handle (at 8) old (online (at 7) alice_again after.router).router).1
          ≡ find k (online (at 7) alice_again after.router).router)
takeover_example =
    takeover no_unicode is_session after (at 7) (at 8) alice_again alice_host old after-IsValid
      alice_is_there refl refl (λ e. omega (arith, e)) refl

-- Every session provides port 80, and every channel opens.
abbrev meets : Met
meets = record {
  router = after.router;
  session_of = λ p. record (new_session p) { services = 80 ∷ [] };
  opens = some true;
  accepts = true;
}

abbrev asked : List (Met × NewChannel)
asked =
    (meets, session_channel)
    ∷ (meets, direct_tcpip (some (record { addr = blog; rport = 80 })))
    ∷ (meets, unknown_channel)
    ∷ (meets, direct_tcpip none)
    ∷ []

abbrev met_valid : (w : World) × IsValid no_unicode is_session w × (w.router ≡ after.router)
met_valid = (after, after-IsValid, refl)

channels_served_example :
    (t : Session) × (es : List ChannelEnd) × (handle_channels 2 asked (new_session bob)
      ≡ some (t, es))
    × (length es ≡ length asked)
    × Keeps (new_session bob) t (any_connected es)
channels_served_example =
    channels_served no_unicode is_session session-IsPlain asked 0 (new_session bob)
      (met_valid, (met_valid, (met_valid, (met_valid, tt))))
      ((true, refl), ((true, refl), ((true, refl), ((true, refl), tt))))

-- Alice's client does not answer, and Bob asks for a console next.
abbrev silent : Met
silent = record meets { opens = none }

open_waits_example :
    handle_channels 1
      ((silent, direct_tcpip (some (record { addr = alice.fqdn; rport = 80 })))
        ∷ (meets, session_channel)
        ∷ [])
      (new_session bob)
    ≡ some (new_session bob, forwarded waits_for_ever ∷ [])
unfolding program is_session contains
open_waits_example =
    open_waits silent ((meets, session_channel) ∷ []) 0 (new_session bob)
      (record { addr = alice.fqdn; rport = 80 }) alice_host alice refl
      (session-IsPlain alice.fqdn refl) refl (omega arith) alice_is_there refl refl

-- A hash that tells keys by their length.
abbrev pub zeros : ℕ → List ℕ
zeros zero = []
zeros (suc n) = 0 ∷ zeros n

abbrev pub sum : List ℕ → List ℕ
sum form = (length form % 256) ∷ zeros 31

pub sum-bytes : (form : List ℕ) → AreBytes (sum form) × (length (sum form) ≡ 32)
sum-bytes form = ((omega arith, zeros-AreBytes 31), refl)
  where
    zeros-AreBytes : (n : ℕ) → AreBytes (zeros n)
    zeros-AreBytes zero = tt
    zeros-AreBytes (suc n) = (omega arith, zeros-AreBytes n)

same_fqdn_iff_example :
    (session_fqdn (fingerprint_ish Text (λ k. k) sum (bytes "a")) (bytes "moe")
      ≡ session_fqdn (fingerprint_ish Text (λ k. k) sum (bytes "ab")) (bytes "moe"))
    ↔ (sum (bytes "a") ≡ sum (bytes "ab"))
same_fqdn_iff_example =
    same_fqdn_iff Text (λ k. k) sum (bytes "moe") (bytes "a") (bytes "ab") sum-bytes

abbrev moe : Text
moe = bytes "moe"

moe-IsPlain : IsPlain moe × (contains b':' moe ≡ false)
unfolding contains
moe-IsPlain = ((refl, refl), refl)

fqdn_shape_example :
    let ish = fingerprint_ish Text (λ k. k) sum moe in
    (length ish ≡ 52)
    × (are_letters_or_digits ish ≡ true)
    × (contains b'/' ish ≡ false)
    × (contains b'.' ish ≡ false)
    × (to_lower no_unicode ish ≡ ish)
    × IsPlain (session_fqdn ish moe)
    × (contains b':' (session_fqdn ish moe) ≡ false)
fqdn_shape_example =
    fqdn_shape Text (λ k. k) sum no_unicode moe moe refl moe-IsPlain.0 moe-IsPlain.1
