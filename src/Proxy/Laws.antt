-- ===== src/Proxy/Laws.antt =====
-- http/proxy.go: the proxy keeps the host of a request and goes to the port that the request came
-- in on.
use remotemoe.Prelude.{ℕ, suc, ◌≡◌, refl, ap, ◌∙◌, ◌≢◌, false, [], ◌∷◌, some, arith, ◌⊎◌, inl, inr}
use remotemoe.Text.{Text}
use remotemoe.Net.{addr_error, split_host_port, join_host_port, contains, missing_port}
use remotemoe.Net.RoundTrip.{IsPlain, split_host_port-join_host_port, cut_last-absent}
use remotemoe.Net.Decimal.{
  decimal, parse_from, decimal_value, decimal-ne-nil, is_digit, contains-decimal,
}
use remotemoe.Router.{Router, find}
use remotemoe.Router.Dial.{dial, dial_route}
use remotemoe.Router.DialLaws.{dial_join}
use remotemoe.Session.Dials.{decimal-IsPlain, decimal_colon}
use remotemoe.Proxy.{Url, host_or, atoi, scheme_of, director}

split_bare :
    (host : Text) → contains b':' host ≡ false → split_host_port host ≡ addr_error missing_port
unfolding split_host_port
split_bare host c = ground (arith, cut_last-absent b':' host c)

atoi_first :
    (s : Text)
    → contains b'+' s ≡ false
    → (n : ℕ) → parse_from 0 s ≡ some n
    → s ≢ []
    → atoi s ≡ some n
unfolding atoi contains
atoi_first [] c n e h = absurd (h refl)
atoi_first (x ∷ s) c n e h = ground (arith, c, e)

atoi-decimal : (q : ℕ) → atoi (decimal q) ≡ some q
unfolding is_digit
atoi-decimal q =
    atoi_first (decimal q) (contains-decimal b'+' q refl) q (decimal_value q) (decimal-ne-nil q)

-- The forms of a request's host: the name alone, or with a port.
abbrev pub IsHostOf : Text → Text → Type 0
IsHostOf host s =
    (s ≡ host)
    ⊎ ((port : Text) × IsPlain port × (contains b':' port ≡ false) × (s ≡ join_host_port host port))

host_of :
    (host s : Text)
    → IsPlain host
    → contains b':' host ≡ false
    → IsHostOf host s
    → host_or s (split_host_port s) ≡ host
host_of host s h c (inl e) = rw (e, split_bare host c)
host_of host s h c (inr (port, p, d, e)) = rw (e, split_host_port-join_host_port host port h p d)

-- For a host without colon or bracket, and a local address whose IP holds no bracket, the director
-- keeps the host of a request, with or without a port, and sends the request to the port on which
-- its connection came in, with the scheme that belongs to that port.
pub director_lem :
    (host request_host ip : Text) (q : ℕ)
    → IsPlain host
    → contains b':' host ≡ false
    → IsHostOf host request_host
    → IsPlain ip
    → director request_host (join_host_port ip (decimal q))
      ≡ record { host = join_host_port host (decimal q); scheme = scheme_of (some q) }
unfolding director join_host_port
director_lem host request_host ip q h c w i = rw (
  host_of host request_host h c w,
  split_host_port-join_host_port ip (decimal q) i (decimal-IsPlain q) (decimal_colon q),
  atoi-decimal q,
  c,
)

-- For a host without colon or bracket, and a local address whose IP holds no bracket, the dial of
-- the URL that the director makes follows the route of the host that the request names, with or
-- without a port.
pub dial-director :
    (fuel : ℕ) (r : Router) (host request_host ip : Text) (q : ℕ)
    → IsPlain host
    → contains b':' host ≡ false
    → IsHostOf host request_host
    → IsPlain ip
    → dial (suc fuel) r (director request_host (join_host_port ip (decimal q))).host
      ≡ dial_route (λ a. dial fuel r a) host (join_host_port host (decimal q)) (find host r)
dial-director fuel r host request_host ip q h c w i =
    ap (λ (u : Url). dial (suc fuel) r u.host) (director_lem host request_host ip q h c w i)
    ∙ dial_join fuel r host (decimal q) h (decimal-IsPlain q) (decimal_colon q)
