-- ===== src/Commands/Snippets/Arguments.antt =====
-- ssh/command/autossh.go and unitfile.go: the arguments in a snippet, as ssh reads them.
use remotemoe.Prelude.{
  ℕ, suc, ◌<◌, ◌≡◌, refl, ap, ◌∙◌, ◌==◌, false, List, [], ◌∷◌, ◌++◌, Option, none, some, map, arith,
  if◌then◌else◌, length, ◌>>=◌,
}
use mathlib.Core.List.{append-nil}
use remotemoe.Text.{Text, bytes}
use remotemoe.Net.{contains, cut_first}
use remotemoe.Net.RoundTrip.{cut_first-append}
use remotemoe.Net.Decimal.{decimal, parse_uint32, u32_mod, parse_uint32-decimal}
use remotemoe.Session.{has_port}
use remotemoe.Session.Dials.{decimal_colon}
use remotemoe.Session.Requests.{tcpip_forward}
use remotemoe.Session.Requests.Replies.{asks_port, forwards}
use remotemoe.Commands.Snippets.{forward_argument}

-- The rest of a text behind a prefix.
unfoldable pub strip_prefix : Text → Text → Option Text
strip_prefix [] s = some s
strip_prefix (c ∷ t) [] = none
strip_prefix (c ∷ t) (d ∷ s) = let rest = strip_prefix t s in if c == d then rest else none

-- The port of an argument `-R port:host:hostport`, as ssh reads it.
abbrev first_of : Text × Text → Text
first_of (s, t) = s

abbrev port_before : Option Text → Option ℕ
port_before none = none
port_before (some s) = cut_first b':' s >>= (λ p. parse_uint32 (first_of p))

unfoldable pub argument_port : Text → Option ℕ
unfolding strip_prefix
argument_port s = port_before (strip_prefix (bytes "  -R ") s)

abbrev pub prepend : Option ℕ → List ℕ → List ℕ
prepend none ps = ps
prepend (some p) ps = p ∷ ps

-- The ports for which the arguments ask.
abbrev pub asked_ports : List Text → List ℕ
asked_ports [] = []
asked_ports (s ∷ ss) = prepend (argument_port s) (asked_ports ss)

cut_first-absent : (b : ℕ) (s : Text) → contains b s ≡ false → cut_first b s ≡ none
unfolding cut_first contains
cut_first-absent b [] e = refl
cut_first-absent b (c ∷ s) e = ground (arith, e, cut_first-absent b s)

forward_argument-port : (p : ℕ) → p < u32_mod → argument_port (forward_argument p) ≡ some p
unfolding argument_port
forward_argument-port p l =
    rw
      (
        cut_first-append b':' (decimal p) (bytes "localhost:" ++ decimal p ++ bytes " \\\n")
            (decimal_colon p),
        parse_uint32-decimal p l,
      )
      refl

strip_prefix-contains :
    (b : ℕ) (t s : Text)
    → contains b s ≡ false
    → (u : Text) → strip_prefix t s ≡ some u
    → contains b u ≡ false
unfolding strip_prefix contains
strip_prefix-contains b [] s e u q = ground (arith, e, q)
strip_prefix-contains b (c ∷ t) [] e u q = cc
strip_prefix-contains b (c ∷ t) (d ∷ s) e u q =
    strip_prefix-contains b t s (ground (arith, e)) u (ground (arith, q))

pub argument_port-absent : (s : Text) → contains b':' s ≡ false → argument_port s ≡ none
unfolding argument_port
argument_port-absent s e = part (strip_prefix (bytes "  -R ") s) refl
  where
    part : (o : Option Text) → strip_prefix (bytes "  -R ") s ≡ o → port_before o ≡ none
    part none q = refl
    part (some u) q =
        rw (cut_first-absent b':' u (strip_prefix-contains b':' (bytes "  -R ") s e u q)) refl

prepend-append : (o : Option ℕ) (ps qs : List ℕ) → prepend o (ps ++ qs) ≡ prepend o ps ++ qs
prepend-append none ps qs = refl
prepend-append (some p) ps qs = refl

asked_ports-append : (ss ts : List Text) → asked_ports (ss ++ ts) ≡ asked_ports ss ++ asked_ports ts
asked_ports-append [] ts = refl
asked_ports-append (s ∷ ss) ts =
    ap (λ ps. prepend (argument_port s) ps) (asked_ports-append ss ts)
    ∙ prepend-append (argument_port s) (asked_ports ss) (asked_ports ts)

abbrev pub AreU32 : List ℕ → Type 0
AreU32 [] = Unit {0}
AreU32 (p ∷ ps) = (p < u32_mod) × AreU32 ps

asked_ports-arguments : (ps : List ℕ) → AreU32 ps → asked_ports (map forward_argument ps) ≡ ps
asked_ports-arguments [] v = refl
asked_ports-arguments (p ∷ ps) (l, v) =
    ap (λ o. prepend o (asked_ports (map forward_argument ps))) (forward_argument-port p l)
    ∙ ap (λ qs. p ∷ qs) (asked_ports-arguments ps v)

asked_ports-none :
    (s : Text) (ss : List Text) → argument_port s ≡ none → asked_ports (s ∷ ss) ≡ asked_ports ss
asked_ports-none s ss e = ap (λ o. prepend o (asked_ports ss)) e

-- A snippet asks for the ports of its arguments, if nothing else in it is one.
pub asked_snippet :
    (before after : List Text) (ps : List ℕ) (line : Text)
    → AreU32 ps
    → asked_ports before ≡ []
    → argument_port line ≡ none
    → asked_ports after ≡ []
    → asked_ports (before ++ map forward_argument ps ++ line ∷ after) ≡ ps
asked_snippet before after ps line v b l a =
    rw
      (
        asked_ports-append (before ++ map forward_argument ps) (line ∷ after),
        asked_ports-append before (map forward_argument ps),
        b,
        asked_ports-arguments ps v,
        asked_ports-none line after l,
        a,
      )
      (append-nil ps)

pub asks_port-asked :
    (p : ℕ) (ps : List ℕ) → asks_port p (map (λ q. tcpip_forward (some q)) ps) ≡ has_port p ps
asks_port-asked p [] = refl
asks_port-asked p (q ∷ ps) = rw (asks_port-asked p ps) refl

pub forwards-asked : (ps : List ℕ) → forwards (map (λ q. tcpip_forward (some q)) ps) ≡ length ps
forwards-asked [] = refl
forwards-asked (p ∷ ps) = ap suc (forwards-asked ps)
