-- ===== src/Commands/Access.antt =====
-- ssh/command/access.go: the command that tells a user how to reach the forwarded services.
pub mod Laws
pub mod Reading
pub mod Urls
pub mod Jumps
pub mod Restarts
use remotemoe.Prelude.{
  ℕ, ◌==◌, Bool, true, false, List, [], ◌∷◌, ◌++◌, Option, none, some, map, if◌then◌else◌,
}
use remotemoe.Text.{Text, bytes}
use remotemoe.Dict.{lookup}
use remotemoe.Net.Decimal.{decimal}
use remotemoe.Route.{NamedRoute, fqdn, name_route}
use remotemoe.Services.{services, http, https, ssh}
use remotemoe.Session.{Session, has_port}
use remotemoe.Router.{Router, names}
use remotemoe.Commands.Ports.{service_keys, join_digits}

-- `services.Services[s]`
unfoldable pub service_ports : Text → List ℕ
unfolding lookup
service_ports s = elim (lookup s services) [ none ↦ [] | some ps ↦ ps ]

-- A line for a port below http or https, whose default port is left out.
unfoldable pub url_line : Text → ℕ → ℕ → Text → Text
url_line scheme standard p host =
    scheme
    ++ bytes "://"
    ++ host
    ++ (if p == standard then [] else b':' ∷ decimal p)
    ++ b'/' ∷ b'\n' ∷ []

-- A line for a port below ssh; `hostname` is the name of the server.
unfoldable pub jump_line : Text → ℕ → Text → Text
jump_line hostname p host =
    if p == 22
    then bytes "ssh -J " ++ hostname ++ b' ' ∷ host ++ b'\n' ∷ []
    else bytes "ssh -p"
      ++ decimal p
      ++ bytes " -J "
      ++ hostname
      ++ b':' ∷ decimal p
      ++ b' ' ∷ host
      ++ b'\n' ∷ []

-- The loop over the ports of a service, with `help`.
module _ (line : ℕ → Text → Text) (hosts : List Text) (forwards : List ℕ) where
  unfoldable pub port_lines : List ℕ → Bool → List Text × Bool
  port_lines [] help = ([], help)
  port_lines (p ∷ ps) help = elim (has_port p forwards) [
    | false ↦ port_lines ps help
    | true ↦
        let (rest, after) = port_lines ps false in (map (λ host. line p host) hosts ++ rest, after)
  ]

-- What follows the loop.
abbrev pub or_help : Text → List Text × Bool → List Text
or_help hint (lines, help) = if help then lines ++ hint ∷ [] else lines

unfoldable pub heading : Text → Text → List Text
unfolding service_ports join_digits
heading service title =
    (b'\n' ∷ [])
    ∷ (title ++ bytes " (" ++ join_digits (service_ports service) ++ bytes ")")
    ∷ (b'\n' ∷ [])
    ∷ []

-- A service's part of what is printed.
unfoldable pub section : (ℕ → Text → Text) → Text → Text → Text → List Text → List ℕ → List Text
unfolding port_lines heading service_ports
section line service title hint hosts forwards =
    heading service title
    ++ or_help hint (port_lines line hosts forwards (service_ports service) true)

unfoldable pub opening : List ℕ → List Text
unfolding service_keys join_digits
opening [] =
    (bytes "You have zero forwarded ports, have a look in the ssh manual: man ssh." ++ b'\n' ∷ [])
    ∷ (bytes "You will be looking for the -R parameter." ++ b'\n' ∷ [])
    ∷ []
opening (p ∷ ps) =
    (bytes "Based on currently forwarded ports "
      ++ join_digits (service_keys (p ∷ ps))
      ++ bytes ", your services will be available at:"
      ++ b'\n' ∷ [])
    ∷ []

abbrev pub http_hint : Text
http_hint =
    bytes "No HTTP services found, add some by appending `-R80:localhost:80` when connecting."
    ++ b'\n' ∷ []

abbrev pub https_hint : Text
https_hint =
    bytes "No HTTPS services found, add some by appending `-R443:localhost:443` when connecting."
    ++ b'\n' ∷ []

abbrev pub ssh_hint : Text
ssh_hint =
    bytes "No SSH services found, add some by appending `-R22:localhost:22` when connecting."
    ++ b'\n' ∷ []

-- The name of the session, and the names that its user has added.
abbrev pub hosts_of : Session → Router → List Text
hosts_of s r = s.peer.fqdn ∷ map (λ (n : NamedRoute). fqdn (name_route n)) (names s.peer r)

-- The parts, of which each name of the session has a line for each port.
abbrev pub http_part : List Text → List ℕ → List Text
http_part = section (λ p host. url_line http 80 p host) http (bytes "HTTP") http_hint

abbrev pub https_part : List Text → List ℕ → List Text
https_part = section (λ p host. url_line https 443 p host) https (bytes "HTTPS") https_hint

abbrev pub ssh_part : Text → List Text → List ℕ → List Text
ssh_part hostname = section (λ p host. jump_line hostname p host) ssh (bytes "SSH") ssh_hint

-- The command `access` of a session, as the list of what it prints. Names never fails.
unfoldable pub access : Text → Session → Router → List Text
unfolding section opening names url_line jump_line
access hostname s r =
    let hosts = hosts_of s r in
    opening s.services
    ++ http_part hosts s.services
    ++ https_part hosts s.services
    ++ ssh_part hostname hosts s.services
