-- ===== src/Services.antt =====
-- services/services.go: the ports of each service, and the table that finds a port's service.
pub mod Laws
use remotemoe.Prelude.{ℕ, ◌==◌, List, [], ◌∷◌, Option, none, some, if◌then◌else◌}
use remotemoe.Text.{Text, bytes}

abbrev pub http : Text
http = bytes "http"

abbrev pub https : Text
https = bytes "https"

abbrev pub ssh : Text
ssh = bytes "ssh"

abbrev pub services : List (Text × List ℕ)
services =
    (http, 80 ∷ 81 ∷ 3000 ∷ 8000 ∷ 8080 ∷ [])
    ∷ (https, 443 ∷ 3443 ∷ 4443 ∷ 8443 ∷ [])
    ∷ (ssh, 22 ∷ 2022 ∷ 2222 ∷ [])
    ∷ []

-- A map with numbers as keys; the first entry of a key counts.
abbrev pub Ports : Type 0
Ports = List (ℕ × Text)

unfoldable pub service_of : ℕ → Ports → Option Text
service_of p [] = none
service_of p ((q, s) ∷ t) = let rest = service_of p t in if q == p then some s else rest

-- `Ports[p] = s` for the ports of one service.
unfoldable pub add_ports : Text → List ℕ → Ports → Ports
add_ports s [] t = t
add_ports s (p ∷ ps) t = add_ports s ps ((p, s) ∷ t)

-- The loop of init over the services, in the order in which Go happens to visit them.
unfoldable pub fill : List (Text × List ℕ) → Ports → Ports
unfolding add_ports
fill [] t = t
fill ((s, ps) ∷ order) t = fill order (add_ports s ps t)

-- The table as it is after init.
unfoldable pub ports : Ports
unfolding fill
ports = fill services []
