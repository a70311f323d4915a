-- ===== src/Startup.antt =====
-- main.go, http/server.go and services/server.go: starting the program.
pub mod Laws
use remotemoe.Prelude.{ℕ, Bool, true, false, List, [], ◌∷◌, ◌++◌, Option, none, some, if◌then◌else◌}
use remotemoe.Text.{Text, bytes, text_eq}
use remotemoe.Files.{path_join}
use remotemoe.Disk.{Disk}
use remotemoe.Services.{http, https, ssh}
use remotemoe.Router.{Router}
use remotemoe.Router.Load.{Entry, LoadError, Loaded, up, failed, new_router}
use remotemoe.Commands.Access.{service_ports}

-- How os.Mkdir ends.
pub data Made : Type 0 where
  made already_exists not_made : Made

-- What the program meets: the environment variable, the file system (with the files of a directory,
-- and what a walk over it visits), whether the host keys can be managed, and whether it can listen on
-- a port.
pub record Machine : Type 0 where
  pub state_directory : Text
  pub mkdir : Text → Made
  pub disk_of : Text → Disk
  pub walk_of : Text → List Entry
  pub has_host_keys : Bool
  pub can_listen : ℕ → Bool

-- A directory of the program, "routerdata" or "acme-secrets".
unfoldable pub data_directory : Text → Text → Text
unfolding path_join
data_directory state name = if text_eq state [] then name else path_join state name

-- An existing directory is no error.
abbrev pub is_usable : Made → Bool
is_usable made = true
is_usable already_exists = true
is_usable not_made = false

-- acmeCache: the directory, if it can be used.
unfoldable pub acme_cache : Machine → Option Text
unfolding data_directory
acme_cache m =
    let dir = data_directory m.state_directory (bytes "acme-secrets") in
    if is_usable (m.mkdir dir) then some dir else none

-- Serve and ServeTLS: the ports of a service on which it accepts connections. A port on which it
-- cannot listen is only logged.
unfoldable pub serve_ports : (ℕ → Bool) → Text → List ℕ → List (Text × ℕ)
serve_ports can_listen t [] = []
serve_ports can_listen t (p ∷ ps) =
    let rest = serve_ports can_listen t ps in if can_listen p then (t, p) ∷ rest else rest

unfoldable pub serve : (ℕ → Bool) → Text → List (Text × ℕ)
unfolding serve_ports service_ports
serve can_listen t = serve_ports can_listen t (service_ports t)

-- How main ends (http and https are served for a moment before it fails for want of a configuration), or
-- that it serves for ever: with a router, the directory of the certificates, and the
-- ports of the services on which it accepts connections.
pub data Started : Type 0 where
  no_router_data no_acme_cache no_config : Started
  no_router : LoadError → Started
  serves : Router → Text → List (Text × ℕ) → Started

abbrev pub configured : Machine → Router → Text → Started
configured m r cache =
    if m.has_host_keys
    then serves r cache
        (serve m.can_listen http ++ serve m.can_listen https ++ serve m.can_listen ssh)
    else no_config

abbrev pub with_cache : Machine → Router → Option Text → Started
with_cache m r none = no_acme_cache
with_cache m r (some cache) = configured m r cache

abbrev pub with_router : Machine → Loaded → Started
with_router m (failed e) = no_router e
with_router m (up r) = with_cache m r (acme_cache m)

-- The directory of the routes.
abbrev pub router_data : Machine → Text
router_data m = data_directory m.state_directory (bytes "routerdata")

unfoldable pub main : Machine → Started
unfolding data_directory acme_cache serve new_router
main m =
    let started =
      with_router m
        (new_router (router_data m) (m.disk_of (router_data m)) (m.walk_of (router_data m))) in
    if is_usable (m.mkdir (router_data m)) then started else no_router_data
