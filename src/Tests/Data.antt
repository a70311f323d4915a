-- ===== src/Tests/Data.antt =====
-- Two sessions of a server called "moe", and what their calls meet of the outside.
use remotemoe.Prelude.{ℕ, Bool, true, false, ◌||◌}
use remotemoe.Text.{Text, bytes, text_eq}
use remotemoe.Route.{Peer}
use remotemoe.Disk.{Env}
use remotemoe.Router.History.{World, empty_world}

abbrev pub alice : Peer
alice = record { id = 1; fqdn = bytes "aa.moe" }

abbrev pub bob : Peer
bob = record { id = 2; fqdn = bytes "bb.moe" }

-- The clock shows `now`, and every file operation succeeds.
abbrev pub at : ℕ → Env
at now = record {
  seen = now;
  created = now;
  can_create = true;
  can_encode = true;
  can_unlink = λ _. true;
}

-- No file can be removed.
abbrev pub stuck : Env
stuck = record (at 9) { can_unlink = λ _. false }

-- The texts of the tests are ASCII.
abbrev pub no_unicode : Text → Text
no_unicode s = s

unfoldable pub is_session : Text → Bool
unfolding text_eq
is_session k = text_eq k alice.fqdn || text_eq k bob.fqdn

abbrev pub db : Text
db = bytes "/var/routerdata"

abbrev pub fresh : World
fresh = empty_world db
