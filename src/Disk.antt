-- ===== src/Disk.antt =====
-- The router's directory and Router.store and Router.unlink of routertwo/router.go: the files, and
-- what a call meets of the clock and the file system.
pub mod Laws
use remotemoe.Prelude.{ℕ, Bool, true, false, ◌++◌, Option, none, some, if◌then◌else◌}
use remotemoe.Text.{Text, bytes}
use remotemoe.Dict.{Dict, insert, delete}
use remotemoe.Files.{path_join}
use remotemoe.Route.{Intermediate, exported}

-- What one call of the router gets from outside: the clock as it is read for LastSeen and for
-- Created, whether os.Create and the JSON encoder succeed, and for each name whether os.Remove
-- removes its file or finds none (true) or fails otherwise (false).
pub record Env : Type 0 where
  pub seen : ℕ
  pub created : ℕ
  pub can_create : Bool
  pub can_encode : Bool
  pub can_unlink : Text → Bool

-- A file holds a value, or what os.Create and a failed encoder leave of it.
pub data Content : Type 0 where
  json : Intermediate → Content
  torn : Content

abbrev pub Disk : Type 0
Disk = Dict Content

pub data StoreError : Type 0 where
  unable_to_create unable_to_encode : StoreError

-- The file of the route `n`.
unfoldable pub file : Text → Text → Text
file db_path n = path_join db_path (n ++ bytes ".json")

-- The fields of the router that store reads and the disk that it writes.
unfoldable pub store : Env → Text → Text → Intermediate → Disk → Disk × Option StoreError
store env db_path n i disk =
    if env.can_create
    then (if env.can_encode
        then (insert (file db_path n) (json (exported i)) disk, none)
        else (insert (file db_path n) torn disk, some unable_to_encode))
    else (disk, some unable_to_create)

-- true: no error. A missing file is none.
unfoldable pub unlink : Env → Text → Text → Disk → Disk × Bool
unlink env db_path n disk =
    if env.can_unlink n then (delete (file db_path n) disk, true) else (disk, false)
