-- ===== src/Tests/Files.antt =====
-- Files and restarts at a concrete directory.
use remotemoe.Prelude.{◌≡◌, ◌≢◌, refl, [], ◌∷◌, ◌++◌, inl, inr}
use remotemoe.Text.{bytes}
use remotemoe.Files.{dot_dot}
use remotemoe.Files.Laws.{IsOrdinary}
use remotemoe.Disk.{torn, file}
use remotemoe.Disk.Laws.{file_climbs}
use remotemoe.Router.Load.{opened, directory, up, load, load_torn}
use remotemoe.Tests.Data.{fresh}

data-IsOrdinary : IsOrdinary (bytes "data")
data-IsOrdinary = ((λ e. cc), (λ e. cc), (λ e. cc))

file_climbs_example : file (bytes "data") (dot_dot ++ b'/' ∷ bytes "x") ≡ bytes "x.json"
file_climbs_example =
    file_climbs b'd' (bytes "ata") (bytes "x") (refl, (refl, (refl, (refl, tt)))) data-IsOrdinary
      (refl, tt)

load_torn_example : load 0 (directory ∷ opened torn ∷ []) fresh.router ≢ up fresh.router
load_torn_example =
    load_torn 0 (directory ∷ opened torn ∷ []) fresh.router fresh.router (inr (inl refl))
