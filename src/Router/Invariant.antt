-- ===== src/Router/Invariant.antt =====
-- What holds of the router between two calls.
use remotemoe.Prelude.{◌≡◌, some}
use remotemoe.Text.{Text}
use remotemoe.Dict.{lookup}
use remotemoe.Route.{Route, fqdn}
use remotemoe.Router.{Router, find}

-- The two tables hold the same routes.
abbrev pub IsSynced : Router → Type 0
IsSynced r = (k : Text) → lookup k r.a ≡ lookup k r.b

-- Each route stands under its own name.
abbrev pub IsKeyed : Router → Type 0
IsKeyed r = (k : Text) (t : Route) → find k r ≡ some t → fqdn t ≡ k
