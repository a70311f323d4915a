-- ===== src/Tests/Commands.antt =====
-- The ports that `session autossh` prints.
use remotemoe.Prelude.{◌≡◌, refl, [], ◌∷◌}
use remotemoe.Text.{bytes}
use remotemoe.Net.Decimal.{decimal}
use remotemoe.Commands.Ports.{service_keys, join_digits}

printed : join_digits (service_keys (443 ∷ 22 ∷ 80 ∷ [])) ≡ bytes "22, 80 and 443"
unfolding join_digits service_keys decimal
printed = refl
