-- ===== src/Tests/Startups.antt =====
-- Starting the program on a concrete machine.
use remotemoe.Prelude.{ℕ, ◌≡◌, ◌↔◌, true, [], In, ltb}
use remotemoe.Text.{Text, bytes}
use remotemoe.Commands.Access.{service_ports}
use remotemoe.Startup.{Machine, made, serves, main}
use remotemoe.Startup.Laws.{IsService, CanServe, accepted, main_serves_iff}
use remotemoe.Tests.Data.{fresh}

-- A machine on which an ordinary user starts the program, for the first time.
abbrev machine : Machine
machine = record {
  state_directory = bytes "/var";
  mkdir = λ dir. made;
  disk_of = λ dir. [];
  walk_of = λ dir. [];
  has_host_keys = true;
  can_listen = λ p. ltb 1023 p;
}

main_serves_iff_example :
    ((main machine ≡ serves fresh.router (bytes "/var/acme-secrets") (accepted machine))
      ↔ CanServe machine fresh.router (bytes "/var/acme-secrets") (accepted machine))
    × ((s : Text) (p : ℕ)
        → In (s, p) (accepted machine)
          ↔ (IsService s × In p (service_ports s) × (machine.can_listen p ≡ true)))
main_serves_iff_example =
    main_serves_iff machine fresh.router (bytes "/var/acme-secrets") (accepted machine)
