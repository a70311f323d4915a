-- ===== src/Commands/Snippets.antt =====
-- ssh/command/autossh.go, unitfile.go and forwards.go: the commands `session autossh`, `session
-- unitfile` and `session forwards`, as the lists of what they print.
pub mod Arguments
pub mod Laws
use remotemoe.Prelude.{ℕ, List, [], ◌∷◌, ◌++◌, Option, none, some, map}
use remotemoe.Text.{Text, bytes}
use remotemoe.Net.Decimal.{decimal}
use remotemoe.Services.{service_of, ports, http, https, ssh}
use remotemoe.Commands.Access.{service_ports}
use remotemoe.Session.{Session}
use remotemoe.Session.Lifetime.{forwarded_ports}
use remotemoe.Commands.Ports.{service_keys, join_digits}

-- The argument for a port.
abbrev pub forward_argument : ℕ → Text
forward_argument p =
    bytes "  -R " ++ (decimal p ++ b':' ∷ (bytes "localhost:" ++ decimal p ++ bytes " \\\n"))

abbrev pub autossh_template : List ℕ → Text
autossh_template ps =
    bytes "# autossh template based on ports " ++ join_digits (service_keys ps) ++ bytes "\r\n"

abbrev pub autossh_begin : List Text
autossh_begin =
    bytes "autossh -M 0 -f \\\n"
    ∷ bytes "  -o \"ExitOnForwardFailure yes\" \\\n"
    ∷ bytes "  -o \"ServerAliveInterval 30\" \\\n"
    ∷ bytes "  -o \"ServerAliveCountMax 3\" \\\n"
    ∷ []

abbrev pub autossh_end : List Text
autossh_end =
    bytes "\n"
    ∷ bytes
        "# for this to work, autossh needs access to the same keys and known_hosts as you had.\n"
    ∷ bytes
        "# if debugging is needed, remove the `-f` parameter which will keep autossh in the foreground.\n"
    ∷ bytes "\n"
    ∷ []

-- `session autossh`; `hostname` is the name of the server.
unfoldable pub autossh : Text → Session → List Text
unfolding forwarded_ports service_keys join_digits
autossh hostname s =
    (autossh_template (forwarded_ports s) ∷ autossh_begin)
    ++ map forward_argument (forwarded_ports s)
    ++ (bytes "  " ++ hostname ++ bytes " -N\r\n") ∷ autossh_end

abbrev pub unitfile_begin : List Text
unitfile_begin =
    bytes "systemd user service unit\n"
    ∷ bytes "Ensure you have lingering turned on, and the directories setup correctly:\n"
    ∷ bytes "  $ mkdir -p ~/.config/systemd/user/\n"
    ∷ bytes "  $ sudo loginctl enable-linger $USER\n"
    ∷ bytes "\n"
    ∷ bytes "Put this file, into ~/.config/systemd/user/remotemoe.service\n"
    ∷ bytes
        "[Unit]\nDescription=remotemoe tunnel\nStartLimitIntervalSec=0\nAfter=network.target\n\n[Service]\nRestart=always\nRestartSec=1m\n"
    ∷ bytes "ExecStart=ssh \\\n"
    ∷ bytes "  -o \"ExitOnForwardFailure yes\" \\\n"
    ∷ bytes "  -o \"ServerAliveInterval 30\"  \\\n"
    ∷ bytes "  -o \"ServerAliveCountMax 3\" \\\n"
    ∷ []

abbrev pub unitfile_end : List Text
unitfile_end =
    bytes "\n"
    ∷ bytes "[Install]\nWantedBy=default.target\n"
    ∷ bytes "\n"
    ∷ bytes "You should now be able to start the service:\n"
    ∷ bytes " $ systemctl --user start remotemoe.service\n"
    ∷ bytes "\n"
    ∷ bytes "You can also enable the service at boot time:\n"
    ∷ bytes " $ systemctl --user enable remotemoe.service\n"
    ∷ bytes "\n"
    ∷ []

-- `session unitfile`
unfoldable pub unitfile : Text → Session → List Text
unfolding forwarded_ports
unitfile hostname s =
    unitfile_begin
    ++ map forward_argument (forwarded_ports s)
    ++ (bytes "  " ++ hostname ++ bytes " -N\n") ∷ unitfile_end

-- A port with its service.
abbrev service_or : Option Text → Text
service_or none = bytes "other"
service_or (some s) = s

abbrev pub port_line : ℕ → Text
port_line p = decimal p ++ b'/' ∷ service_or (service_of p ports) ++ bytes "\n"

abbrev none_line : List ℕ → List Text
none_line [] = bytes "None\n" ∷ []
none_line (p ∷ ps) = []

-- `session forwards`
unfoldable pub forwards_command : Session → List Text
unfolding forwarded_ports
forwards_command s =
    (bytes "Forwarded ports:\n" ∷ [])
    ++ map port_line (forwarded_ports s)
    ++ none_line (forwarded_ports s)

-- forwardDiagram, which begins with an empty line.
abbrev forward_diagram : List Text
forward_diagram =
    bytes "\n"
    ∷ bytes "            +------------------------> remotemoe ignores bind_address\n"
    ∷ bytes
        "            |        +---------------> specifies what kind of service is being forwarded\n"
    ∷ bytes "            |        |    +----------> destination host\n"
    ∷ bytes "            |        |    |     +----> destination port\n"
    ∷ bytes "            +        +    +     +\n"
    ∷ bytes "  -R [bind_address:]port:host:hostport\n"
    ∷ []

abbrev joined_texts : List Text → Text
joined_texts [] = []
joined_texts (t ∷ ts) = t ++ joined_texts ts

-- A line of the help for a service.
abbrev help_line : Text → Text → Text
help_line service title =
    bytes "  Ports "
    ++ join_digits (service_ports service)
    ++ bytes " will be accessible with "
    ++ title
    ++ b'\n' ∷ []

-- The help of `session forwards`.
unfoldable pub forwards_help : Text
unfolding join_digits service_ports
forwards_help = joined_texts (
    (bytes "Forwards:\n"
      ∷ bytes "  List all currently forwarded ports\n\n"
      ∷ bytes "  These are ports that was forwarded by the client by using ssh's `-R` parameter.\n"
      ∷ bytes "  remotemoe uses the ports and hostnames like this:\n"
      ∷ [])
    ++ forward_diagram
    ++ bytes "  \n"
      ∷ bytes
          "  Incoming port forwards are mapped directly to service mux'es, with the following rules:\n\n"
      ∷ help_line http (bytes "HTTP")
      ∷ help_line https (bytes "HTTPs")
      ∷ help_line ssh (bytes "ssh")
      ∷ bytes "  Other ports can be accessed though ssh by using `ssh -L` or `ssh -W`\n"
      ∷ [])
