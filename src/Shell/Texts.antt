-- ===== src/Shell/Texts.antt =====
-- ssh/command/firsttime.go, version.go, whoami.go and close.go: what the commands print that say nothing of
-- routes or ports.
use remotemoe.Prelude.{Bool, true, false, List, [], ◌∷◌, ◌++◌, if◌then◌else◌}
use remotemoe.Text.{Text, bytes, text_eq}
use remotemoe.Route.{Peer}

-- firstTimeDiagram, which begins with an empty line.
abbrev diagram_lines : List Text
diagram_lines =
    []
    ∷ bytes "        raspberry pi"
    ∷ bytes "       +------------------------------------+"
    ∷ bytes "       |$ ssh -R22:localhost:22 \\           |"
    ∷ bytes "       |      -R80:localhost:80 remotemoe   |"
    ∷ bytes "       +---------------+^^+-----------------+"
    ∷ bytes "                       |**|"
    ∷ bytes "   corporate firewall  |**|"
    ∷ bytes "  +--------------------|**|-----------------------+"
    ∷ bytes "                       |**|"
    ∷ bytes "                       |**| http and ssh traffic are"
    ∷ bytes "                       |**| wrapped inside ssh tunnel"
    ∷ bytes "                       |**|"
    ∷ bytes "  +--------------------|**|-----------------------+"
    ∷ bytes "   internet            |**|"
    ∷ bytes "                       |**|"
    ∷ bytes "        remotemoe      |**|"
    ∷ bytes "       +---------------v--v-----------------+"
    ∷ bytes "       |maps services such as http, https   |"
    ∷ bytes "       |and ssh to ssh tunnels.             |"
    ∷ bytes "       |                                    |"
    ∷ bytes "       +-------^----------------------^-----+"
    ∷ bytes "               *                      *"
    ∷ bytes "               * http traffic         * ssh traffic"
    ∷ bytes "   internet    *                      *"
    ∷ bytes "  +------------*----------------------*-----------+"
    ∷ bytes "               *                      *"
    ∷ bytes "   browser     *           ssh client *"
    ∷ bytes "  +------------+---------+ +----------+-----------+"
    ∷ bytes "  |$ curl key.remotemoe  | |$ ssh -J remotemoe key|"
    ∷ bytes "  |                      | |                      |"
    ∷ bytes "  +----------------------+ +----------------------+"
    ∷ []

abbrev newlines_after : List Text → Text
newlines_after [] = []
newlines_after (l ∷ ls) = l ++ b'\n' ∷ newlines_after ls

abbrev pub first_time_diagram : Text
first_time_diagram = newlines_after diagram_lines

-- Firsttime; `hostname` is the name of the server.
unfoldable pub firsttime_texts : Text → List Text
firsttime_texts hostname =
    bytes "remotemoe\n"
    ∷ bytes
        "remotemoe allows users to access services that are otherwise inaccessible from the internet.\n"
    ∷ bytes
        "Just like ngrok or argo tunnels, a device or service connects to remotemoe which in turn muxes "
    ∷ bytes "requests back from the internet. \n\n"
    ∷ bytes "Basic example:\n"
    ∷ bytes "Access the command line and a webservice of a remotely deployed Raspberry Pi:\n"
    ∷ first_time_diagram
    ∷ bytes "\n\n"
    ∷ bytes "From the Raspberry pi, connect using `-R` parameters which tells ssh to forward ports."
    ∷ bytes "\n\n"
    ∷ (bytes "  ssh -R80:localhost:80 -R22:localhost:22 " ++ hostname ++ bytes "\n\n")
    ∷ bytes
        "That's it, the Raspberry Pi's webservice and ssh daemon are now accessible from the internet\n"
    ∷ []

-- Whoami
unfoldable pub whoami_texts : Peer → List Text
whoami_texts p = (p.fqdn ++ b'\n' ∷ []) ∷ []

-- Close, before it closes the session.
abbrev pub close_texts : List Text
close_texts = bytes "kthxbye\n" ∷ []

-- buildvars, and what package runtime tells of the program.
pub record Build : Type 0 where
  pub go_version : Text
  pub go_os : Text
  pub go_arch : Text
  pub race_enabled : Bool
  pub initialized : Text
  pub git_repository : Text
  pub git_branch : Text
  pub git_commit_date : Text
  pub git_commit : Text
  pub git_porcelain : Text

abbrev bool_text : Bool → Text
bool_text true = bytes "true"
bool_text false = bytes "false"

abbrev line_of : Text → Text → Text
line_of label t = label ++ t ++ b'\n' ∷ []

abbrev local_changes : Text → List Text
local_changes [] = bytes "false\n" ∷ []
local_changes (c ∷ t) = (bytes "true\n" ++ (c ∷ t) ++ b'\n' ∷ []) ∷ []

-- Version
unfoldable pub version_texts : Build → List Text
version_texts b =
    let rest =
      bytes "\n"
      ∷ line_of (bytes "Git Repository:    ") b.git_repository
      ∷ line_of (bytes "Git Branch:        ") b.git_branch
      ∷ line_of (bytes "Git Commit Date:   ") b.git_commit_date
      ∷ line_of (bytes "Git Commit:        ") b.git_commit
      ∷ bytes "\n"
      ∷ bytes "Local Changes:     "
      ∷ local_changes b.git_porcelain in
    (line_of (bytes "Go version:        ") b.go_version
      ∷ line_of (bytes "Go arch:           ") (b.go_os ++ b'/' ∷ b.go_arch)
      ∷ line_of (bytes "Race detection:    ") (bool_text b.race_enabled)
      ∷ [])
    ++ (if text_eq b.initialized (bytes "true") then rest else [])
