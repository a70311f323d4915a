-- ===== src/Console/Channel.antt =====
-- ssh/console.go and ssh/msgs.go: the requests on a session channel, of which one exec or shell
-- starts the commands.
pub mod Laws
use remotemoe.Prelude.{ℕ, Bool, true, false, List, [], ◌∷◌, Option, none, some}
use remotemoe.Text.{Text}

-- The width and the height of a terminal.
pub record Size : Type 0 where
  pub width : ℕ
  pub height : ℕ

-- A request on the channel, with its payload, if that can be read.
pub data ChannelRequest : Type 0 where
  exec : Option Text → ChannelRequest
  shell : ChannelRequest
  pty_req window_change : Option Size → ChannelRequest
  other_request : ChannelRequest

-- Where the commands come from: from nowhere, from the terminal, or it is the one of an exec request.
pub data Program : Type 0 where
  no_program reads_terminal : Program
  runs : Text → Program

-- What the handler of the requests keeps: `once`, the commands, and the size of the terminal.
pub record Front : Type 0 where
  pub once : Bool
  pub program : Program
  pub size : Option Size

abbrev pub new_front : Front
new_front = record { once = false; program = no_program; size = none }

-- once.Do(f): `f` the first time, nothing later.
abbrev pub once_do : (Front → Front × Option Bool) → Front → Front × Option Bool
once_do f c = elim c.once [ true ↦ (c, none) | false ↦ f (record c { once = true }) ]

-- One request, with the reply to it, if there is one.
unfoldable pub serve_request : ChannelRequest → Front → Front × Option Bool
serve_request (exec none) c = once_do (λ d. (d, some false)) c
serve_request (exec (some command)) c = once_do (λ d. (record d { program = runs command }, none)) c
serve_request shell c = once_do (λ d. (record d { program = reads_terminal }, some true)) c
serve_request (pty_req none) c = (c, some false)
serve_request (pty_req (some size)) c = (record c { size = some size }, some true)
serve_request (window_change none) c = (c, some false)
serve_request (window_change (some size)) c = (record c { size = some size }, none)
serve_request other_request c = (c, some false)

unfoldable pub serve_requests : List ChannelRequest → Front → Front × List (Option Bool)
unfolding serve_request
serve_requests [] c = (c, [])
serve_requests (q ∷ qs) c =
    let (d, answer) = serve_request q c in
    let (end, answers) = serve_requests qs d in (end, answer ∷ answers)
