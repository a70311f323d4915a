-- ===== src/Console/Channel/Laws.antt =====
-- ssh/console.go: which request starts the commands, and what each is answered.
use remotemoe.Prelude.{
  ◌≡◌, refl, Bool, true, false, List, [], ◌∷◌, Option, none, some, arith, if◌then◌else◌,
}
use remotemoe.Console.Channel.{
  ChannelRequest, exec, shell, pty_req, window_change, other_request, Program, no_program,
  reads_terminal, runs, Front, new_front, serve_requests,
}

abbrev pub is_program : ChannelRequest → Bool
is_program (exec payload) = true
is_program shell = true
is_program (pty_req payload) = false
is_program (window_change payload) = false
is_program other_request = false

-- The program of an exec or a shell request.
abbrev pub program_of : ChannelRequest → Program
program_of (exec none) = no_program
program_of (exec (some command)) = runs command
program_of shell = reads_terminal
program_of (pty_req payload) = no_program
program_of (window_change payload) = no_program
program_of other_request = no_program

-- The program of the first exec or shell among the requests.
abbrev pub first_program : List ChannelRequest → Program
first_program [] = no_program
first_program (q ∷ qs) = let rest = first_program qs in if is_program q then program_of q else rest

-- The reply to a request that the handler does serve.
abbrev pub reply_of : ChannelRequest → Option Bool
reply_of (exec none) = some false
reply_of (exec (some command)) = none
reply_of shell = some true
reply_of (pty_req none) = some false
reply_of (pty_req (some size)) = some true
reply_of (window_change none) = some false
reply_of (window_change (some size)) = none
reply_of other_request = some false

-- The replies, where `started` tells that an exec or a shell has gone before.
abbrev pub replies_of : Bool → List ChannelRequest → List (Option Bool)
replies_of started [] = []
replies_of started (q ∷ qs) =
    (if is_program q then (if started then none else reply_of q) else reply_of q)
    ∷ replies_of (if is_program q then true else started) qs

serve_requests_started :
    (qs : List ChannelRequest) (c : Front)
    → c.once ≡ true
    → ((serve_requests qs c).0.program ≡ c.program) × ((serve_requests qs c).1 ≡ replies_of true qs)
unfolding serve_requests
serve_requests_started [] c e = (refl, refl)
serve_requests_started (exec none ∷ qs) c e = ground (arith, e, serve_requests_started qs c)
serve_requests_started (exec (some t) ∷ qs) c e = ground (arith, e, serve_requests_started qs c)
serve_requests_started (shell ∷ qs) c e = ground (arith, e, serve_requests_started qs c)
serve_requests_started (pty_req none ∷ qs) c e = ground (arith, e, serve_requests_started qs c)
serve_requests_started (pty_req (some s) ∷ qs) c e =
    ground (arith, e, serve_requests_started qs (record c { size = some s }))
serve_requests_started (window_change none ∷ qs) c e =
    ground (arith, e, serve_requests_started qs c)
serve_requests_started (window_change (some s) ∷ qs) c e =
    ground (arith, e, serve_requests_started qs (record c { size = some s }))
serve_requests_started (other_request ∷ qs) c e = ground (arith, e, serve_requests_started qs c)

serve_requests_fresh :
    (qs : List ChannelRequest) (c : Front)
    → c.once ≡ false
    → c.program ≡ no_program
    → ((serve_requests qs c).0.program ≡ first_program qs)
      × ((serve_requests qs c).1 ≡ replies_of false qs)
unfolding serve_requests
serve_requests_fresh [] c e n = (n, refl)
serve_requests_fresh (exec none ∷ qs) c e n =
    ground (arith, e, n, serve_requests_started qs (record c { once = true }))
serve_requests_fresh (exec (some t) ∷ qs) c e n =
    ground (arith, e, n, serve_requests_started qs (record c { once = true; program = runs t }))
serve_requests_fresh (shell ∷ qs) c e n =
    ground
      (arith, e, n, serve_requests_started qs (record c { once = true; program = reads_terminal }))
serve_requests_fresh (pty_req none ∷ qs) c e n = ground (arith, e, n, serve_requests_fresh qs c)
serve_requests_fresh (pty_req (some s) ∷ qs) c e n =
    ground (arith, e, n, serve_requests_fresh qs (record c { size = some s }))
serve_requests_fresh (window_change none ∷ qs) c e n =
    ground (arith, e, n, serve_requests_fresh qs c)
serve_requests_fresh (window_change (some s) ∷ qs) c e n =
    ground (arith, e, n, serve_requests_fresh qs (record c { size = some s }))
serve_requests_fresh (other_request ∷ qs) c e n = ground (arith, e, n, serve_requests_fresh qs c)

-- On a new channel, whatever the requests, the first exec or shell alone determines the commands:
-- an exec that cannot be read leaves the channel without any. The first shell is answered with
-- true, the first exec only if it cannot be read, with false, and no later exec or shell is answered.
pub serve_requests_lem :
    (qs : List ChannelRequest)
    → ((serve_requests qs new_front).0.program ≡ first_program qs)
      × ((serve_requests qs new_front).1 ≡ replies_of false qs)
serve_requests_lem qs = serve_requests_fresh qs new_front refl refl
