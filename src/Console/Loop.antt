-- ===== src/Console/Loop.antt =====
-- ssh/console.go: the goroutine of a console, which runs the commands and prints the messages to the
-- user, in the order in which the two channels hand them over.
pub mod Laws
pub mod Talk
pub mod Messages
use remotemoe.Prelude.{ℕ, Bool, true, false, List, [], ◌∷◌, ◌++◌, Option, none, some, if◌then◌else◌}
use remotemoe.Text.{Text}
use remotemoe.Text.Fields.{Unicode, fields, is_blank}
use remotemoe.Session.{Session, poke_timeout}
use remotemoe.Console.Channel.{Program, no_program, reads_terminal, runs}

-- What the goroutine's select finds: a command, the end of the commands, or a message, with whether
-- Fprintf then writes it.
pub data Event : Type 0 where
  command : Text → Event
  no_more_commands : Event
  message : Bool → Event

-- The session, the message that was received and is not printed yet, what was printed of its messages, the arguments that were executed, and the exit
-- status, with which the goroutine ends.
pub record Loop : Type 0 where
  pub session : Session
  pub in_hand : Option Text
  pub printed : List Text
  pub executed : List (List Text)
  pub exit_status : Option ℕ

abbrev pub new_loop : Session → Loop
new_loop s = record { session = s; in_hand = none; printed = []; executed = []; exit_status = none }

-- The receive from the channel of messages, if there is one.
unfoldable pub take_message : Loop → Loop
take_message l = elim l.session.msgs [
  | [] ↦ l
  | m ∷ ms ↦ record l { in_hand = some m; session = record l.session { msgs = ms } }
]

-- Fprintf, whose error is ignored, and PokeTimeout.
unfoldable pub print_message : Bool → Loop → Loop
unfolding poke_timeout
print_message writes l = elim l.in_hand [
  | none ↦ l
  | some m ↦ record l {
    in_hand = none;
    printed = if writes then l.printed ++ (m ++ b'\n' ∷ []) ∷ [] else l.printed;
    session = poke_timeout l.session;
  }
]

module _ (u : Unicode) where
  -- A round of the goroutine. What the commands do themselves is not told here. A message is found
  -- only if there is one.
  unfoldable pub loop_round : Event → Loop → Loop
  unfolding fields is_blank poke_timeout take_message print_message
  loop_round (command c) l =
      if is_blank u c
      then l
      else record l { executed = l.executed ++ fields u c ∷ []; session = poke_timeout l.session }
  loop_round no_more_commands l = record l { exit_status = some 0 }
  loop_round (message writes) l = print_message writes (take_message l)

  -- The goroutine, until it ends.
  unfoldable pub loop_rounds : List Event → Loop → Loop
  unfolding loop_round
  loop_rounds [] l = l
  loop_rounds (e ∷ es) l = elim l.exit_status [
    | some status ↦ l
    | none ↦ loop_rounds es (loop_round e l)
  ]

-- What comes out of the channel of commands: one command of an exec request and then its end, or the
-- lines of the terminal, to whose end the client leads.
unfoldable pub offered : Program → List Text → List Event
offered no_program lines = []
offered (runs c) lines = command c ∷ no_more_commands ∷ []
offered reads_terminal [] = no_more_commands ∷ []
offered reads_terminal (line ∷ lines) = command line ∷ offered reads_terminal lines
