-- ===== src/Console/Loop/Laws.antt =====
-- ssh/console.go: what a console executes, whatever messages come between.
use remotemoe.Prelude.{
  ℕ, ◌≡◌, refl, sym, ap, ◌∙◌, Bool, List, [], ◌∷◌, ◌++◌, Option, none, some, arith, if◌then◌else◌,
}
use mathlib.Core.List.{append_assoc, append-nil}
use remotemoe.Text.{Text}
use remotemoe.Text.Fields.{Unicode, fields, is_blank}
use remotemoe.Session.{Session}
use remotemoe.Console.Channel.{
  ChannelRequest, serve_requests, new_front, Program, no_program, reads_terminal, runs,
}
use remotemoe.Console.Channel.Laws.{first_program, serve_requests_lem}
use remotemoe.Console.Loop.{
  Event, command, no_more_commands, message, Loop, new_loop, take_message, print_message,
  loop_round, loop_rounds, offered,
}

-- The events of the channel of commands.
abbrev pub commands_of : List Event → List Event
commands_of [] = []
commands_of (command c ∷ es) = command c ∷ commands_of es
commands_of (no_more_commands ∷ es) = no_more_commands ∷ commands_of es
commands_of (message w ∷ es) = commands_of es

commands_head : (c d : Text) (es fs : List Event) → command c ∷ es ≡ command d ∷ fs → c ≡ d
commands_head c d es fs e = cc

commands_tail : (c d : Text) (es fs : List Event) → command c ∷ es ≡ command d ∷ fs → es ≡ fs
commands_tail c d es fs e = cc

module _ (u : Unicode) where
  -- The arguments of the lines that are not blank.
  abbrev pub arguments : List Text → List (List Text)
  arguments [] = []
  arguments (line ∷ lines) =
      let rest = arguments lines in if is_blank u line then rest else fields u line ∷ rest

  rounds_ended :
      (es : List Event) (l : Loop) (status : ℕ)
      → l.exit_status ≡ some status
      → loop_rounds u es l ≡ l
  unfolding loop_rounds
  rounds_ended [] l status e = refl
  rounds_ended (x ∷ es) l status e = ground (arith, e)

  rounds_step :
      (e : Event) (es : List Event) (l : Loop)
      → l.exit_status ≡ none
      → loop_rounds u (e ∷ es) l ≡ loop_rounds u es (loop_round u e l)
  unfolding loop_rounds
  rounds_step e es l q = ground (arith, q)

  round_message :
      (w : Bool) (l : Loop)
      → ((loop_round u (message w) l).executed ≡ l.executed)
        × ((loop_round u (message w) l).exit_status ≡ l.exit_status)
  unfolding loop_round take_message print_message
  round_message w l = ground arith

  round_command :
      (c : Text) (l : Loop)
      → ((loop_round u (command c) l).executed
          ≡ (if is_blank u c then l.executed else l.executed ++ fields u c ∷ []))
        × ((loop_round u (command c) l).exit_status ≡ l.exit_status)
  unfolding loop_round
  round_command c l = ground arith

  abbrev Ends : List (List Text) → Loop → Loop → Type 0
  Ends args l m = (m.executed ≡ l.executed ++ args) × (m.exit_status ≡ some 0)

  rounds_last :
      (es : List Event) (l : Loop)
      → l.exit_status ≡ none
      → Ends [] l (loop_rounds u (no_more_commands ∷ es) l)
  unfolding loop_round
  rounds_last es l e =
      rw
        (
          rounds_step no_more_commands es l e,
          rounds_ended es (record l { exit_status = some 0 }) 0 refl,
        )
        (sym (append-nil l.executed), refl)

  rounds_lines :
      (es : List Event) (l : Loop) (lines : List Text)
      → l.exit_status ≡ none
      → commands_of es ≡ offered reads_terminal lines
      → Ends (arguments lines) l (loop_rounds u es l)
  unfolding offered
  rounds_lines [] l [] e q = cc
  rounds_lines [] l (line ∷ lines) e q = cc
  rounds_lines (no_more_commands ∷ es) l [] e q = rounds_last es l e
  rounds_lines (no_more_commands ∷ es) l (line ∷ lines) e q = cc
  rounds_lines (command c ∷ es) l [] e q = cc
  rounds_lines (command c ∷ es) l (line ∷ lines) e q =
      let (executed, status) = round_command c l in
      ground (
        arith,
        rounds_step (command c) es l e,
        executed,
        rounds_lines es (loop_round u (command c) l) lines (status ∙ e)
            (commands_tail c line _ _ q),
        commands_head c line _ _ q,
        append_assoc l.executed (fields u c ∷ []) (arguments lines),
      )
  rounds_lines (message w ∷ es) l lines e q =
      let (executed, status) = round_message w l in
      ground (
        arith,
        rounds_step (message w) es l e,
        executed,
        rounds_lines es (loop_round u (message w) l) lines (status ∙ e) q,
      )

  rounds_exec :
      (es : List Event) (l : Loop) (c : Text)
      → l.exit_status ≡ none
      → commands_of es ≡ offered (runs c) []
      → Ends (arguments (c ∷ [])) l (loop_rounds u es l)
  unfolding offered
  rounds_exec es l c e q = rounds_lines es l (c ∷ []) e q

  rounds_none :
      (es : List Event) (l : Loop)
      → l.exit_status ≡ none
      → commands_of es ≡ []
      → ((loop_rounds u es l).executed ≡ l.executed) × ((loop_rounds u es l).exit_status ≡ none)
  unfolding loop_rounds
  rounds_none [] l e q = (refl, e)
  rounds_none (command c ∷ es) l e q = cc
  rounds_none (no_more_commands ∷ es) l e q = cc
  rounds_none (message w ∷ es) l e q =
      let (executed, status) = round_message w l in
      ground (arith, e, executed, rounds_none es (loop_round u (message w) l) (status ∙ e) q)

  -- The lines that a program hands over, and the status with which its console ends.
  abbrev pub lines_of : Program → List Text → List Text
  lines_of no_program lines = []
  lines_of (runs c) lines = c ∷ []
  lines_of reads_terminal lines = lines

  abbrev pub ends_with : Program → Option ℕ
  ends_with no_program = none
  ends_with (runs c) = some 0
  ends_with reads_terminal = some 0

  abbrev RunsProgram : Program → Session → List Event → List Text → Type 0
  RunsProgram p s es lines =
      ((loop_rounds u es (new_loop s)).executed ≡ arguments (lines_of p lines))
      × ((loop_rounds u es (new_loop s)).exit_status ≡ ends_with p)

  rounds_program :
      (p : Program) (s : Session) (es : List Event) (lines : List Text)
      → commands_of es ≡ offered p lines
      → RunsProgram p s es lines
  unfolding offered
  rounds_program no_program s es lines q = rounds_none es (new_loop s) refl q
  rounds_program (runs c) s es lines q = rounds_exec es (new_loop s) c refl q
  rounds_program reads_terminal s es lines q = rounds_lines es (new_loop s) lines refl q

  -- Whatever the requests on a channel, and however the messages come between, when the goroutine has
  -- found all that the channel of commands offers: it has executed the lines of the terminal, if the
  -- first exec or shell is a shell, or the one command of an exec, without the blank ones, each once
  -- and in order, and ends with status 0. After an exec that cannot be read, or without any, it has
  -- executed nothing and has not ended.
  pub console_executes :
      (qs : List ChannelRequest) (s : Session) (es : List Event) (lines : List Text)
      → commands_of es ≡ offered (serve_requests qs new_front).0.program lines
      → ((loop_rounds u es (new_loop s)).executed ≡ arguments (lines_of (first_program qs) lines))
        × ((loop_rounds u es (new_loop s)).exit_status ≡ ends_with (first_program qs))
  console_executes qs s es lines q =
      rounds_program (first_program qs) s es lines
        (q ∙ ap (λ p. offered p lines) (serve_requests_lem qs).0)
