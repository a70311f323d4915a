-- ===== src/Tests/Consoles.antt =====
-- The console at concrete inputs.
use remotemoe.Prelude.{
  ℕ, ◌≤◌, ◌≡◌, refl, true, false, List, [], ◌∷◌, ◌++◌, none, some, length, take, drop, arith,
}
use remotemoe.Text.{Text, bytes, text_eq}
use remotemoe.Text.Lower.{is_ascii}
use remotemoe.Text.Fields.{Unicode, fields, ascii_fields}
use remotemoe.Net.{cut_last}
use remotemoe.Session.{new_session, msgs_capacity}
use remotemoe.Session.Requests.{
  Handler, Progress, goes, blocks, send, tcpip_forward, register, inform_forward, handle_request,
}
use remotemoe.Console.Completion.{
  SubCommand, Command, Cobra, tab, word_before, has_prefix, suggestions, command_at, suggestions_of,
  complete,
}
use remotemoe.Console.Completion.Laws.{IsInsertion, complete-IsInsertion}
use remotemoe.Console.Channel.{
  ChannelRequest, exec, shell, pty_req, window_change, other_request, new_front, serve_request,
  serve_requests,
}
use remotemoe.Console.Channel.Laws.{first_program, replies_of, serve_requests_lem}
use remotemoe.Console.Loop.{
  Event, command, no_more_commands, message, new_loop, take_message, print_message, loop_rounds,
  offered,
}
use remotemoe.Console.Loop.Laws.{commands_of, arguments, lines_of, ends_with, console_executes}
use remotemoe.Console.Loop.Talk.{
  take as receive, print, Talk, sends, serves, takes, prints, sent_since, Talks, here, next,
  new_talk, texts, taken_by, printed_by, in_hand, written,
}
use remotemoe.Console.Loop.Messages.{messages_in_order}
use remotemoe.Services.{service_of, ports}
use remotemoe.Tests.Routes.{program}
use remotemoe.Tests.Data.{alice, at, no_unicode, fresh}

-- The tables of Unicode are not asked about ASCII.
abbrev tables : Unicode
tables = record { fields_of = λ s. s ∷ []; blank = λ s. false }

abbrev sub : Text → SubCommand
sub name = record { name = name; hidden = false }

abbrev top : Command
top = record {
  name = bytes "main";
  has_available = true;
  commands = sub (bytes "access") ∷ sub (bytes "host") ∷ sub (bytes "session") ∷ [];
}

abbrev cobra : Cobra
cobra = record { top = top; find = λ args. some top }

-- The word "se", with a cursor behind it, in "se x".
abbrev line : Text
line = bytes "se x"

complete-IsInsertion_example :
    IsInsertion line 2 (complete tables cobra line 2 tab)
    × ((complete tables cobra line 2 tab).pos ≤ length (complete tables cobra line 2 tab).line)
complete-IsInsertion_example = complete-IsInsertion tables cobra line 2 tab (omega arith)

not_main :
    text_eq (command_at tables cobra (take 2 line) (drop 2 line)).name (word_before (take 2 line))
    ≡ false
unfolding command_at word_before text_eq fields ascii_fields is_ascii cut_last
not_main = refl

one_suggested :
    suggestions_of (command_at tables cobra (take 2 line) (drop 2 line)) (word_before (take 2 line))
    ≡ bytes "session" ∷ []
unfolding suggestions_of command_at word_before suggestions has_prefix fields ascii_fields is_ascii
    cut_last
one_suggested = refl

-- A terminal and two programs, of which the second is ignored.
abbrev requests : List ChannelRequest
requests =
    pty_req (some (record { width = 80; height = 24 }))
    ∷ shell
    ∷ exec (some (bytes "access"))
    ∷ window_change none
    ∷ other_request
    ∷ []

serve_requests_lem_example :
    ((serve_requests requests new_front).0.program ≡ first_program requests)
    × ((serve_requests requests new_front).1 ≡ replies_of false requests)
serve_requests_lem_example = serve_requests_lem requests

abbrev lines : List Text
lines = bytes "host list" ∷ bytes "  " ∷ bytes "access" ∷ []

abbrev events : List Event
events =
    command (bytes "host list")
    ∷ message true
    ∷ command (bytes "  ")
    ∷ message true
    ∷ command (bytes "access")
    ∷ no_more_commands
    ∷ message false
    ∷ []

events_lem : commands_of events ≡ offered (serve_requests requests new_front).0.program lines
unfolding serve_requests serve_request offered
events_lem = refl

console_executes_example :
    ((loop_rounds tables events (new_loop (new_session alice))).executed
      ≡ arguments tables (lines_of tables (first_program requests) lines))
    × ((loop_rounds tables events (new_loop (new_session alice))).exit_status
        ≡ ends_with tables (first_program requests))
console_executes_example =
    console_executes tables requests (new_session alice) events lines events_lem

-- A message to Alice.
abbrev start : Talk
start = new_talk alice fresh.router

abbrev told : Handler
told = record start.handler { session = record (new_session alice) { msgs = bytes "hi" ∷ [] } }

abbrev sent : Talk
sent = record start { handler = told; sent = bytes "hi" ∷ [] }

is_sent : send (bytes "hi") start.handler ≡ goes told
unfolding send
is_sent = refl

-- Her request for port 80 is served.
abbrev handler_of : Progress → Handler
handler_of (goes h) = h
handler_of (blocks h) = h

abbrev with_port : Handler
with_port =
    handler_of
      (handle_request no_unicode no_unicode (bytes "moe") (at 1) (tcpip_forward (some 80)) told)

is_served :
    handle_request no_unicode no_unicode (bytes "moe") (at 1) (tcpip_forward (some 80)) told
    ≡ goes with_port
unfolding program handle_request register inform_forward send service_of ports
is_served = refl

abbrev served : Talk
served = record sent { handler = with_port; sent = sent.sent ++ sent_since told with_port }

abbrev head_or : Text → List Text → Text
head_or d [] = d
head_or d (m ∷ ms) = m

abbrev tail_of : List Text → List Text
tail_of [] = []
tail_of (m ∷ ms) = ms

abbrev port_text : Text
port_text = head_or [] (tail_of with_port.session.msgs)

-- Her consoles 1 and 2 receive a message each, and 2 prints first; the print of 1 fails.
abbrev one : Talk
one = receive 1 (bytes "hi") served

abbrev both : Talk
both = receive 2 port_text one

abbrev second : Talk
second = print 2 port_text true both

abbrev heard : Talk
heard = print 1 (bytes "hi") false second

msgs_lem : served.handler.session.msgs ≡ bytes "hi" ∷ port_text ∷ []
unfolding program handle_request register inform_forward send service_of ports
msgs_lem = refl

left_lem : one.handler.session.msgs ≡ port_text ∷ []
unfolding program handle_request register inform_forward send service_of ports take_message
left_lem = refl

holds_lem : (second.hands 1 ≡ some (bytes "hi")) × (both.hands 2 ≡ some port_text)
unfolding program handle_request register inform_forward send service_of ports take_message
    print_message
holds_lem = (refl, refl)

free_lem : one.hands 2 ≡ none
unfolding take_message
free_lem = refl

talk : Talks no_unicode no_unicode (bytes "moe") start heard
talk = next start sent heard (sends (bytes "hi") start told is_sent) (
    next sent served heard (serves (at 1) (tcpip_forward (some 80)) sent with_port is_served) (
      next served one heard (takes 1 (bytes "hi") (port_text ∷ []) served msgs_lem refl) (
        next one both heard (takes 2 port_text [] one left_lem free_lem) (
          next both second heard (prints 2 port_text true both holds_lem.1) (
            next second heard heard (prints 1 (bytes "hi") false second holds_lem.0)
              (here heard))))))

messages_in_order_example :
    (heard.sent ≡ texts heard.taken ++ heard.handler.session.msgs)
    × (length heard.handler.session.msgs ≤ msgs_capacity)
    × ((i : ℕ) → taken_by i heard.taken ≡ printed_by i heard.lines ++ in_hand (heard.hands i))
    × (heard.shown ≡ written heard.lines)
messages_in_order_example =
    messages_in_order no_unicode no_unicode (bytes "moe") alice fresh.router heard talk
