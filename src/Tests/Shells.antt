-- ===== src/Tests/Shells.antt =====
-- The commands of a console at concrete lines.
use remotemoe.Prelude.{
  ℕ, ◌+◌, ◌≤◌, ◌≡◌, refl, true, false, List, [], ◌∷◌, Option, none, some, length, leb, arith,
  if◌then◌else◌,
}
use remotemoe.Text.{Text, bytes}
use remotemoe.Text.Fields.{Unicode, fields, is_blank, ascii_fields}
use remotemoe.Text.Lower.{is_ascii}
use remotemoe.Net.{join_host_port, contains}
use remotemoe.Disk.{Env}
use remotemoe.Route.{Host}
use remotemoe.Router.{find}
use remotemoe.Router.Sweep.{remove_listed, sweep_all, sweep}
use remotemoe.Router.Dial.{dial, reaches}
use remotemoe.Router.History.{World, onlines, run, IsValid}
use remotemoe.Router.History.Valid.{run_empty-IsValid}
use remotemoe.Session.{new_session}
use remotemoe.Commands.{is_active, list_hosts, add_hosts, remove_hosts, remove_all_hosts}
use remotemoe.Console.Channel.{ChannelRequest, exec, serve_request, serve_requests, new_front}
use remotemoe.Console.Loop.{
  Event, command, no_more_commands, message, new_loop, loop_rounds, offered,
}
use remotemoe.Console.Loop.Laws.{commands_of}
use remotemoe.Shell.Tree.{
  Action, Flag, Tree, tree, one_tree, leaf, node, default_cmd, session_cmd, host_cmd, remove_cmd,
  add_cmd,
}
use remotemoe.Shell.Reset.{Settable, AtDefault, command_reset, reset_flags, IsSettable, IsAtDefault}
use remotemoe.Shell.Texts.{Build}
use remotemoe.Shell.Run.{
  Shell, Verdict, calls_action, only_prints, line, run_shell, run_line, run_action, close_session,
}
use remotemoe.Shell.Owned.{KeptOrOwn}
use remotemoe.Shell.Safe.{AllTypable, typed_keeps_others, flags_restored}
use remotemoe.Shell.Typed.{descend, HasNoFlags, met_with, exec_host_add}
use remotemoe.Tests.Routes.{program}
use remotemoe.Tests.Data.{alice, bob, at, no_unicode, is_session, db, fresh}

-- The flag --help.
abbrev help : List Flag
help = record { kind = 0; value = bytes "false"; def_value = bytes "false"; changed = false } ∷ []

abbrev pub set : ℕ → Text → Option Text
set kind t = some t

-- A cobra that knows no flags.
abbrev pub verdict_of : Option Action → ℕ → List Text → Verdict
verdict_of none minimum args = only_prints []
verdict_of (some a) minimum args =
    if leb minimum (length args) then calls_action a args else only_prints []

abbrev pub execute : Tree → List Text → Verdict × Tree
execute t args =
    (verdict_of (descend args t).0.run (descend args t).0.minimum_args (descend args t).1, t)

execute_lem :
    (t : Tree) (args : List Text) (a : Action)
    → HasNoFlags args
    → (descend args t).0.run ≡ some a
    → (descend args t).0.minimum_args ≤ length (descend args t).1
    → (execute t args).0 ≡ calls_action a (descend args t).1
execute_lem t args a plain e l = ground (arith, e, l)

-- The tables of Unicode are not asked about ASCII.
abbrev tables : Unicode
tables = record { fields_of = λ s. s ∷ []; blank = λ s. false }

abbrev alice_host : Host
alice_host = record { routable = some alice; name = alice.fqdn; last_seen = 1; created = 1 }

abbrev pub build : Build
build = record {
  go_version = [];
  go_os = [];
  go_arch = [];
  race_enabled = false;
  initialized = [];
  git_repository = [];
  git_branch = [];
  git_commit_date = [];
  git_commit = [];
  git_porcelain = [];
}

-- Alice and Bob are online, and Alice has a console.
abbrev world : World
world = run no_unicode fresh (onlines (at 1) alice ∷ onlines (at 2) bob ∷ [])

world-IsValid : IsValid no_unicode is_session world
unfolding program is_session
world-IsValid =
    run_empty-IsValid no_unicode is_session db (onlines (at 1) alice ∷ onlines (at 2) bob ∷ [])
      (refl, (refl, tt))

abbrev shell : Shell
shell = record {
  session = new_session alice;
  world = world;
  commands = default_cmd help;
  printed = [];
  panicked = false;
}

abbrev met : ℕ → Env
met i = at (i + 3)

abbrev lines : List ((ℕ → Env) × List Text)
lines =
    (met, bytes "host" ∷ bytes "add" ∷ bytes "blog.moe" ∷ bytes "wiki.moe" ∷ [])
    ∷ (met, bytes "host" ∷ bytes "list" ∷ [])
    ∷ (met, bytes "host" ∷ bytes "remove" ∷ bytes "wiki.moe" ∷ bytes "other.moe" ∷ [])
    ∷ (met, bytes "host" ∷ bytes "remove" ∷ bytes "all" ∷ [])
    ∷ (met, bytes "exit" ∷ [])
    ∷ []

unfoldable commands_program : Unit {0}
unfolding program is_session default_cmd session_cmd host_cmd remove_cmd add_cmd
commands_program = tt

typable : AllTypable no_unicode (bytes "moe") build set execute is_session shell lines
unfolding commands_program run_line run_action command_reset list_hosts add_hosts remove_hosts
    remove_all_hosts close_session reset_flags remove_listed sweep_all sweep
typable =
    (((refl, refl), ((refl, refl), tt)), (tt, ((tt, (tt, tt)), (((λ n ns e. refl), tt), (tt, tt)))))

typed_keeps_others_example :
    IsValid no_unicode is_session
      (run_shell no_unicode (bytes "moe") build set execute lines shell).world
    × ((run_shell no_unicode (bytes "moe") build set execute lines shell).panicked ≡ false)
    × ((k : Text)
        → KeptOrOwn alice.fqdn (find k world.router) (
            find k (run_shell no_unicode (bytes "moe") build set execute lines shell).world.router))
typed_keeps_others_example =
    typed_keeps_others no_unicode (bytes "moe") build set execute is_session shell lines
      world-IsValid refl typable

-- A cobra that parses `--help` at the first command, and adds a command for it.
abbrev touched : List Flag → List Flag
touched [] = []
touched (f ∷ fs) = record f { value = bytes "true"; changed = true } ∷ fs

abbrev help_cmd : Tree
help_cmd = leaf (node help (bytes "help") none)

unfoldable executed : Tree → Tree
executed (tree n ts) = tree (record n { flags = touched n.flags }) (one_tree help_cmd ts)

abbrev executes : Tree → List Text → Verdict × Tree
executes t args = ((execute t args).0, executed t)

touched-Settable : (fs : List Flag) → Settable set fs → Settable set (touched fs)
touched-Settable [] s = tt
touched-Settable (f ∷ fs) s = s

executed-IsSettable : (t : Tree) → IsSettable set t → IsSettable set (executed t)
unfolding executed IsSettable
executed-IsSettable (tree n ts) (s, ss) = (touched-Settable n.flags s, (((refl, tt), tt), ss))

unset : IsAtDefault (default_cmd help) × IsSettable set (default_cmd help)
unfolding default_cmd session_cmd host_cmd remove_cmd add_cmd IsAtDefault IsSettable
unset =
    let d : AtDefault help = (refl, tt) in
    let s : Settable set help = (refl, tt) in
    let l : AtDefault help × Unit {0} = (d, tt) in
    let m : Settable set help × Unit {0} = (s, tt) in
    (
      (
        d,
        (l, (l, ((d, (l, (l, (l, tt)))), ((d, (l, ((d, (l, tt)), (l, tt)))), (l, (l, (l, tt))))))),
      ),
      (
        s,
        (m, (m, ((s, (m, (m, (m, tt)))), ((s, (m, ((s, (m, tt)), (m, tt)))), (m, (m, (m, tt))))))),
      ),
    )

flags_restored_example :
    IsAtDefault (run_shell no_unicode (bytes "moe") build set executes lines shell).commands
flags_restored_example =
    flags_restored no_unicode (bytes "moe") build set executes shell lines
      (λ t args. executed-IsSettable t) unset.1 unset.0

-- Alice's command line is `ssh moe host add Blog.moe`.
abbrev typed : Text
typed = bytes "host add Blog.moe"

abbrev requests : List ChannelRequest
requests = exec (some typed) ∷ []

abbrev events : List Event
events = message true ∷ command typed ∷ no_more_commands ∷ []

events_lem : commands_of events ≡ offered (serve_requests requests new_front).0.program []
unfolding serve_requests serve_request offered
events_lem = refl

exec_host_add_example :
    let end =
      run_shell no_unicode
        (bytes "moe")
        build
        set
        execute
        (met_with met (loop_rounds tables events (new_loop (new_session alice))).executed)
        shell in
    (end.printed ≡ line (is_active (bytes "blog.moe")) ∷ [])
    × (dial 2 end.world.router (join_host_port (bytes "blog.moe") (bytes "80"))
        ≡ some (reaches alice (join_host_port alice.fqdn (bytes "80"))))
unfolding program contains is_blank fields ascii_fields is_ascii
exec_host_add_example =
    exec_host_add no_unicode (bytes "moe") build set execute tables requests events [] typed
      (bytes "Blog.moe") help met shell alice_host 0 (bytes "80") execute_lem refl events_lem refl
      refl (refl, tt) refl refl world-IsValid.synced refl refl refl refl (refl, refl) (refl, refl)
      (refl, refl) refl
