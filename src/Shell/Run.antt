-- ===== src/Shell/Run.antt =====
-- ssh/console.go and ssh/command: what a console does with the arguments of a line. For the parameter
-- `execute` see Shell/Tree.antt: it stands for the Execute of cobra up to the call of Run or RunE.
use remotemoe.Prelude.{
  ℕ, suc, Bool, true, List, [], ◌∷◌, ◌++◌, Option, none, some, map, if◌then◌else◌,
}
use remotemoe.Text.{Text}
use remotemoe.Disk.{Env}
use remotemoe.Router.{Error}
use remotemoe.Router.History.{World}
use remotemoe.Session.{Session}
use remotemoe.Commands.{Line, list_hosts, add_hosts, RemovedHosts, remove_hosts, remove_all_hosts}
use remotemoe.Commands.Access
use remotemoe.Commands.Snippets
use remotemoe.Shell.Tree.{
  Action, Tree, firsttime, close, forwards, autossh, unitfile, list, add, remove, remove_all,
  whoami, version,
}
use remotemoe.Shell.Reset.{command_reset}
use remotemoe.Shell.Texts.{Build, firsttime_texts, whoami_texts, close_texts, version_texts}

-- What is printed: a text, a line about a name, or what RunE returns, with the name that `host
-- remove` puts before it.
pub data Output : Type 0 where
  text : Text → Output
  line : Line → Output
  could_not_remove : Text → Error → Output
  failed : Error → Output

-- What Execute comes to: it calls the function of a command with arguments, or it prints help, or
-- that the line is no command.
pub data Verdict : Type 0 where
  calls_action : Action → List Text → Verdict
  only_prints : List Text → Verdict

-- A console: its session, the router, its commands, what was printed, and whether a command has
-- panicked, with which the program ends.
pub record Shell : Type 0 where
  pub session : Session
  pub world : World
  pub commands : Tree
  pub printed : List Output
  pub panicked : Bool

abbrev pub print : List Output → Shell → Shell
print os s = record s { printed = s.printed ++ os }

abbrev pub text_outputs : List Text → List Output
text_outputs ts = map (λ t. text t) ts

-- What the outside has for each of several calls.
abbrev pub with_envs : (ℕ → Env) → List Text → List (Env × Text)
with_envs env [] = []
with_envs env (s ∷ ss) = (env 0, s) ∷ with_envs (λ i. env (suc i)) ss

abbrev pub removed_outputs : RemovedHosts → List Output
removed_outputs r =
    map (λ l. line l) r.lines
    ++ elim r.error [ none ↦ [] | some (s, e) ↦ could_not_remove s e ∷ [] ]

-- Close
unfoldable pub close_session : Shell → Shell
close_session s = record (print (text_outputs close_texts) s) {
  session = record s.session { closed = true };
}

-- RunE of `host remove all`.
abbrev pub removed_all : World → Option (List Line × Option Error) → Shell → Shell
removed_all w none s = record s { world = w; panicked = true }
removed_all w (some (lines, none)) s = print (map (λ l. line l) lines) (record s { world = w })
removed_all w (some (lines, some e)) s =
    print (map (λ l. line l) lines ++ failed e ∷ []) (record s { world = w })

module _ (unicode_lower : Text → Text) (hostname : Text) (build : Build) where
  -- Run and RunE of the commands.
  unfoldable pub run_action : Action → (ℕ → Env) → List Text → Shell → Shell
  unfolding firsttime_texts whoami_texts version_texts list_hosts add_hosts remove_hosts
      remove_all_hosts close_session Snippets.autossh Snippets.unitfile Snippets.forwards_command
      Access.access
  run_action firsttime env args s = print (text_outputs (firsttime_texts hostname)) s
  run_action close env args s = close_session s
  run_action forwards env args s = print (text_outputs (Snippets.forwards_command s.session)) s
  run_action autossh env args s = print (text_outputs (Snippets.autossh hostname s.session)) s
  run_action unitfile env args s = print (text_outputs (Snippets.unitfile hostname s.session)) s
  run_action list env args s =
      print (map (λ l. line l) (list_hosts s.session.peer s.world.router)) s
  run_action add env args s =
      let (world, lines) = add_hosts unicode_lower s.session.peer (with_envs env args) s.world in
      print (map (λ l. line l) lines) (record s { world = world })
  run_action remove env args s =
      let removed = remove_hosts s.session.peer (with_envs env args) s.world in
      print (removed_outputs removed) (record s { world = removed.world })
  run_action remove_all env args s =
      let (world, answer) = remove_all_hosts (env 0) s.session.peer s.world in
      removed_all world answer s
  run_action Action.access env args s =
      print (text_outputs (Access.access hostname s.session s.world.router)) s
  run_action whoami env args s = print (text_outputs (whoami_texts s.session.peer)) s
  run_action version env args s = print (text_outputs (version_texts build)) s

  abbrev pub obey : Verdict → (ℕ → Env) → Shell → Shell
  obey (only_prints ts) env s = print (text_outputs ts) s
  obey (calls_action a args) env s = run_action a env args s

  module _ (set : ℕ → Text → Option Text) (execute : Tree → List Text → Verdict × Tree) where
    -- `main.SetArgs(…)`, `main.Execute()` and `CommandReset(main)`
    unfoldable pub run_line : (ℕ → Env) → List Text → Shell → Shell
    unfolding run_action command_reset
    run_line env args s =
        let (verdict, parsed) = execute s.commands args in
        let ran = obey verdict env (record s { commands = parsed }) in
        let ready = record ran { commands = command_reset set ran.commands } in
        if s.panicked then s else ready

    -- The arguments of several lines, one after the other.
    unfoldable pub run_shell : List ((ℕ → Env) × List Text) → Shell → Shell
    unfolding run_line
    run_shell [] s = s
    run_shell ((env, args) ∷ lines) s = run_shell lines (run_line env args s)
