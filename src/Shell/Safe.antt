-- ===== src/Shell/Safe.antt =====
-- ssh/console.go and ssh/command: whatever is typed, the routes of others stay and the commands are ready for
-- the next line.
use remotemoe.Prelude.{
  ℕ, ◌≡◌, refl, sym, ◌∙◌, subst, Bool, Bool-cases, true, false, List, [], ◌∷◌, Option, none, some,
  inl, inr, arith,
}
use remotemoe.Text.{Text}
use remotemoe.Route.{Peer}
use remotemoe.Disk.{Env}
use remotemoe.Router.{Error, find}
use remotemoe.Router.Sweep.{Removed}
use remotemoe.Router.History.{World, Call, run, IsValid, AllAllowed}
use remotemoe.Router.History.Valid.{run-IsValid}
use remotemoe.Router.Spec.{took_away, removal}
use remotemoe.Router.Spec.All.{remove_names_obeys}
use remotemoe.Commands.{Line, remove_all_hosts, removed_answer}
use remotemoe.Shell.Tree.{
  Tree, firsttime, close, forwards, autossh, unitfile, list, add, remove, remove_all, access,
  whoami, version,
}
use remotemoe.Shell.Reset.{IsSettable, IsAtDefault, command_reset, command_reset_lem}
use remotemoe.Shell.Texts.{Build}
use remotemoe.Shell.Run.{
  Shell, Verdict, calls_action, only_prints, run_action, obey, run_line, run_shell, close_session,
  removed_all,
}
use remotemoe.Shell.Calls.{calls_of, SameSession, obey-world}
use remotemoe.Shell.Callers.{calls_of-NamesOnlyBy}
use remotemoe.Shell.Owned.{KeptOrOwn, KeptOrOwn-trans, run-own}

-- RemoveNames answers.
answered :
    (o : Option Removed) (ns : List Text) (b : Bool)
    → removal o ≡ took_away ns b
    → (r : Removed) × (o ≡ some r)
answered none ns b e = cc
answered (some r) ns b e = (r, refl)

module _ (unicode_lower : Text → Text) (hostname : Text) (build : Build)
    (set : ℕ → Text → Option Text) (execute : Tree → List Text → Verdict × Tree) where
  abbrev one : (ℕ → Env) → List Text → Shell → Shell
  one = run_line unicode_lower hostname build set execute

  abbrev obeyed : Verdict → (ℕ → Env) → Shell → Shell
  obeyed = obey unicode_lower hostname build

  -- The calls of a line.
  abbrev pub line_calls : (ℕ → Env) → List Text → Shell → List Call
  line_calls env args s =
      calls_of unicode_lower (execute s.commands args).0 env s.session.peer s.world

  -- The calls of each line are allowed when it comes.
  abbrev pub AllTypable : (Text → Bool) → Shell → List ((ℕ → Env) × List Text) → Type 0
  AllTypable is_key s [] = Unit {0}
  AllTypable is_key s ((env, args) ∷ lines) =
      AllAllowed unicode_lower is_key s.world (line_calls env args s)
      × AllTypable is_key (run_line unicode_lower hostname build set execute env args s) lines

  all_answered :
      (a : Option Removed) (w : World) (s : Shell)
      → ((r : Removed) × (a ≡ some r))
      → (removed_all w (removed_answer a) s).panicked ≡ s.panicked
  all_answered none w s (r, e) = cc
  all_answered (some a) w s e = answered_all a.error a refl
    where
      answered_all :
          (e : Option Error) (b : Removed)
          → b.error ≡ e
          → (removed_all w (removed_answer (some b)) s).panicked ≡ s.panicked
      answered_all none b e = rw e refl
      answered_all (some x) b e = rw e refl

  -- An allowed command does not panic, and leaves the commands as they are.
  obey-panicked :
      (is_key : Text → Bool) (v : Verdict) (env : ℕ → Env) (s : Shell)
      → IsValid unicode_lower is_key s.world
      → AllAllowed unicode_lower is_key s.world
          (calls_of unicode_lower v env s.session.peer s.world)
      → (obeyed v env s).panicked ≡ s.panicked
  unfolding run_action remove_all_hosts close_session
  obey-panicked is_key (only_prints ts) env s v a = refl
  obey-panicked is_key (calls_action add args) env s v a = refl
  obey-panicked is_key (calls_action remove args) env s v a = refl
  obey-panicked is_key (calls_action remove_all args) env s v a =
      let (ns, b, e, rest) =
        remove_names_obeys unicode_lower is_key s.world v (env 0) s.session.peer a.0 in
      all_answered _ _ s (answered _ ns b e)
  obey-panicked is_key (calls_action firsttime args) env s v a = refl
  obey-panicked is_key (calls_action close args) env s v a = refl
  obey-panicked is_key (calls_action forwards args) env s v a = refl
  obey-panicked is_key (calls_action autossh args) env s v a = refl
  obey-panicked is_key (calls_action unitfile args) env s v a = refl
  obey-panicked is_key (calls_action list args) env s v a = refl
  obey-panicked is_key (calls_action access args) env s v a = refl
  obey-panicked is_key (calls_action whoami args) env s v a = refl
  obey-panicked is_key (calls_action version args) env s v a = refl

  all_commands :
      (w : World) (a : Option (List Line × Option Error)) (s : Shell)
      → (removed_all w a s).commands ≡ s.commands
  all_commands w none s = refl
  all_commands w (some (lines, none)) s = refl
  all_commands w (some (lines, some e)) s = refl

  obey-commands : (v : Verdict) (env : ℕ → Env) (s : Shell) → (obeyed v env s).commands ≡ s.commands
  unfolding run_action close_session
  obey-commands (only_prints ts) env s = refl
  obey-commands (calls_action add args) env s = refl
  obey-commands (calls_action remove args) env s = refl
  obey-commands (calls_action remove_all args) env s = all_commands _ _ s
  obey-commands (calls_action firsttime args) env s = refl
  obey-commands (calls_action close args) env s = refl
  obey-commands (calls_action forwards args) env s = refl
  obey-commands (calls_action autossh args) env s = refl
  obey-commands (calls_action unitfile args) env s = refl
  obey-commands (calls_action list args) env s = refl
  obey-commands (calls_action access args) env s = refl
  obey-commands (calls_action whoami args) env s = refl
  obey-commands (calls_action version args) env s = refl

  -- What a line leaves.
  pub run_line_lem :
      (env : ℕ → Env) (args : List Text) (s : Shell)
      → s.panicked ≡ false
      → ((one env args s).world ≡ run unicode_lower s.world (line_calls env args s))
        × SameSession s (one env args s)
        × ((one env args s).panicked
            ≡ (obeyed
                (execute s.commands args).0
                env
                (record s { commands = (execute s.commands args).1 })).panicked)
  unfolding run_line
  run_line_lem env args s e =
      let (world, peer) =
        obey-world unicode_lower hostname build (execute s.commands args).0 env
          (record s { commands = (execute s.commands args).1 }) in
      ground (arith, e, world, peer.0, peer.1)

  -- Whatever cobra makes of the lines of a console: if their calls are allowed, no command panics,
  -- the router stays well formed, and each route is kept, unless it was free or the session's
  -- own name, and then it is so afterwards.
  pub typed_keeps_others :
      (is_key : Text → Bool) (s : Shell) (lines : List ((ℕ → Env) × List Text))
      → IsValid unicode_lower is_key s.world
      → s.panicked ≡ false
      → AllTypable is_key s lines
      → IsValid unicode_lower is_key
          (run_shell unicode_lower hostname build set execute lines s).world
        × ((run_shell unicode_lower hostname build set execute lines s).panicked ≡ false)
        × ((k : Text)
            → KeptOrOwn s.session.peer.fqdn
                (find k s.world.router)
                (find k (run_shell unicode_lower hostname build set execute lines s).world.router))
  unfolding run_shell
  typed_keeps_others is_key s [] v q a = (v, q, λ k. inl refl)
  typed_keeps_others is_key s ((env, args) ∷ lines) v q a =
      let (world, same, quiet) = run_line_lem env args s q in
      let peer = same.0 in
      let calls = line_calls env args s in
      let valid : IsValid unicode_lower is_key (one env args s).world =
        subst (IsValid unicode_lower is_key) (sym world)
          (run-IsValid unicode_lower is_key s.world calls v a.0) in
      let calm : (one env args s).panicked ≡ false =
        quiet
        ∙ obey-panicked is_key (execute s.commands args).0 env
            (record s { commands = (execute s.commands args).1 }) v a.0
        ∙ q in
      let (end, still, rest) = typed_keeps_others is_key (one env args s) lines valid calm a.1 in
      (
        end,
        still,
        λ k.
            KeptOrOwn-trans s.session.peer.fqdn _ _ _
              (subst
                (λ (w : World).
                  KeptOrOwn s.session.peer.fqdn (find k s.world.router) (find k w.router))
                (sym world)
                (run-own unicode_lower is_key s.world s.session.peer calls k
                  (calls_of-NamesOnlyBy unicode_lower (execute s.commands args).0 env s.session.peer
                    s.world)
                  v a.0))
              (subst
                (λ (p : Peer). KeptOrOwn p.fqdn (find k (one env args s).world.router) (
                  find k
                    (run_shell unicode_lower hostname build set execute lines
                      (one env args s)).world.router))
                peer (rest k)),
      )

  line-commands :
      (env : ℕ → Env) (args : List Text) (s : Shell)
      → s.panicked ≡ false
      → (one env args s).commands ≡ command_reset set (execute s.commands args).1
  unfolding run_line
  line-commands env args s calm =
      let kept =
        obey-commands (execute s.commands args).0 env
          (record s { commands = (execute s.commands args).1 }) in
      ground (arith, calm, kept)

  line-panicked :
      (env : ℕ → Env) (args : List Text) (s : Shell)
      → s.panicked ≡ true
      → (one env args s).commands ≡ s.commands
  unfolding run_line
  line-panicked env args s e = ground (arith, e)

  line-AtDefault :
      (env : ℕ → Env) (args : List Text) (s : Shell)
      → IsSettable set (execute s.commands args).1
      → IsAtDefault s.commands × IsSettable set s.commands
      → IsAtDefault (one env args s).commands × IsSettable set (one env args s).commands
  line-AtDefault env args s after d = elim (Bool-cases s.panicked) [
    | inl e ↦ subst (λ t. IsAtDefault t × IsSettable set t) (sym (line-panicked env args s e)) d
    | inr calm ↦
        subst (λ t. IsAtDefault t × IsSettable set t) (sym (line-commands env args s calm))
          (command_reset_lem set (execute s.commands args).1 after)
  ]

  -- Each line finds all flags of all commands at the values of their defaults, if the first one does,
  -- and Set makes of the text of each default that default. Execute may change the commands in any way
  -- that keeps this of the texts: it may set flags, mark them as changed, and add commands.
  pub flags_restored :
      (s : Shell) (lines : List ((ℕ → Env) × List Text))
      → ((t : Tree) (args : List Text) → IsSettable set t → IsSettable set (execute t args).1)
      → IsSettable set s.commands
      → IsAtDefault s.commands
      → IsAtDefault (run_shell unicode_lower hostname build set execute lines s).commands
  unfolding run_shell
  flags_restored s [] keeps settable d = d
  flags_restored s ((env, args) ∷ lines) keeps settable d =
      let (at_default, still) =
        line-AtDefault env args s (keeps s.commands args settable) (d, settable) in
      flags_restored (one env args s) lines keeps still at_default
