-- ===== src/Shell/Typed.antt =====
-- ssh/console.go, ssh/defaultcmd.go and ssh/command/host/add.go with routertwo/router.go: a name that is
-- added over ssh leads to the session that added it.
use remotemoe.Prelude.{
  ℕ, suc, ◌≤◌, ◌≡◌, refl, ap, ◌∙◌, Bool, true, false, ◌||◌, ◌==◌, List, [], ◌∷◌, ◌++◌, map, Option,
  none, some, length, arith, if◌then◌else◌,
}
use remotemoe.Text.{Text, bytes, text_eq, text_eq_refl, text_eq_iff}
use remotemoe.Text.Fields.{Unicode, fields, is_blank}
use remotemoe.Text.Lower.{to_lower}
use remotemoe.Net.{join_host_port, contains}
use remotemoe.Net.RoundTrip.{IsPlain}
use remotemoe.Route.{Peer, Host, NamedRoute, host_route, name_route, new_name}
use remotemoe.Disk.{Env}
use remotemoe.Router.{ok, find}
use remotemoe.Router.Calls.{add_name}
use remotemoe.Router.Invariant.{IsSynced}
use remotemoe.Router.Effects.{stores}
use remotemoe.Router.Effects.Names.{takes, find-add_name}
use remotemoe.Router.Dial.{dial, reaches}
use remotemoe.Router.DialLaws.{dial-reaches_owner}
use remotemoe.Router.History.{World}
use remotemoe.Router.Spec.Single.{add_name-answer}
use remotemoe.Commands.{is_active, add_hosts}
use remotemoe.Console.Channel.{ChannelRequest, serve_requests, new_front, runs}
use remotemoe.Console.Channel.Laws.{first_program}
use remotemoe.Console.Loop.{Event, new_loop, loop_rounds, offered}
use remotemoe.Console.Loop.Laws.{commands_of, console_executes}
use remotemoe.Shell.Tree.{
  Action, add, Flag, Node, Tree, Forest, tree, no_trees, one_tree, default_cmd, session_cmd,
  host_cmd, remove_cmd, add_cmd,
}
use remotemoe.Shell.Texts.{Build}
use remotemoe.Shell.Run.{Shell, Verdict, calls_action, line, run_action, run_line, run_shell}

-- The command that cobra's Find documents: down the subcommands as long as the next word is the name
-- of one or an alias, and then the words that are left are its arguments.
abbrev pub is_called : Text → Node → Bool
is_called word n = text_eq n.name word || is_one_of n.aliases
  where
    is_one_of : List Text → Bool
    is_one_of [] = false
    is_one_of (a ∷ aliases) = text_eq a word || is_one_of aliases

abbrev pub find_next : Text → Forest → Option Tree
find_next word no_trees = none
find_next word (one_tree (tree n ts) us) =
    let rest = find_next word us in if is_called word n then some (tree n ts) else rest

abbrev pub descend : List Text → Tree → Node × List Text
descend [] (tree n ts) = (n, [])
descend (word ∷ args) (tree n ts) = elim (find_next word ts) [
  | none ↦ (n, word ∷ args)
  | some t ↦ descend args t
]

-- No word is a flag.
abbrev pub HasNoFlags : List Text → Type 0
HasNoFlags [] = Unit {0}
HasNoFlags ([] ∷ args) = HasNoFlags args
HasNoFlags ((c ∷ word) ∷ args) = ((c == b'-') ≡ false) × HasNoFlags args

-- Each list of arguments with what the outside has for its calls.
abbrev pub met_with : (ℕ → Env) → List (List Text) → List ((ℕ → Env) × List Text)
met_with env [] = []
met_with env (args ∷ more) = (env, args) ∷ met_with env more

abbrev pub host_add : Text → List Text
host_add x = bytes "host" ∷ bytes "add" ∷ x ∷ []

descend-host_add :
    (flags : List Flag) (x : Text)
    → descend (host_add x) (default_cmd flags) ≡ (
      record { name = bytes "add"; aliases = []; minimum_args = 1; run = some add; flags = flags },
      x ∷ [],
    )
unfolding default_cmd host_cmd add_cmd remove_cmd session_cmd text_eq
descend-host_add flags x = refl

module _ (unicode_lower : Text → Text) where
  -- A free name that can be stored.
  module _ (env : Env) (x : Text) (w : World) (p : Peer) (h : Host) (synced : IsSynced w.router)
      (free : find (to_lower unicode_lower x) w.router ≡ none) (can : stores env ≡ true)
      (online : find p.fqdn w.router ≡ some (host_route h)) where
    abbrev new : NamedRoute
    new = new_name unicode_lower w.next_ref x p

    takes-new : takes env new w.router ≡ true
    unfolding takes new_name
    takes-new = ground (arith, free, can)

    new_found :
        find (to_lower unicode_lower x) (add_name env new w.router).0
        ≡ some (name_route (record new { wired = true }))
    unfolding new_name
    new_found =
        ground
          (arith, find-add_name env new w.router synced new.name, takes-new, text_eq_refl new.name)

    host_found : find p.fqdn (add_name env new w.router).0 ≡ some (host_route h)
    unfolding new_name
    host_found = ground (
      arith,
      find-add_name env new w.router synced p.fqdn,
      takes-new,
      online,
      free,
      text_eq_iff new.name p.fqdn,
    )

    new_ok : (add_name env new w.router).1 ≡ ok tt
    unfolding new_name
    new_ok = ground (arith, add_name-answer env w.router synced new, free, can)

    new_line :
        (add_hosts unicode_lower p ((env, x) ∷ []) w).1 ≡ is_active (to_lower unicode_lower x) ∷ []
    unfolding add_hosts new_name
    new_line = rw new_ok

    new_world :
        (add_hosts unicode_lower p ((env, x) ∷ []) w).0.router ≡ (add_name env new w.router).0
    unfolding add_hosts
    new_world = refl

  module _ (hostname : Text) (build : Build) (set : ℕ → Text → Option Text)
      (execute : Tree → List Text → Verdict × Tree) where
    run_add :
        (env : ℕ → Env) (args : List Text) (x : Text) (s : Shell)
        → s.panicked ≡ false
        → (execute s.commands args).0 ≡ calls_action add (x ∷ [])
        → ((run_line unicode_lower hostname build set execute env args s).world
            ≡ (add_hosts unicode_lower s.session.peer ((env 0, x) ∷ []) s.world).0)
          × ((run_line unicode_lower hostname build set execute env args s).printed
              ≡ s.printed
                ++ map
                    (λ l. line l)
                    (add_hosts unicode_lower s.session.peer ((env 0, x) ∷ []) s.world).1)
    unfolding run_line run_action
    run_add env args x s q e = rw (q, e) (refl, refl)

    -- Over ssh, `host add` of a name: cobra calls the command that the names of a line without
    -- flags lead to, the first exec or shell is an exec of that line, and the goroutine of the
    -- console has found all that the channel of commands offers, in whatever order. If the name is
    -- free, the file can be written, and the session is online, then the console prints that the
    -- name is active, and a dial of the name reaches the session, with the port that was dialled,
    -- if the two names hold no bracket, and the port no bracket or colon.
    pub exec_host_add :
        (u : Unicode) (qs : List ChannelRequest) (es : List Event) (typed : List Text) (c x : Text)
        (flags : List Flag) (env : ℕ → Env) (s : Shell) (h : Host) (fuel : ℕ) (port : Text)
        → ((t : Tree) (args : List Text) (a : Action)
            → HasNoFlags args
            → (descend args t).0.run ≡ some a
            → (descend args t).0.minimum_args ≤ length (descend args t).1
            → (execute t args).0 ≡ calls_action a (descend args t).1)
        → first_program qs ≡ runs c
        → commands_of es ≡ offered (serve_requests qs new_front).0.program typed
        → is_blank u c ≡ false
        → fields u c ≡ host_add x
        → HasNoFlags (x ∷ [])
        → s.commands ≡ default_cmd flags
        → s.panicked ≡ false
        → IsSynced s.world.router
        → find (to_lower unicode_lower x) s.world.router ≡ none
        → stores (env 0) ≡ true
        → find s.session.peer.fqdn s.world.router ≡ some (host_route h)
        → h.routable ≡ some s.session.peer
        → IsPlain (to_lower unicode_lower x)
        → IsPlain s.session.peer.fqdn
        → IsPlain port
        → contains b':' port ≡ false
        → let end =
            run_shell unicode_lower hostname build set execute
              (met_with env (loop_rounds u es (new_loop s.session)).executed)
              s in
          (end.printed ≡ s.printed ++ line (is_active (to_lower unicode_lower x)) ∷ [])
          × (dial (suc (suc fuel)) end.world.router (join_host_port (to_lower unicode_lower x) port)
              ≡ some (reaches s.session.peer (join_host_port s.session.peer.fqdn port)))
    unfolding run_shell
    exec_host_add u qs es typed c x flags env s h fuel port cobra first came words words_c plain_x
          tree_e calm synced free can online routable plain plain_o plain_p colon =
        let executed : (loop_rounds u es (new_loop s.session)).executed ≡ host_add x ∷ [] =
          (console_executes u qs s.session es typed came).0
          ∙ rw first (ground (arith, words, words_c)) in
        let verdict : (execute s.commands (host_add x)).0 ≡ calls_action add (x ∷ []) = rw tree_e (
          cobra (default_cmd flags) (host_add x) add (refl, (refl, plain_x))
            (rw (descend-host_add flags x) refl) (rw (descend-host_add flags x) (omega arith))
          ∙ rw (descend-host_add flags x) refl) in
        let (world, printed) = run_add env (host_add x) x s calm verdict in
        rw executed (
          printed
              ∙ ap (λ l. s.printed ++ map (λ y. line y) l)
                  (new_line (env 0) x s.world s.session.peer h synced free can online),
          rw (world, new_world (env 0) x s.world s.session.peer h synced free can online)
              (dial-reaches_owner fuel _ (to_lower unicode_lower x) port _ h s.session.peer plain
                plain_o plain_p colon
                (new_found (env 0) x s.world s.session.peer h synced free can online) refl
                (host_found (env 0) x s.world s.session.peer h synced free can online) routable),
        )
