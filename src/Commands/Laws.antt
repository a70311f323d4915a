-- ===== src/Commands/Laws.antt =====
-- ssh/command/host: what the commands do in terms of the router's calls.
use remotemoe.Prelude.{
  ◌↔◌, ℕ, suc, ◌≡◌, refl, sym, ap, subst, List, [], ◌∷◌, Option, none, some, Bool, true, take,
  length, arith, inl, inr,
}
use remotemoe.Text.{Text, text_eq_iff, text_eq_refl}
use remotemoe.Router.Ownership.{NotBy, run-keeps_name}
use remotemoe.Router.History.{IsValid, AllAllowed}
use remotemoe.Router.History.Valid.{step-IsValid}
use remotemoe.Text.Lower.{to_lower}
use remotemoe.Route.{Peer, NamedRoute, Route, host_route, name_route, new_name}
use remotemoe.Disk.{Env}
use remotemoe.Router.{Result, ok, err}
use remotemoe.Router.Calls.{add_name, remove_name}
use remotemoe.Router.History.{World, Call, adds, removes, step, run}
use remotemoe.Commands.{Line, add_hosts, added, is_active, is_removed, RemovedHosts, remove_hosts}
use remotemoe.Router.{find}
use remotemoe.Router.Invariant.{IsSynced}
use remotemoe.Router.Effects.Names.{remove_name-IsSynced}
use remotemoe.Router.Answers.{belongs, add_name-ok_iff, remove_name_answer}
use remotemoe.Prelude.{In}

-- The calls of `host remove`.
abbrev pub removing : Peer → List (Env × Text) → List Call
removing p [] = []
removing p ((env, s) ∷ args) = removes env s p ∷ removing p args

abbrev pub asked : List (Env × Text) → List Line
asked [] = []
asked ((env, s) ∷ args) = is_removed s ∷ asked args

removed_inj : (a b : Text) → is_removed a ≡ is_removed b → a ≡ b
removed_inj a b e = cc

module _ (unicode_lower : Text → Text) (p : Peer) where
  abbrev pub Stops : List (Env × Text) → World → RemovedHosts → Type 0
  Stops args w t =
      (k : ℕ) × (t.lines ≡ take k (asked args))
      × (t.world ≡ run unicode_lower w (take (suc k) (removing p args)))
      × ((t.error ≡ none) ↔ (k ≡ length args))

  -- `host remove` removes names up to the first error: it prints a line for each name before that,
  -- it has made those calls and the one that failed, and there is no error exactly if no name is
  -- left.
  remove_hosts_stop : (args : List (Env × Text)) (w : World) → Stops args w (remove_hosts p args w)
  unfolding remove_hosts run step
  remove_hosts_stop [] w = (0, refl, refl, ground arith)
  remove_hosts_stop ((env, s) ∷ args) w =
      part (remove_name env s p w.router).1 refl
        (remove_hosts_stop args (record w { router = (remove_name env s p w.router).0 }))
    where
      part :
          (o : Result (Unit {0}))
          → (remove_name env s p w.router).1 ≡ o
          → Stops args
              (record w { router = (remove_name env s p w.router).0 })
              (remove_hosts p args (record w { router = (remove_name env s p w.router).0 }))
          → Stops ((env, s) ∷ args) w (remove_hosts p ((env, s) ∷ args) w)
      part (ok done) e (k, lines, world, all) =
          (suc k, rw e (ap (λ x. is_removed s ∷ x) lines), rw e world, ground (arith, e, all))
      part (err x) e rest = (0, rw e, rw e, ground (arith, e))

  remove_hosts-absent :
      (args : List (Env × Text)) (w : World) (k : Text)
      → IsSynced w.router
      → find k w.router ≡ none
      → find k (remove_hosts p args w).world.router ≡ none
  unfolding remove_hosts
  remove_hosts-absent [] w k s e = e
  remove_hosts-absent ((env, n) ∷ args) w k s e = part (remove_name env n p w.router).1 refl (
      remove_hosts-absent args (record w { router = (remove_name env n p w.router).0 }) k
        (remove_name-IsSynced env n p w.router s) still)
    where
      still : find k (remove_name env n p w.router).0 ≡ none
      still = ground (arith, (remove_name_answer env n p w.router s).1 k, e)

      part :
          (o : Result (Unit {0}))
          → (remove_name env n p w.router).1 ≡ o
          → find k
              (remove_hosts p args
                (record w { router = (remove_name env n p w.router).0 })).world.router
            ≡ none
          → find k (remove_hosts p ((env, n) ∷ args) w).world.router ≡ none
      part (ok done) q rest = rw q rest
      part (err x) q rest = rw q still

  -- `host remove` tells the truth: with both tables alike, a name that it prints as removed leads
  -- nowhere when it ends.
  pub remove_hosts-gone :
      (args : List (Env × Text)) (w : World) (k : Text)
      → IsSynced w.router
      → In (is_removed k) (remove_hosts p args w).lines
      → find k (remove_hosts p args w).world.router ≡ none
  unfolding remove_hosts
  remove_hosts-gone [] w k s i = absurd i
  remove_hosts-gone ((env, n) ∷ args) w k s i =
      part (remove_name env n p w.router).1 refl i (remove_name-IsSynced env n p w.router s)
        (remove_hosts-gone args (record w { router = (remove_name env n p w.router).0 }) k)
    where
      gone :
          (remove_name env n p w.router).1 ≡ ok tt → find n (remove_name env n p w.router).0 ≡ none
      gone q =
          let (same, all) = remove_name_answer env n p w.router s in
          ground (arith, all n, same.0 q, text_eq_refl n)

      part :
          (o : Result (Unit {0}))
          → (remove_name env n p w.router).1 ≡ o
          → In (is_removed k) (remove_hosts p ((env, n) ∷ args) w).lines
          → IsSynced (remove_name env n p w.router).0
          → (IsSynced (remove_name env n p w.router).0
              → In
                  (is_removed k)
                  (remove_hosts p args
                    (record w { router = (remove_name env n p w.router).0 })).lines
              → find k
                  (remove_hosts p args
                    (record w { router = (remove_name env n p w.router).0 })).world.router
                ≡ none)
          → find k (remove_hosts p ((env, n) ∷ args) w).world.router ≡ none
      part (err x) q j t ih = absurd (rw q at j)
      part (ok done) q j t ih = elim (rw q at j) [
        | inl e ↦ rw q (
            remove_hosts-absent args (record w { router = (remove_name env n p w.router).0 }) k t
              (subst (λ x. find x (remove_name env n p w.router).0 ≡ none) (sym (removed_inj k n e))
                (gone q)))
        | inr m ↦ rw q (ih t m)
      ]

-- The calls of `host add`.
abbrev pub adding : Peer → List (Env × Text) → List Call
adding p [] = []
adding p ((env, s) ∷ args) = adds env s p ∷ adding p args

active_inj : (a b : Text) → is_active a ≡ is_active b → a ≡ b
active_inj a b e = cc

belongs-eq-true :
    (o : Text) (t : Option Route)
    → belongs o t ≡ true
    → (n : NamedRoute) × (t ≡ some (name_route n)) × (n.owner ≡ o)
belongs-eq-true o none e = cc
belongs-eq-true o (some (host_route h)) e = cc
belongs-eq-true o (some (name_route n)) e = (n, refl, (text_eq_iff n.owner o).0 e)

module _ (unicode_lower : Text → Text) (p : Peer) where
  -- `host add` makes one call for each name, whatever the answers, and prints a line for each.
  pub add_hosts-run :
      (args : List (Env × Text)) (w : World)
      → ((add_hosts unicode_lower p args w).0 ≡ run unicode_lower w (adding p args))
        × (length (add_hosts unicode_lower p args w).1 ≡ length args)
  unfolding add_hosts run step
  add_hosts-run [] w = (refl, refl)
  add_hosts-run ((env, s) ∷ args) w =
      let (world, lines) = add_hosts-run args (step unicode_lower w (adds env s p)) in
      (world, ap suc lines)

  adding-NotBy : (o : Text) (args : List (Env × Text)) → NotBy o (adding p args)
  adding-NotBy o [] = tt
  adding-NotBy o ((env, s) ∷ args) = ((λ e. cc), adding-NotBy o args)

  module _ (is_key : Text → Bool) where
    -- `host add` tells the truth: in a well-formed router, if the command is allowed, a name that
    -- it prints as active leads to a name of the caller when it ends.
    pub add_hosts-active :
        (args : List (Env × Text)) (w : World) (k : Text)
        → IsValid unicode_lower is_key w
        → AllAllowed unicode_lower is_key w (adding p args)
        → In (is_active k) (add_hosts unicode_lower p args w).1
        → belongs p.fqdn (find k (add_hosts unicode_lower p args w).0.router) ≡ true
    unfolding add_hosts step new_name
    add_hosts-active [] w k v a i = absurd i
    add_hosts-active ((env, s) ∷ args) w k v a (inr i) =
        add_hosts-active args (step unicode_lower w (adds env s p)) k
          (step-IsValid unicode_lower is_key w (adds env s p) v a.0) a.1 i
    add_hosts-active ((env, s) ∷ args) w k v a (inl i) =
        part (add_name env (new_name unicode_lower w.next_ref s p) w.router).1 refl i
      where
        part :
            (o : Result (Unit {0}))
            → (add_name env (new_name unicode_lower w.next_ref s p) w.router).1 ≡ o
            → is_active k ≡ added unicode_lower p s (new_name unicode_lower w.next_ref s p) o
            → belongs p.fqdn (find k (add_hosts unicode_lower p ((env, s) ∷ args) w).0.router)
              ≡ true
        part (err e) q i = absurd (cc)
        part (ok done) q i =
            let mine =
              (add_name-ok_iff env (new_name unicode_lower w.next_ref s p) w.router v.synced).0 q in
            let (n, there, owned) = belongs-eq-true p.fqdn _ mine in
            let kept =
              run-keeps_name unicode_lower is_key (step unicode_lower w (adds env s p))
                (adding p args) (to_lower unicode_lower s) n
                (step-IsValid unicode_lower is_key w (adds env s p) v a.0) a.1
                (adding-NotBy n.owner args) there in
            let same : k ≡ to_lower unicode_lower s = active_inj k _ i in
            rw ((add_hosts-run args (step unicode_lower w (adds env s p))).0, same, kept, owned)
              (text_eq_refl p.fqdn)
