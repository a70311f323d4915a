-- ===== src/Commands/RemoveAll.antt =====
-- ssh/command/host/removeall.go and the list command of ssh/command/host.go.
use remotemoe.Prelude.{
  ◌≡◌, refl, sym, subst, List, [], ◌∷◌, none, some, Bool, true, map, In, inl, arith,
}
use remotemoe.Text.{Text, text_eq_iff}
use remotemoe.Route.{Peer, NamedRoute}
use remotemoe.Disk.{Env}
use remotemoe.Router.{Router, names}
use remotemoe.Router.Sweep.{remove_names}
use remotemoe.Router.IndexLaws.{names_of}
use remotemoe.Router.Emptied.{AllGo, remove_names_empties}
use remotemoe.Router.History.{World, IsValid, removes_all, step}
use remotemoe.Router.History.Valid.{step-IsValid, In-names_iff, names-names_of}
use remotemoe.Commands.{is_removed, no_hostnames, list_hosts, remove_all_hosts}

first_of_AllGo :
    (env : Env) (list : List NamedRoute)
    → AllGo env list
    → (n : NamedRoute) (ns : List NamedRoute) → list ≡ n ∷ ns
    → env.can_unlink n.name ≡ true
first_of_AllGo env [] a n ns e = cc
first_of_AllGo env (m ∷ ms) a n ns e = ground (arith, a.0, e)

no_names :
    (p : Peer) (r : Router) (list : List NamedRoute)
    → names p r ≡ list
    → ((n : NamedRoute) → In n (names p r) → ⊥)
    → list_hosts p r ≡ no_hostnames ∷ []
unfolding list_hosts
no_names p r [] e h = ground (arith, e)
no_names p r (n ∷ ns) e h = absurd (h n (subst (In n) (sym e) (inl refl)))

module _ (unicode_lower : Text → Text) (is_key : Text → Bool) where
  none_left :
      (w : World) (env : Env) (p : Peer)
      → IsValid unicode_lower is_key w
      → AllGo env (names_of p.fqdn w.router.name_index)
      → (n : NamedRoute) → In n (names p (remove_names env p w.router).0)
      → ⊥
  unfolding step
  none_left w env p v all n i =
      let after =
        step-IsValid unicode_lower is_key w (removes_all env p) v
          (λ m ms e. first_of_AllGo env _ all m ms e) in
      let (there, own) =
        (In-names_iff unicode_lower is_key (step unicode_lower w (removes_all env p)) p n after).0
          i in
      let gone = (remove_names_empties unicode_lower is_key w env p v all).1 n.name in
      ground (arith, gone, there, own, text_eq_iff n.owner p.fqdn)

  -- In a well-formed router, if all files of the caller's names can be removed, `host remove all`
  -- prints a line for each name that Names had, without an error, and `host list` then finds no name.
  pub remove_all_hosts_lem :
      (w : World) (env : Env) (p : Peer)
      → IsValid unicode_lower is_key w
      → AllGo env (names_of p.fqdn w.router.name_index)
      → ((remove_all_hosts env p w).1
          ≡ some (map (λ (n : NamedRoute). is_removed n.name) (names p w.router), none))
        × (list_hosts p (remove_all_hosts env p w).0.router ≡ no_hostnames ∷ [])
  unfolding remove_all_hosts
  remove_all_hosts_lem w env p v all = (
    rw ((remove_names_empties unicode_lower is_key w env p v all).0, names-names_of p w.router),
    no_names p (remove_names env p w.router).0 _ refl (none_left w env p v all),
  )
