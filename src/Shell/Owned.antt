-- ===== src/Shell/Owned.antt =====
-- ssh/console.go and ssh/command: what the lines of a console can change of the routes of others.
use remotemoe.Prelude.{
  ◌≡◌, refl, sym, ap, ◌∙◌, subst, Bool, true, false, List, [], ◌∷◌, Option, none, some, inl, inr,
  ◌⊎◌, arith, Bool-cases, Option-cases, In,
}
use remotemoe.Text.{Text, text_eq, text_eq_iff, text_eq_refl}
use remotemoe.Route.{Peer, NamedRoute, Route, host_route, name_route, new_name}
use remotemoe.Dict.{lookup}
use remotemoe.Disk.{Env}
use remotemoe.Router.{find}
use remotemoe.Router.Sweep.{remove_names}
use remotemoe.Router.IndexLaws.{names_of, listed}
use remotemoe.Router.SweepLaws.{
  gone, is_name, find-remove_listed, remove_names_unlisted, remove_names_listed,
}
use remotemoe.Router.Effects.Names.{
  takes, find-add_name, taken_away, find-remove_name, taken_away-eq-some,
}
use remotemoe.Router.Ownership.{is_name-In, In-take}
use remotemoe.Router.History.{
  World, Call, onlines, offlines, removes_all, adds, removes, step, run, IsValid, Allowed,
  AllAllowed,
}
use remotemoe.Router.History.Valid.{step-IsValid}
use remotemoe.Shell.Callers.{NamesOnlyBy}

-- Nothing stands there, or a name of the owner.
abbrev pub is_free_or_of : Text → Option Route → Bool
is_free_or_of o none = true
is_free_or_of o (some (host_route h)) = false
is_free_or_of o (some (name_route n)) = text_eq n.owner o

-- The same route, or free for the owner, or his, before and after.
abbrev pub KeptOrOwn : Text → Option Route → Option Route → Type 0
KeptOrOwn o a b = (b ≡ a) ⊎ ((is_free_or_of o a ≡ true) × (is_free_or_of o b ≡ true))

pub KeptOrOwn-trans :
    (o : Text) (a b c : Option Route) → KeptOrOwn o a b → KeptOrOwn o b c → KeptOrOwn o a c
KeptOrOwn-trans o a b c (inl e) (inl f) = inl (f ∙ e)
KeptOrOwn-trans o a b c (inl e) (inr (f, g)) = inr (subst (λ x. is_free_or_of o x ≡ true) e f, g)
KeptOrOwn-trans o a b c (inr (e, f)) (inl g) =
    inr (e, subst (λ x. is_free_or_of o x ≡ true) (sym g) f)
KeptOrOwn-trans o a b c (inr (e, f)) (inr (g, h)) = inr (e, h)

module _ (unicode_lower : Text → Text) (is_key : Text → Bool) where
  module _ (w : World) (v : IsValid unicode_lower is_key w) (k : Text) (p : Peer) where
    adds-own :
        (env : Env) (s : Text)
        → KeptOrOwn p.fqdn (find k w.router) (find k (step unicode_lower w (adds env s p)).router)
    unfolding step takes new_name
    adds-own env s =
        let n = new_name unicode_lower w.next_ref s p in
        let law = find-add_name env n w.router v.synced k in
        elim (Bool-cases (takes env n w.router)) [
          | inl yes_taken ↦ elim (Bool-cases (text_eq n.name k)) [
            | inl here ↦ inr (
              ground (arith, yes_taken, here, text_eq_iff n.name k),
              ground (arith, law, yes_taken, here, text_eq_refl p.fqdn),
            )
            | inr other ↦ inl (ground (arith, law, yes_taken, other))
          ]
          | inr not_taken ↦ inl (ground (arith, law, not_taken))
        ]

    removes-own :
        (env : Env) (s : Text)
        → KeptOrOwn p.fqdn
            (find k w.router)
            (find k (step unicode_lower w (removes env s p)).router)
    unfolding step
    removes-own env s =
        let law = find-remove_name env s p w.router v.synced k in
        elim (Option-cases (taken_away env s p w.router)) [
          | inl nothing ↦ inl (ground (arith, law, nothing))
          | inr (n, taken) ↦
              let (there, own) = taken_away-eq-some env s p w.router n taken in
              elim (Bool-cases (text_eq s k)) [
                | inl here ↦ inr (
                  ground (arith, there, own, text_eq_iff s k, here, text_eq_iff n.owner p.fqdn),
                  ground (arith, law, taken, here),
                )
                | inr other ↦ inl (ground (arith, law, taken, other))
              ]
        ]

    mine_of_listed :
        (n : NamedRoute)
        → In n (names_of p.fqdn w.router.name_index)
        → n.name ≡ k
        → is_free_or_of p.fqdn (find k w.router) ≡ true
    mine_of_listed n i e =
        let there = v.indexed.routed p.fqdn n i in
        let own = v.indexed.owner p.fqdn n i in
        ground (arith, there, own, e, text_eq_iff n.owner p.fqdn)

    removes_all-own :
        (env : Env)
        → Allowed unicode_lower is_key w (removes_all env p)
        → (o : Option (List NamedRoute)) → lookup p.fqdn w.router.name_index ≡ o
        → KeptOrOwn p.fqdn (find k w.router) (find k (remove_names env p w.router).0)
    removes_all-own env a none e = inl (rw (remove_names_unlisted env p w.router e))
    removes_all-own env a (some []) e = absurd (v.trim p.fqdn e)
    removes_all-own env a (some (n ∷ ns)) e =
        let law = find-remove_listed env p n ns w.router (a n ns (ap listed e)) v.synced k in
        elim (Bool-cases (is_name k (gone env (n ∷ ns)))) [
          | inl named ↦
              let (m, i, q) = is_name-In k (gone env (n ∷ ns)) named in
              inr (
                mine_of_listed m (subst (In m) (sym (ap listed e)) (In-take _ m (n ∷ ns) i)) q,
                rw (remove_names_listed env p w.router (n ∷ ns) e, law, named),
              )
          | inr unnamed ↦ inl (rw (remove_names_listed env p w.router (n ∷ ns) e, law, unnamed))
        ]

  -- A call of the caller, and what the calls after it keep.
  module _ (w : World) (p : Peer) (c : Call) (cs : List Call) (k : Text) where
    one_more :
        KeptOrOwn p.fqdn (find k w.router) (find k (step unicode_lower w c).router)
        → KeptOrOwn p.fqdn
            (find k (step unicode_lower w c).router)
            (find k (run unicode_lower (step unicode_lower w c) cs).router)
        → KeptOrOwn p.fqdn (find k w.router) (find k (run unicode_lower w (c ∷ cs)).router)
    unfolding run
    one_more first rest = KeptOrOwn-trans p.fqdn _ _ _ first rest

  own_as :
      (w : World) (p q : Peer) (c : Call) (k : Text)
      → q ≡ p
      → KeptOrOwn q.fqdn (find k w.router) (find k (step unicode_lower w c).router)
      → KeptOrOwn p.fqdn (find k w.router) (find k (step unicode_lower w c).router)
  own_as w p q c k e o =
      subst
        (λ (x : Peer). KeptOrOwn x.fqdn (find k w.router) (find k (step unicode_lower w c).router))
        e o

  step-own :
      (w : World) (p : Peer) (c : Call) (k : Text)
      → NamesOnlyBy p (c ∷ [])
      → IsValid unicode_lower is_key w
      → Allowed unicode_lower is_key w c
      → KeptOrOwn p.fqdn (find k w.router) (find k (step unicode_lower w c).router)
  unfolding step
  step-own w p (onlines env q) k b v a = absurd b
  step-own w p (offlines env q) k b v a = absurd b
  step-own w p (removes_all env q) k b v a =
      own_as w p q (removes_all env q) k b.0 (removes_all-own w v k q env a _ refl)
  step-own w p (adds env s q) k b v a = own_as w p q (adds env s q) k b.0 (adds-own w v k q env s)
  step-own w p (removes env s q) k b v a =
      own_as w p q (removes env s q) k b.0 (removes-own w v k q env s)

  head_by : (p : Peer) (c : Call) (cs : List Call) → NamesOnlyBy p (c ∷ cs) → NamesOnlyBy p (c ∷ [])
  head_by p (onlines env q) cs b = b
  head_by p (offlines env q) cs b = b
  head_by p (removes_all env q) cs b = (b.0, tt)
  head_by p (adds env s q) cs b = (b.0, tt)
  head_by p (removes env s q) cs b = (b.0, tt)

  tail_by : (p : Peer) (c : Call) (cs : List Call) → NamesOnlyBy p (c ∷ cs) → NamesOnlyBy p cs
  tail_by p (onlines env q) cs b = absurd b
  tail_by p (offlines env q) cs b = absurd b
  tail_by p (removes_all env q) cs b = b.1
  tail_by p (adds env s q) cs b = b.1
  tail_by p (removes env s q) cs b = b.1

  -- What a caller does with names leaves the routes of others alone.
  pub run-own :
      (w : World) (p : Peer) (cs : List Call) (k : Text)
      → NamesOnlyBy p cs
      → IsValid unicode_lower is_key w
      → AllAllowed unicode_lower is_key w cs
      → KeptOrOwn p.fqdn (find k w.router) (find k (run unicode_lower w cs).router)
  unfolding run
  run-own w p [] k b v a = inl refl
  run-own w p (c ∷ cs) k b v a = one_more w p c cs k (step-own w p c k (head_by p c cs b) v a.0) (
      run-own (step unicode_lower w c) p cs k (tail_by p c cs b)
        (step-IsValid unicode_lower is_key w c v a.0) a.1)
