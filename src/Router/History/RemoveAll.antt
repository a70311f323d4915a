-- ===== src/Router/History/RemoveAll.antt =====
-- routertwo/router.go: RemoveNames keeps the router well formed, unless the first file stays.
use remotemoe.Prelude.{
  ◌≡◌, refl, sym, subst, ap, ◌∙◌, List, [], ◌∷◌, ◌++◌, Option, none, some, Bool, true, arith,
  if◌then◌else◌, In, inl, drop, take-append-drop,
}
use remotemoe.Text.{Text, text_eq_refl}
use remotemoe.Route.{Peer, NamedRoute}
use remotemoe.Disk.{Env}
use remotemoe.Dict.{lookup}
use remotemoe.Router.{Index, reduce_index}
use remotemoe.Router.Sweep.{remove_names, remove_listed}
use remotemoe.Router.IndexLaws.{
  listed, names_of, names_of-reduce_index, IsTrim, reduce_index-IsTrim,
}
use remotemoe.Router.Indexes.{View, Indexes, keep-Indexes, remove-Indexes}
use remotemoe.Router.Effects.{erased}
use remotemoe.Router.SweepLaws.{
  removable, gone, reduce_all, is_name, name_index-remove_listed, find-remove_listed,
  remove_listed-IsSynced, remove_names_unlisted, remove_names_listed,
}
use remotemoe.Router.History.{World, removes_all, step, IsValid, Allowed}

reduce_all-IsTrim :
    (o : Text) (ns : List NamedRoute) (idx : Index) → IsTrim idx → IsTrim (reduce_all o ns idx)
reduce_all-IsTrim o [] idx t = t
reduce_all-IsTrim o (n ∷ ns) idx t =
    reduce_all-IsTrim o ns (reduce_index o n idx) (reduce_index-IsTrim o n idx t)

-- The index follows when the first names of an owner go, one by one.
reduce_all-Indexes :
    (o : Text) (pre post : List NamedRoute) (v w : View) (idx : Index)
    → Indexes v idx
    → names_of o idx ≡ pre ++ post
    → ((k : Text) → w k ≡ (if is_name k pre then none else v k))
    → Indexes w (reduce_all o pre idx) × (names_of o (reduce_all o pre idx) ≡ post)
reduce_all-Indexes o [] post v w idx h e law =
    (keep-Indexes v w idx (λ k n. ground (arith, law k)) h, e)
reduce_all-Indexes o (n ∷ pre) post v w idx h e law =
    reduce_all-Indexes o pre post (λ k. erased n.name k (v k)) w (reduce_index o n idx)
      (subst (λ x. Indexes (λ k. erased n.name k (v k)) (reduce_index x n idx)) (h.owner o n here)
        (remove-Indexes v _ idx n h (h.routed o n here) (λ k. refl)))
      (ground (arith, names_of-reduce_index o idx o n, e, text_eq_refl o))
      (λ k. ground (arith, law k))
  where
    here : In n (names_of o idx)
    here = subst (In n) (sym e) (inl refl)

module _ (unicode_lower : Text → Text) (is_key : Text → Bool) where
  module _ (w : World) (v : IsValid unicode_lower is_key w) (env : Env) (p : Peer) where
    listed-IsValid :
        (n : NamedRoute) (ns : List NamedRoute)
        → lookup p.fqdn w.router.name_index ≡ some (n ∷ ns)
        → env.can_unlink n.name ≡ true
        → IsValid unicode_lower is_key
            (record w { router = (remove_listed env p (n ∷ ns) w.router).0 })
    listed-IsValid n ns e first = record {
      synced = remove_listed-IsSynced env p n ns w.router first v.synced;
      trim =
          subst IsTrim (sym (name_index-remove_listed env p n ns w.router first))
            (reduce_all-IsTrim p.fqdn (gone env (n ∷ ns)) w.router.name_index v.trim);
      indexed =
          subst (Indexes _) (sym (name_index-remove_listed env p n ns w.router first))
            (reduce_all-Indexes p.fqdn (gone env (n ∷ ns)) (drop (removable env (n ∷ ns)) (n ∷ ns))
              _ _ w.router.name_index v.indexed
              (ap listed e ∙ sym (take-append-drop (removable env (n ∷ ns)) (n ∷ ns)))
              (find-remove_listed env p n ns w.router first v.synced)).0;
      hosts = λ k h there.
          ground (arith, find-remove_listed env p n ns w.router first v.synced k, v.hosts k h);
      names = λ k m there.
          ground (arith, find-remove_listed env p n ns w.router first v.synced k, v.names k m);
    }

    pub removes_all-IsValid :
        Allowed unicode_lower is_key w (removes_all env p)
        → IsValid unicode_lower is_key (step unicode_lower w (removes_all env p))
    unfolding step
    removes_all-IsValid allowed = part (lookup p.fqdn w.router.name_index) refl
      where
        part :
            (o : Option (List NamedRoute))
            → lookup p.fqdn w.router.name_index ≡ o
            → IsValid unicode_lower is_key (record w { router = (remove_names env p w.router).0 })
        part none e = rw (remove_names_unlisted env p w.router e) v
        part (some []) e = absurd (v.trim p.fqdn e)
        part (some (n ∷ ns)) e =
            rw (remove_names_listed env p w.router (n ∷ ns) e)
              (listed-IsValid n ns e (allowed n ns (ap listed e)))
