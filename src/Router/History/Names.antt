-- ===== src/Router/History/Names.antt =====
-- routertwo/router.go: AddName, RemoveName and RemoveNames keep the router well formed.
use remotemoe.Prelude.{
  ◌≡◌, sym, subst, ◌∙◌, Bool-cases, Option-cases, none, Bool, true, false, arith, ◌≢◌, In, inl, inr,
}
use remotemoe.Text.{Text, text_eq_iff}
use remotemoe.Text.Lower.{to_lower}
use remotemoe.Route.{Peer, NamedRoute, new_name}
use remotemoe.Disk.{Env}
use remotemoe.Router.{Router, find}
use remotemoe.Router.Calls.{add_name, remove_name}
use remotemoe.Router.IndexLaws.{names_of, IsTrim, index-IsTrim, reduce_index-IsTrim}
use remotemoe.Router.Indexes.{Indexes, keep-Indexes, add-Indexes, remove-Indexes}
use remotemoe.Router.Effects.Names.{
  takes, find-add_name, add_name-IsSynced, name_index-add_name, taken_away, taken_away-eq-some,
  remove_name-IsSynced, find-remove_name, name_index-remove_name,
}
use remotemoe.Router.History.{World, adds, removes, step, IsValid}

module _ (unicode_lower : Text → Text) (is_key : Text → Bool) where
  module _ (w : World) (v : IsValid unicode_lower is_key w) (env : Env) (p : Peer) where
    -- AddName of a new name; its address is new too.
    module _ (s : Text) (own : is_key p.fqdn ≡ true)
        (other : is_key (to_lower unicode_lower s) ≡ false) where
      abbrev new : NamedRoute
      new = new_name unicode_lower w.next_ref s p

      abbrev wired : NamedRoute
      wired = record new { wired = true }

      abbrev added : Router
      added = (add_name env new w.router).0

      wired_fresh :
          (o : Text) (m : NamedRoute) → In m (names_of o w.router.name_index) → m.ref ≢ wired.ref
      unfolding new_name
      wired_fresh o m i e = absurd (omega (arith, (v.names m.name m (v.indexed.routed o m i)).3))

      takes-absent : takes env new w.router ≡ true → find new.name w.router ≡ none
      unfolding takes
      takes-absent h = ground arith

      added-Indexes : Indexes (λ k. find k added) added.name_index
      added-Indexes = elim (Bool-cases (takes env new w.router)) [
        | inl yes_taken ↦
            subst (Indexes (λ k. find k added))
              (sym (name_index-add_name env new w.router v.synced ∙ rw yes_taken))
              (add-Indexes _ _ w.router.name_index wired v.indexed (takes-absent yes_taken)
                wired_fresh (λ k. find-add_name env new w.router v.synced k ∙ rw yes_taken))
        | inr not_taken ↦
            subst (Indexes (λ k. find k added))
              (sym (name_index-add_name env new w.router v.synced ∙ rw not_taken))
              (keep-Indexes _ _ w.router.name_index
                (λ k n. ground (arith, not_taken, find-add_name env new w.router v.synced k))
                v.indexed)
      ]

      added-IsTrim : IsTrim added.name_index
      added-IsTrim = elim (Bool-cases (takes env new w.router)) [
        | inl yes_taken ↦
            subst IsTrim (sym (name_index-add_name env new w.router v.synced ∙ rw yes_taken))
              (index-IsTrim wired w.router.name_index v.trim)
        | inr not_taken ↦
            subst IsTrim (sym (name_index-add_name env new w.router v.synced ∙ rw not_taken)) v.trim
      ]

      pub adds-IsValid : IsValid unicode_lower is_key (step unicode_lower w (adds env s p))
      unfolding step new_name
      adds-IsValid = record {
        synced = add_name-IsSynced env new w.router v.synced;
        trim = added-IsTrim;
        indexed = added-Indexes;
        hosts = λ k h e. ground (arith, find-add_name env new w.router v.synced k, v.hosts k h);
        names = λ k n e. ground (
          arith,
          find-add_name env new w.router v.synced k,
          text_eq_iff new.name k,
          v.names k n,
          own,
          other,
        );
      }

    -- RemoveName.
    module _ (s : Text) where
      abbrev after : Router
      after = (remove_name env s p w.router).0

      removed-Indexes : Indexes (λ k. find k after) after.name_index
      removed-Indexes = elim (Option-cases (taken_away env s p w.router)) [
        | inl kept ↦
            subst (Indexes (λ k. find k after))
              (sym (name_index-remove_name env s p w.router v.synced ∙ rw kept))
              (keep-Indexes _ _ w.router.name_index
                (λ k n. ground (arith, kept, find-remove_name env s p w.router v.synced k))
                v.indexed)
        | inr (n, went) ↦
            let (there, own) = taken_away-eq-some env s p w.router n went in
            let spelt : n.name ≡ s = v.indexed.keyed s n there in
            subst (Indexes (λ k. find k after))
              (sym (name_index-remove_name env s p w.router v.synced ∙ rw (went, own)))
              (remove-Indexes _ _ w.router.name_index n v.indexed
                (v.indexed.routed n.owner n (v.indexed.complete s n there))
                (λ k. find-remove_name env s p w.router v.synced k ∙ rw (went, spelt)))
      ]

      removed-IsTrim : IsTrim after.name_index
      removed-IsTrim = elim (Option-cases (taken_away env s p w.router)) [
        | inl kept ↦
            subst IsTrim (sym (name_index-remove_name env s p w.router v.synced ∙ rw kept)) v.trim
        | inr (n, went) ↦
            subst IsTrim (sym (name_index-remove_name env s p w.router v.synced ∙ rw went))
              (reduce_index-IsTrim p.fqdn n w.router.name_index v.trim)
      ]

      pub removes-IsValid : IsValid unicode_lower is_key (step unicode_lower w (removes env s p))
      unfolding step
      removes-IsValid = record {
        synced = remove_name-IsSynced env s p w.router v.synced;
        trim = removed-IsTrim;
        indexed = removed-Indexes;
        hosts = λ k h e. ground (arith, find-remove_name env s p w.router v.synced k, v.hosts k h);
        names = λ k n e. ground (arith, find-remove_name env s p w.router v.synced k, v.names k n);
      }
