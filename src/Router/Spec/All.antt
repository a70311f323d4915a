-- ===== src/Router/Spec/All.antt =====
-- routertwo/router.go: RemoveNames does in the tables what the registry promises.
use remotemoe.Prelude.{
  ◌≡◌, refl, sym, ◌∙◌, subst, ap, List, [], ◌∷◌, Option, none, some, Bool, true, false, inl, inr,
  arith, In, length, ltb, if◌then◌else◌, Bool-cases,
}
use remotemoe.Text.{Text}
use remotemoe.Dict.{lookup}
use remotemoe.Route.{Peer, NamedRoute}
use remotemoe.Disk.{Env}
use remotemoe.Router.{find}
use remotemoe.Router.Sweep.{remove_names}
use remotemoe.Router.IndexLaws.{names_of, listed}
use remotemoe.Router.SweepLaws.{removable, gone, is_name, remove_names_unlisted}
use remotemoe.Router.Emptied.{remove_names_answer}
use remotemoe.Router.History.{World, IsValid, removes_all, Allowed}
use remotemoe.Router.Spec.{
  alias, Registry, is_alias_of, TakesAway, registry, name_texts, removal, took_away,
}
use remotemoe.Router.Spec.Gone.{
  routed_of_target, target_of_alias, is_name_of_text, text_of_is_name, In-gone, first_stuck,
  all_gone,
}

module _ (unicode_lower : Text → Text) (is_key : Text → Bool) (w : World)
    (v : IsValid unicode_lower is_key w) (env : Env) (p : Peer) where
  -- The caller's names in the registry are those of the index.
  listed_of_alias :
      (k : Text)
      → registry w.router k ≡ some (alias p.fqdn)
      → (n : NamedRoute) × In n (names_of p.fqdn w.router.name_index) × (n.name ≡ k)
  listed_of_alias k e =
      let (n, there, own) = routed_of_target p.fqdn (find k w.router) e in
      (
        n,
        subst (λ o. In n (names_of o w.router.name_index)) own (v.indexed.complete k n there),
        v.indexed.keyed k n there,
      )

  alias_of_listed :
      (n : NamedRoute)
      → In n (names_of p.fqdn w.router.name_index)
      → registry w.router n.name ≡ some (alias p.fqdn)
  alias_of_listed n i =
      rw (v.indexed.routed p.fqdn n i) (ap (λ t. some (alias t)) (v.indexed.owner p.fqdn n i))

  abbrev Obeys : Type 0
  Obeys =
      (names : List Text) × (failed : Bool) × (removal (remove_names env p w.router).1
        ≡ took_away names failed)
      × TakesAway env p (registry w.router) names failed (registry (remove_names env p w.router).0)

  no_alias :
      names_of p.fqdn w.router.name_index ≡ []
      → (k : Text) → is_alias_of p.fqdn (registry w.router k) ≡ false
  no_alias e k = elim (Bool-cases (is_alias_of p.fqdn (registry w.router k))) [
    | inl own ↦
        let (n, there, same) = listed_of_alias k (target_of_alias p.fqdn _ own) in
        absurd (subst (In n) e there)
    | inr other ↦ other
  ]

  obeys_unlisted : lookup p.fqdn w.router.name_index ≡ none → Obeys
  obeys_unlisted e = rw (remove_names_unlisted env p w.router e) (
    [],
    false,
    refl,
    record {
      were = λ k i. absurd i;
      stay = λ k out. refl;
      clean = λ f k. no_alias (ap listed e) k;
      stuck = λ f. cc;
    },
  )

  module _ (n : NamedRoute) (ns : List NamedRoute)
      (e : lookup p.fqdn w.router.name_index ≡ some (n ∷ ns))
      (first : env.can_unlink n.name ≡ true) where
    abbrev after : Registry
    after = registry (remove_names env p w.router).0

    abbrev removed : List NamedRoute
    removed = gone env (n ∷ ns)

    after_lem : (k : Text) → after k ≡ (if is_name k removed then none else registry w.router k)
    after_lem k = ground (arith, (remove_names_answer env p w.router n ns v.synced e first).1 k)

    mine : names_of p.fqdn w.router.name_index ≡ n ∷ ns
    mine = ap listed e

    were_lem :
        (k : Text)
        → In k (name_texts removed)
        → (registry w.router k ≡ some (alias p.fqdn)) × (env.can_unlink k ≡ true) × (after k ≡ none)
    were_lem k i =
        let (m, there, same, can) = In-gone env k (n ∷ ns) i in
        (
          subst (λ t. registry w.router t ≡ some (alias p.fqdn)) same
              (alias_of_listed m (subst (In m) (sym mine) there)),
          subst (λ t. env.can_unlink t ≡ true) same can,
          rw (after_lem k, is_name_of_text k removed i) refl,
        )

    stay_lem : (k : Text) → (In k (name_texts removed) → ⊥) → after k ≡ registry w.router k
    stay_lem k out = elim (Bool-cases (is_name k removed)) [
      | inl named ↦ absurd (out (text_of_is_name k removed named))
      | inr unnamed ↦ rw (after_lem k, unnamed) refl
    ]

    abbrev some_left : Bool
    some_left = ltb (removable env (n ∷ ns)) (length (n ∷ ns))

    clean_lem : some_left ≡ false → (k : Text) → is_alias_of p.fqdn (after k) ≡ false
    clean_lem f k = elim (Bool-cases (is_name k removed)) [
      | inl named ↦ rw (after_lem k, named) refl
      | inr unnamed ↦ elim (Bool-cases (is_alias_of p.fqdn (registry w.router k))) [
        | inl own ↦
            let (m, there, same) = listed_of_alias k (target_of_alias p.fqdn _ own) in
            let named : is_name k removed ≡ true =
              subst (λ l. is_name k l ≡ true) (sym (all_gone env (n ∷ ns) f))
                (is_name_of_text k (n ∷ ns) (
                  subst (λ t. In t (name_texts (n ∷ ns))) same
                    (In-name_texts m (n ∷ ns) (subst (In m) mine there)))) in
            cc
        | inr other ↦ rw (after_lem k, unnamed) other
      ]
    ]
      where
        In-name_texts : (m : NamedRoute) (l : List NamedRoute) → In m l → In m.name (name_texts l)
        In-name_texts m [] i = absurd i
        In-name_texts m (x ∷ l) (inl e) = inl (ap (λ (y : NamedRoute). y.name) e)
        In-name_texts m (x ∷ l) (inr i) = inr (In-name_texts m l i)

    stuck_lem :
        some_left ≡ true → (k : Text) × (after k ≡ some (alias p.fqdn)) × (env.can_unlink k ≡ false)
    stuck_lem f =
        let (m, there, cannot) = first_stuck env (n ∷ ns) f in
        let out : In m.name (name_texts removed) → ⊥ = λ i.
          (let (x, within, same, can) = In-gone env m.name (n ∷ ns) i in
            absurd
              (subst (λ b. b ≡ true → ⊥) (sym (ap env.can_unlink same ∙ cannot)) (λ z. cc) can)) in
        (m.name, stay_lem m.name out ∙ alias_of_listed m (subst (In m) (sym mine) there), cannot)

    obeys_listed : Obeys
    obeys_listed = (
      name_texts removed,
      some_left,
      ground (arith, (remove_names_answer env p w.router n ns v.synced e first).0),
      record { were = were_lem; stay = stay_lem; clean = clean_lem; stuck = stuck_lem },
    )

  obeys_found :
      Allowed unicode_lower is_key w (removes_all env p)
      → (o : Option (List NamedRoute)) → lookup p.fqdn w.router.name_index ≡ o
      → Obeys
  obeys_found a none e = obeys_unlisted e
  obeys_found a (some []) e = absurd (v.trim p.fqdn e)
  obeys_found a (some (n ∷ ns)) e = obeys_listed n ns e (a n ns (ap listed e))

  pub remove_names_obeys :
      Allowed unicode_lower is_key w (removes_all env p)
      → (names : List Text) × (failed : Bool) × (removal (remove_names env p w.router).1
          ≡ took_away names failed)
        × TakesAway env p
            (registry w.router)
            names
            failed
            (registry (remove_names env p w.router).0)
  remove_names_obeys a = obeys_found a (lookup p.fqdn w.router.name_index) refl
