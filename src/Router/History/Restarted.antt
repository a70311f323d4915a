-- ===== src/Router/History/Restarted.antt =====
-- routertwo/router.go: NewRouter, on the files of a well-formed router, comes up well formed, and the
-- routes stay through further histories.
use remotemoe.Prelude.{
  ℕ, suc, ◌+◌, ◌≡◌, refl, sym, ap, subst, ◌∙◌, List, [], ◌∷◌, none, some, Bool, true, In, inl, inr,
  arith, ◌≢◌, length, Bool-cases,
}
use remotemoe.Text.{Text, text_eq, text_eq_iff}
use remotemoe.Route.{Host, NamedRoute, Route, host_route, name_route, fqdn}
use remotemoe.Router.{Router, find}
use remotemoe.Router.Invariant.{IsSynced}
use remotemoe.Router.IndexLaws.{names_of, index-IsTrim}
use remotemoe.Router.Indexes.{keep-Indexes, add-Indexes}
use remotemoe.Router.Load.{Entry, opened, up, with_route, load_entry, load}
use remotemoe.Router.Restart.{
  content, revived, IsEntry, load_entry-content, load_entry-directory, load_one, find-with_route,
  with_route-IsSynced, fqdn-revived,
}
use remotemoe.Router.History.{IsValid}

-- The walk visits no file twice.
abbrev pub IsOnceWalk : List Entry → Type 0
IsOnceWalk [] = Unit {0}
IsOnceWalk (e ∷ es) = ((t : Route) → e ≡ opened (content t) → In e es → ⊥) × IsOnceWalk es

some_injective : (t u : Route) → some t ≡ some u → t ≡ u
some_injective t u e = cc

up_injective : (r s : Router) → up r ≡ up s → r ≡ s
up_injective r s e = cc

module _ (unicode_lower : Text → Text) (is_key : Text → Bool) (r : Router) (next : ℕ)
    (v : IsValid unicode_lower is_key (record { router = r; next_ref = next })) where
  abbrev pub Valid : ℕ → Router → Type 0
  Valid ref s = IsValid unicode_lower is_key (record { router = s; next_ref = ref })

  later-Valid : (ref : ℕ) (s : Router) → Valid ref s → Valid (suc ref) s
  later-Valid ref s u = record {
    synced = u.synced;
    trim = u.trim;
    indexed = u.indexed;
    hosts = u.hosts;
    names = λ k n e. let (a, b, c, d) = u.names k n e in (a, b, c, omega (arith, d));
  }

  module _ (ref : ℕ) (s : Router) (u : Valid ref s) where
    host-Valid :
        (h : Host)
        → find h.name r ≡ some (host_route h)
        → find h.name s ≡ none
        → Valid (suc ref) (with_route (revived ref (host_route h)) s)
    host-Valid h there absent =
        let t = revived ref (host_route h) in
        record {
          synced = with_route-IsSynced t s u.synced;
          trim = u.trim;
          indexed =
              keep-Indexes (λ k. find k s) (λ k. find k (with_route t s)) s.name_index
                (λ k n.
                  ground (arith, find-with_route t s k u.synced, absent, text_eq_iff h.name k))
                u.indexed;
          hosts = λ k g e. ground (
            arith,
            find-with_route t s k u.synced,
            text_eq_iff h.name k,
            u.hosts k g,
            v.hosts h.name h there,
          );
          names = λ k n e.
              (later-Valid ref s u).names k n
                (ground (arith, find-with_route t s k u.synced, text_eq_iff h.name k, e));
        }

    abbrev woken : NamedRoute → NamedRoute
    woken n = record n { ref = ref; wired = true }

    woken_fresh :
        (n : NamedRoute) (o : Text) (m : NamedRoute) → In m (names_of o s.name_index) → m.ref ≢ ref
    woken_fresh n o m i e = absurd (omega (arith, e, (u.names m.name m (u.indexed.routed o m i)).3))

    name-Valid :
        (n : NamedRoute)
        → find n.name r ≡ some (name_route n)
        → find n.name s ≡ none
        → Valid (suc ref) (with_route (revived ref (name_route n)) s)
    name-Valid n there absent =
        let t = revived ref (name_route n) in
        let (other, own, was, before) = v.names n.name n there in
        record {
          synced = with_route-IsSynced t s u.synced;
          trim = index-IsTrim (woken n) s.name_index u.trim;
          indexed =
              add-Indexes (λ k. find k s) (λ k. find k (with_route t s)) s.name_index (woken n)
                u.indexed absent (woken_fresh n) (λ k. find-with_route t s k u.synced);
          hosts = λ k g e.
              ground (arith, find-with_route t s k u.synced, text_eq_iff n.name k, u.hosts k g);
          names = λ k m e. ground (
            arith,
            find-with_route t s k u.synced,
            text_eq_iff n.name k,
            (later-Valid ref s u).names k m,
            other,
            own,
          );
        }

    route-Valid :
        (t : Route)
        → find (fqdn t) r ≡ some t
        → find (fqdn t) s ≡ none
        → Valid (suc ref) (with_route (revived ref t) s)
    route-Valid (host_route h) there absent = host-Valid h there absent
    route-Valid (name_route n) there absent = name-Valid n there absent

  -- The routes of the rest of the walk are not read yet.
  abbrev pub Unread : List Entry → Router → Type 0
  Unread walk s =
      (t : Route) → In (opened (content t)) walk → find (fqdn t) r ≡ some t → find (fqdn t) s ≡ none

  route-Unread :
      (ref : ℕ) (t : Route) (es : List Entry) (s : Router)
      → IsSynced s
      → find (fqdn t) r ≡ some t
      → (In (opened (content t)) es → ⊥)
      → Unread es s
      → Unread es (with_route (revived ref t) s)
  route-Unread ref t es s synced there once unread x i found =
      find-with_route (revived ref t) s (fqdn x) synced
      ∙ elim (Bool-cases (text_eq (fqdn (revived ref t)) (fqdn x))) [
        | inl same ↦
            let named : fqdn t ≡ fqdn x =
              sym (fqdn-revived ref t) ∙ (text_eq_iff (fqdn (revived ref t)) (fqdn x)).0 same in
            let equal : t ≡ x = some_injective t x (sym there ∙ ap (λ k. find k r) named ∙ found) in
            absurd (once (subst (λ y. In (opened (content y)) es) (sym equal) i))
        | inr other ↦ rw other (unread x i found)
      ]

  pub load-Valid :
      (ref : ℕ) (walk : List Entry) (s u : Router)
      → ((e : Entry) → In e walk → IsEntry r e)
      → IsOnceWalk walk
      → Unread walk s
      → Valid ref s
      → load ref walk s ≡ up u
      → Valid (ref + length walk) u
  unfolding load
  load-Valid ref [] s u all once unread valid e =
      subst (λ k. Valid k u) (omega arith) (subst (Valid ref) (up_injective s u e) valid)
  load-Valid ref (e ∷ es) s u all once unread valid q = elim (all e (inl refl)) [
    | inl d ↦
        subst (λ k. Valid k u) (omega arith)
          (load-Valid (suc ref) es s u (λ x i. all x (inr i)) once.1 (λ t i. unread t (inr i))
            (later-Valid ref s valid)
            (sym (
                load_one ref e es s s (ap (λ x. load_entry ref x s) d ∙ load_entry-directory ref s))
              ∙ q))
    | inr (t, same, there) ↦
        let s' = with_route (revived ref t) s in
        subst (λ k. Valid k u) (omega arith)
          (load-Valid (suc ref) es s' u (λ x i. all x (inr i)) once.1
            (route-Unread ref t es s valid.synced there
              (λ i. once.0 t same (subst (λ x. In x es) (sym same) i)) (λ x i. unread x (inr i)))
            (route-Valid ref s valid t there (unread t (inl (sym same)) there))
            (sym (
                load_one ref e es s s'
                  (ap (λ x. load_entry ref x s) same ∙ load_entry-content ref t s))
              ∙ q))
  ]
