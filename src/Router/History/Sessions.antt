-- ===== src/Router/History/Sessions.antt =====
-- routertwo/router.go: Online and Offline keep the router well formed.
use remotemoe.Prelude.{
  ◌≡◌, refl, sym, subst, ◌∙◌, Bool-cases, Option, none, some, Bool, true, arith, ◌↔◌, inl, inr,
}
use remotemoe.Text.{Text, text_eq, text_eq_iff}
use remotemoe.Route.{Peer, Host, NamedRoute, Route, host_route, name_route}
use remotemoe.Disk.{Env}
use remotemoe.Router.{find}
use remotemoe.Router.Calls.{online, online_host, offline}
use remotemoe.Router.Invariant.{IsKeyed}
use remotemoe.Router.IndexLaws.{IsTrim}
use remotemoe.Router.Indexes.{Indexes, keep-Indexes}
use remotemoe.Router.Effects.{
  online-IsSynced, find-online, name_index-online, offline-IsSynced, find-offline,
  name_index-offline, parted,
}
use remotemoe.Router.History.{World, onlines, offlines, step, IsValid}

online_host-name : (env : Env) (p : Peer) (o : Option Route) → (online_host env p o).name ≡ p.fqdn
unfolding online_host
online_host-name env p none = refl
online_host-name env p (some (host_route h)) = refl
online_host-name env p (some (name_route n)) = refl

parted-host :
    (env : Env) (p : Peer) (o : Option Route) (h : Host)
    → parted env p o ≡ some (host_route h)
    → (g : Host) × (o ≡ some (host_route g)) × (h.name ≡ g.name)
parted-host env p none h e = cc
parted-host env p (some (name_route n)) h e = cc
parted-host env p (some (host_route g)) h e = (g, refl, ground arith)

module _ (unicode_lower : Text → Text) (is_key : Text → Bool) where
  module _ (w : World) (v : IsValid unicode_lower is_key w) (env : Env) (p : Peer) where
    pub IsValid-IsKeyed : IsKeyed w.router
    IsValid-IsKeyed k (host_route h) e = (v.hosts k h e).0
    IsValid-IsKeyed k (name_route n) e = v.indexed.keyed k n e

    module _ (key : is_key p.fqdn ≡ true) where
      pub online-names :
          (k : Text) (n : NamedRoute)
          → (find k w.router ≡ some (name_route n))
            ↔ (find k (online env p w.router).router ≡ some (name_route n))
      online-names k n =
          ground
            (arith, find-online env p w.router v.synced k, text_eq_iff p.fqdn k, v.names p.fqdn n)

      pub online-IsValid : IsValid unicode_lower is_key (step unicode_lower w (onlines env p))
      unfolding step
      online-IsValid = record {
        synced = online-IsSynced env p w.router v.synced;
        trim = subst IsTrim (sym (name_index-online env p w.router)) v.trim;
        indexed =
            subst (Indexes (λ k. find k (online env p w.router).router))
              (sym (name_index-online env p w.router)) (keep-Indexes _ _ _ online-names v.indexed);
        hosts = λ k h e. ground (
          arith,
          find-online env p w.router v.synced k,
          text_eq_iff p.fqdn k,
          online_host-name env p (find p.fqdn w.router),
          v.hosts k h,
        );
        names = λ k n e. v.names k n ((online-names k n).1 e);
      }

    pub offline-names :
        (k : Text) (n : NamedRoute)
        → (find k w.router ≡ some (name_route n))
          ↔ (find k (offline env p w.router) ≡ some (name_route n))
    offline-names k n =
        ground (arith, find-offline env p w.router v.synced IsValid-IsKeyed k, text_eq_iff p.fqdn k)

    offline-host :
        (k : Text) (h : Host)
        → find k (offline env p w.router) ≡ some (host_route h)
        → (g : Host) × (find k w.router ≡ some (host_route g)) × (h.name ≡ g.name)
    offline-host k h e = elim (Bool-cases (text_eq p.fqdn k)) [
      | inl own ↦
          subst (λ j. (g : Host) × (find j w.router ≡ some (host_route g)) × (h.name ≡ g.name))
            ((text_eq_iff p.fqdn k).0 own)
            (parted-host env p (find p.fqdn w.router) h
              (rw (find-offline env p w.router v.synced IsValid-IsKeyed k, own) at e))
      | inr other ↦
          (h, rw (find-offline env p w.router v.synced IsValid-IsKeyed k, other) at e, refl)
    ]

    pub offline-IsValid : IsValid unicode_lower is_key (step unicode_lower w (offlines env p))
    unfolding step
    offline-IsValid = record {
      synced = offline-IsSynced env p w.router v.synced;
      trim = subst IsTrim (sym (name_index-offline env p w.router v.synced)) v.trim;
      indexed =
          subst (Indexes (λ k. find k (offline env p w.router)))
            (sym (name_index-offline env p w.router v.synced))
            (keep-Indexes _ _ _ offline-names v.indexed);
      hosts = λ k h e.
          let (g, there, same) = offline-host k h e in
          (same ∙ (v.hosts k g there).0, (v.hosts k g there).1);
      names = λ k n e. v.names k n ((offline-names k n).1 e);
    }
