-- ===== src/System/Kept.antt =====
-- ssh/session.go and routertwo/router.go: the steps of sessions that keep the hosts of the router leading to
-- sessions that are there.
use remotemoe.Prelude.{
  ◌≡◌, refl, sym, ap, ◌∙◌, subst, Bool, true, Option, none, some, inl, inr, arith,
}
use remotemoe.Text.{Text}
use remotemoe.Route.{Peer, host_route}
use remotemoe.Disk.{Env}
use remotemoe.Router.{Router, find}
use remotemoe.Router.History.{onlines, offlines, IsValid, step}
use remotemoe.Router.History.Valid.{step-IsValid}
use remotemoe.Router.History.Sessions.{IsValid-IsKeyed}
use remotemoe.Session.{Session, new_session, disable_timeout}
use remotemoe.Session.Lifetime.{Life, end_handle}
use remotemoe.Session.Requests.{Handler}
use remotemoe.System.{Member, System, put, handler}
use remotemoe.System.Live.{
  LeadsToThere, AreOwn, put_other, IsThere-still, put-AreOwn, online-LeadsToThere,
  offline-LeadsToThere,
}
use remotemoe.System.Requests.{Leaves}

-- The router is well formed, and its hosts lead to sessions that are there.
pub record IsLive (unicode_lower : Text → Text) (is_key : Text → Bool) (y : System) : Type 0 where
  pub valid : IsValid unicode_lower is_key y.world
  pub own : AreOwn is_key y.members
  pub leads : LeadsToThere y.members y.world.router

pub none-some : (s : Member) → ◌≡◌ {A = Option Member} none (some s) → ⊥
none-some s e = cc

module _ (unicode_lower : Text → Text) (is_key : Text → Bool) where
  pub connects-IsLive :
      (y : System) (p : Peer)
      → IsLive unicode_lower is_key y
      → y.members p.id ≡ none
      → is_key p.fqdn ≡ true
      → IsLive unicode_lower is_key (record y {
        members = put p.id (record { session = new_session p; ended = none }) y.members;
      })
  connects-IsLive y p v free key = record {
    valid = v.valid;
    own =
        put-AreOwn is_key y.members p.id (record { session = new_session p; ended = none }) v.own
          (refl, key, λ e. cc);
    leads = λ k h q e o.
        (let (x, there, own, reg, name, open_still) = v.leads k h q e o in
          (
            x,
            put_other p.id q.id _ y.members
                  (λ same. none-some x (sym free ∙ ap y.members same ∙ there))
                ∙ there,
            own,
            reg,
            name,
            open_still,
          ));
  }

  pub asks-IsLive :
      (y : System) (m : Member) (env : Env) (g : Handler)
      → IsLive unicode_lower is_key y
      → y.members m.session.peer.id ≡ some m
      → Leaves env (handler m.session y.world.router) g
      → IsLive unicode_lower is_key (record y {
        world = record y.world { router = g.router };
        members = put m.session.peer.id (record m { session = g.session }) y.members;
      })
  unfolding step
  asks-IsLive y m env g v here (inl same) = record {
    valid =
        subst (λ r. IsValid unicode_lower is_key (record y.world { router = r })) (sym same.router)
          v.valid;
    own =
        put-AreOwn is_key y.members m.session.peer.id (record m { session = g.session }) v.own
          (
            ap (λ (p : Peer). p.id) same.peer,
            subst (λ (p : Peer). is_key p.fqdn ≡ true) (sym same.peer)
                (v.own m.session.peer.id m here).1,
            λ e. same.once ∙ (v.own m.session.peer.id m here).2 e,
          );
    leads = λ k h p e o.
        IsThere-still y.members m g.session k p here same.peer (λ b. same.once ∙ b)
          (v.leads k h p (subst (λ r. find k r ≡ some (host_route h)) same.router e) o);
  }
  asks-IsLive y m env g v here (inr came) = record {
    valid =
        subst (λ r. IsValid unicode_lower is_key (record y.world { router = r })) (sym came.router)
          (step-IsValid unicode_lower is_key y.world (onlines env m.session.peer) v.valid
            (v.own m.session.peer.id m here).1);
    own =
        put-AreOwn is_key y.members m.session.peer.id (record m { session = g.session }) v.own
          (
            ap (λ (p : Peer). p.id) came.peer,
            subst (λ (p : Peer). is_key p.fqdn ≡ true) (sym came.peer)
                (v.own m.session.peer.id m here).1,
            λ e. came.once,
          );
    leads = λ k h p e o.
        online-LeadsToThere env m g.session y.world.router y.members v.valid.synced here came.peer
          came.once (λ x. ground (arith, came.first, (v.own m.session.peer.id m here).2 x)) v.leads
          k h p (subst (λ r. find k r ≡ some (host_route h)) came.router e) o;
  }

  pub changes-IsLive :
      (y : System) (m : Member) (t : Session)
      → IsLive unicode_lower is_key y
      → y.members m.session.peer.id ≡ some m
      → t.peer ≡ m.session.peer
      → t.registered ≡ m.session.registered
      → IsLive unicode_lower is_key
          (record y { members = put m.session.peer.id (record m { session = t }) y.members })
  changes-IsLive y m t v here same once = record {
    valid = v.valid;
    own =
        put-AreOwn is_key y.members m.session.peer.id (record m { session = t }) v.own
          (
            ap (λ (p : Peer). p.id) same,
            subst (λ (p : Peer). is_key p.fqdn ≡ true) (sym same)
                (v.own m.session.peer.id m here).1,
            λ e. once ∙ (v.own m.session.peer.id m here).2 e,
          );
    leads =
        λ k h p e o. IsThere-still y.members m t k p here same (λ b. once ∙ b) (v.leads k h p e o);
  }

  -- A session after the end of its Handle.
  abbrev pub over : Env → Life → Router → Member
  over env l r = record {
    session = (end_handle env l r).0.session;
    ended = some l.session.registered;
  }

  pub ends-IsLive :
      (y : System) (l : Life) (env : Env)
      → IsLive unicode_lower is_key y
      → y.members l.session.peer.id ≡ some (record { session = l.session; ended = none })
      → IsLive unicode_lower is_key (record y {
        world = record y.world { router = (end_handle env l y.world.router).1 };
        members = put l.session.peer.id (over env l y.world.router) y.members;
      })
  unfolding end_handle step disable_timeout
  ends-IsLive y l env v here = record {
    valid = step-IsValid unicode_lower is_key y.world (offlines env l.session.peer) v.valid tt;
    own = put-AreOwn is_key y.members l.session.peer.id (over env l y.world.router) v.own (
      refl,
      (v.own l.session.peer.id (record { session = l.session; ended = none }) here).1,
      λ e. ground (arith, e),
    );
    leads =
        offline-LeadsToThere env (record { session = l.session; ended = none })
          (over env l y.world.router) y.world.router y.members v.valid.synced
          (IsValid-IsKeyed unicode_lower is_key y.world v.valid env l.session.peer) here v.leads;
  }
