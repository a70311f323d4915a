-- ===== src/System/Live.antt =====
-- ssh/session.go and routertwo/router.go: the hosts of the router lead to sessions that are there, or that have
-- registered too late.
use remotemoe.Prelude.{
  ℕ, ◌==◌, ==_iff, ◌≡◌, ◌≢◌, refl, sym, ap, ◌∙◌, subst, Bool, true, false, ◌&&◌, Option, none, some,
  inl, inr, arith, Bool-cases,
}
use remotemoe.Text.{Text, text_eq, text_eq_iff}
use remotemoe.Route.{Peer, Host, Route, host_route, name_route}
use remotemoe.Disk.{Env}
use remotemoe.Router.{Router, find}
use remotemoe.Router.Calls.{online, online_host, offline, is_peer}
use remotemoe.Router.Invariant.{IsSynced, IsKeyed}
use remotemoe.Router.Effects.{stores, find-online, find-offline, parted}
use remotemoe.Session.{Session}
use remotemoe.System.{Member, put}

-- A session that Handle serves, or that had not registered when its Handle ended, and that has
-- registered under its own name.
abbrev pub IsThere : (ℕ → Option Member) → Text → Peer → Type 0
IsThere members k p =
    (m : Member) × (members p.id ≡ some m)
    × (m.session.peer ≡ p)
    × (m.session.registered ≡ true)
    × (p.fqdn ≡ k)
    × (m.ended ≢ some true)

-- The session of a host in the router is there.
abbrev pub LeadsToThere : (ℕ → Option Member) → Router → Type 0
LeadsToThere members r =
    (k : Text) (h : Host) (p : Peer)
    → find k r ≡ some (host_route h)
    → h.routable ≡ some p
    → IsThere members k p

some_inj : (m n : Member) → ◌≡◌ {A = Option Member} (some m) (some n) → m ≡ n
some_inj m n e = cc

put_same : (i : ℕ) (m : Member) (members : ℕ → Option Member) → put i m members i ≡ some m
put_same i m members = ground arith

pub put_other :
    (i j : ℕ) (m : Member) (members : ℕ → Option Member) → i ≢ j → put i m members j ≡ members j
put_other i j m members n = ground (arith, n)

-- Where another session has its place, or the same one, registered if it was.
pub IsThere-still :
    (members : ℕ → Option Member) (m : Member) (t : Session) (k : Text) (p : Peer)
    → members m.session.peer.id ≡ some m
    → t.peer ≡ m.session.peer
    → (m.session.registered ≡ true → t.registered ≡ true)
    → IsThere members k p
    → IsThere (put m.session.peer.id (record m { session = t }) members) k p
IsThere-still members m t k p here same once (x, there, own, reg, name, open_still) =
    elim (Bool-cases (m.session.peer.id == p.id)) [
      | inl e ↦
          let x_is_m : x ≡ m =
            some_inj x m
              (sym there ∙ ap members (sym ((==_iff m.session.peer.id p.id).0 e)) ∙ here) in
          (
            record m { session = t },
            rw e refl,
            same ∙ ap (λ (y : Member). y.session.peer) (sym x_is_m) ∙ own,
            once (subst (λ (y : Member). y.session.registered ≡ true) x_is_m reg),
            name,
            subst (λ (y : Member). y.ended ≢ some true) x_is_m open_still,
          )
      | inr n ↦ (x, rw n there, own, reg, name, open_still)
    ]

-- The session stands under its identity, with the name of a key, and is registered if it was at the
-- end of its Handle.
abbrev pub IsOwn : (Text → Bool) → ℕ → Member → Type 0
IsOwn is_key i m =
    (m.session.peer.id ≡ i)
    × (is_key m.session.peer.fqdn ≡ true)
    × (m.ended ≡ some true → m.session.registered ≡ true)

abbrev pub AreOwn : (Text → Bool) → (ℕ → Option Member) → Type 0
AreOwn is_key members = (i : ℕ) (m : Member) → members i ≡ some m → IsOwn is_key i m

pub put-AreOwn :
    (is_key : Text → Bool) (members : ℕ → Option Member) (i : ℕ) (n : Member)
    → AreOwn is_key members
    → IsOwn is_key i n
    → AreOwn is_key (put i n members)
put-AreOwn is_key members i n own mine j m e = elim (Bool-cases (i == j)) [
  | inl same ↦
      let m_is_n : m ≡ n = sym (some_inj n m (rw same at e)) in
      rw m_is_n (mine.0 ∙ (==_iff i j).0 same, mine.1, mine.2)
  | inr other ↦ own j m (rw other at e)
]

pub routable-online_host :
    (env : Env) (p : Peer) (o : Option Route) → (online_host env p o).routable ≡ some p
unfolding online_host
routable-online_host env p none = refl
routable-online_host env p (some (host_route h)) = refl
routable-online_host env p (some (name_route n)) = refl

host_inj : (g h : Host) → some (host_route g) ≡ some (host_route h) → g ≡ h
host_inj g h e = cc

peer_inj : (p q : Peer) → some p ≡ some q → p ≡ q
peer_inj p q e = cc

-- A host that keeps a session has kept it from another.
parted_lem :
    (env : Env) (p : Peer) (o : Option Route) (h : Host) (q : Peer)
    → parted env p o ≡ some (host_route h)
    → h.routable ≡ some q
    → (o ≡ some (host_route h)) × (p.id ≢ q.id)
parted_lem env p none h q e r = cc
parted_lem env p (some (name_route n)) h q e r = cc
parted_lem env p (some (host_route g)) h q e r = elim (Bool-cases (is_peer p g.routable)) [
  | inl same ↦ absurd (ground (arith, e, same, r))
  | inr other ↦
      let g_is : some (host_route g) ≡ some (host_route h) = ground (arith, e, other) in
      let apart : (p.id == q.id) ≡ false =
        subst (λ o. is_peer p o ≡ false) (ap (λ (x : Host). x.routable) (host_inj g h g_is) ∙ r)
          other in
      (g_is, λ i. ground (arith, i, apart))
]

-- Online of a session that is there, and registered now.
pub online-LeadsToThere :
    (env : Env) (m : Member) (t : Session) (r : Router) (members : ℕ → Option Member)
    → IsSynced r
    → members m.session.peer.id ≡ some m
    → t.peer ≡ m.session.peer
    → t.registered ≡ true
    → m.ended ≢ some true
    → LeadsToThere members r
    → LeadsToThere
        (put m.session.peer.id (record m { session = t }) members)
        (online env m.session.peer r).router
online-LeadsToThere env m t r members synced here same once open_still leads k h p e q =
    let s = m.session in
    elim (Bool-cases (stores env && text_eq s.peer.fqdn k)) [
      | inl mine ↦
          let stored : stores env ≡ true = ground (arith, mine) in
          let named : s.peer.fqdn ≡ k = (text_eq_iff s.peer.fqdn k).0 (ground (arith, mine)) in
          let host_is : some (host_route (online_host env s.peer (find s.peer.fqdn r)))
              ≡ some (host_route h) =
            sym (ground (arith, find-online env s.peer r synced k, mine)) ∙ e in
          let p_is : s.peer ≡ p = peer_inj s.peer p (
            sym (routable-online_host env s.peer (find s.peer.fqdn r))
            ∙ ap (λ (g : Host). g.routable) (host_inj _ h host_is)
            ∙ q) in
          (
            record m { session = t },
            subst
                (λ (x : Peer).
                  put s.peer.id (record m { session = t }) members x.id
                  ≡ some (record m { session = t }))
                p_is (put_same s.peer.id (record m { session = t }) members),
            same ∙ p_is,
            once,
            subst (λ (x : Peer). x.fqdn ≡ k) p_is named,
            open_still,
          )
      | inr not_mine ↦
          IsThere-still members m t k p here same (λ b. once)
            (leads k h p (ground (arith, find-online env s.peer r synced k, e, not_mine)) q)
    ]

-- Offline of a session that stands there or not afterwards, as `n`.
pub offline-LeadsToThere :
    (env : Env) (m n : Member) (r : Router) (members : ℕ → Option Member)
    → IsSynced r
    → IsKeyed r
    → members m.session.peer.id ≡ some m
    → LeadsToThere members r
    → LeadsToThere (put m.session.peer.id n members) (offline env m.session.peer r)
offline-LeadsToThere env m n r members synced keyed here leads k h p e q =
    let s = m.session in
    elim (Bool-cases (text_eq s.peer.fqdn k)) [
      | inl mine ↦
          let (before, two) =
            parted_lem env s.peer (find s.peer.fqdn r) h p
              (sym (ground (arith, find-offline env s.peer r synced keyed k, mine)) ∙ e) q in
          let (x, there, own, reg, name, open_still) =
            leads k h p
              (subst (λ a. find a r ≡ some (host_route h)) ((text_eq_iff s.peer.fqdn k).0 mine)
                before)
              q in
          (x, put_other s.peer.id p.id n members two ∙ there, own, reg, name, open_still)
      | inr other ↦
          let (x, there, own, reg, name, open_still) =
            leads k h p (ground (arith, find-offline env s.peer r synced keyed k, e, other)) q in
          (
            x,
            put_other s.peer.id p.id n members (λ same. ground (
              arith,
              other,
              text_eq_iff s.peer.fqdn k,
              ap (λ (y : Member). y.session.peer.fqdn)
                    (sym (some_inj x m (sym there ∙ ap members (sym same) ∙ here)))
                  ∙ ap (λ (y : Peer). y.fqdn) own
                  ∙ name,
            ))
                ∙ there,
            own,
            reg,
            name,
            open_still,
          )
    ]
