-- ===== src/Server/Laws.antt =====
-- ssh/server.go and ssh/defaultconfig.go: who gets a session, under which name.
use remotemoe.Prelude.{
  ℕ, ◌≡◌, ◌≢◌, refl, sym, ap, ◌∙◌, List, Option, none, some, false, inl, inr, ◌⊎◌, length, arith,
}
use remotemoe.Text.{Text, text_eq}
use remotemoe.Dict.{lookup}
use remotemoe.Session.{Session, Timer, running, fired, stopped, stop, session_fqdn}
use remotemoe.Session.Fingerprint.{fingerprint_ish}
use remotemoe.Session.Fingerprint.Laws.{AreBytes, same_fqdn_iff}
use remotemoe.Server.{
  Permissions, Authenticated, permits, Challenge, keyboard_interactive_callback, fqdn_of,
  public_key_callback, Config, default_config, handles, accept,
}

permits_inj : (p q : Permissions) → permits p ≡ permits q → p ≡ q
permits_inj p q e = cc

-- Nobody is permitted by the keyboard.
keyboard_refuses :
    (user : Text) (client : Challenge → Option Text) (p : Permissions)
    → keyboard_interactive_callback user client ≡ permits p
    → ⊥
unfolding keyboard_interactive_callback
keyboard_refuses user client p e = ground arith

handles-inv :
    (hostname : Text) (id : ℕ) (conn : Option Permissions) (timer left : Timer) (s : Session)
    → accept hostname id conn timer ≡ handles s left
    → (p : Permissions) × (conn ≡ some p)
      × (s.peer.fqdn ≡ fqdn_of hostname p)
      × (s.registered ≡ false)
      × (left ≡ (stop timer).1)
unfolding accept
handles-inv hostname id none timer left s e = cc
handles-inv hostname id (some p) timer left s e =
    (p, refl, ground arith, ground arith, ground arith)

inl_inj : {A : Type 0} (c d : A) → ◌≡◌ {A = A ⊎ Text} (inl c) (inl d) → c ≡ d
inl_inj c d e = cc

stop-not_running : (t : Timer) → (stop t).1 ≢ running
stop-not_running running e = cc
stop-not_running fired e = cc
stop-not_running stopped e = cc

module _ (PublicKey : Type 0) (marshal : PublicKey → List ℕ) (sha256_sum : List ℕ → List ℕ)
    (fingerprint_sha256 marshal_authorized_key : PublicKey → Text) where
  abbrev pub key_callback : PublicKey → Authenticated
  key_callback =
      public_key_callback PublicKey marshal sha256_sum fingerprint_sha256 marshal_authorized_key

  fqdn-key_callback :
      (hostname : Text) (key : PublicKey) (p : Permissions)
      → key_callback key ≡ permits p
      → fqdn_of hostname p
        ≡ session_fqdn (fingerprint_ish PublicKey marshal sha256_sum key) hostname
  unfolding public_key_callback fqdn_of lookup text_eq
  fqdn-key_callback hostname key p e = rw (sym (permits_inj _ p e)) refl

  -- A session by a callback of the configuration has the name of a key that was proved.
  module _ (Client : Type 0) (Proves : Client → PublicKey → Type 0) (client : Client)
      (hostname banner : Text) (s : Session) (key : PublicKey)
      (sums : (form : List ℕ) → AreBytes (sha256_sum form) × (length (sha256_sum form) ≡ 32)) where
    by_callback :
        (c : Config PublicKey)
        → default_config PublicKey marshal sha256_sum fingerprint_sha256 marshal_authorized_key
            banner none
          ≡ inl c
        → (p : Permissions) → s.peer.fqdn ≡ fqdn_of hostname p
        → s.peer.fqdn ≡ session_fqdn (fingerprint_ish PublicKey marshal sha256_sum key) hostname
        → ((held : PublicKey) × Proves client held × (c.public_key held ≡ permits p))
          ⊎ ((user : Text) × (answers : Challenge → Option Text) × (c.keyboard_interactive user
                  answers
                ≡ permits p))
        → (held : PublicKey) × Proves client held
          × (sha256_sum (marshal held) ≡ sha256_sum (marshal key))
    unfolding default_config
    by_callback c made p name named (inl (held, proof, permitted)) = (
      held,
      proof,
      (same_fqdn_iff PublicKey marshal sha256_sum hostname held key sums).0 (
          sym (
            fqdn-key_callback hostname held p
              (ap (λ (x : Config PublicKey). x.public_key held) (inl_inj _ c made) ∙ permitted))
          ∙ sym name
          ∙ named),
    )
    by_callback c made p name named (inr (user, answers, permitted)) = absurd (
        keyboard_refuses user answers p (
          ap (λ (x : Config PublicKey). x.keyboard_interactive user answers) (inl_inj _ c made)
          ∙ permitted))

  -- For every NewServerConn that gives a connection the permissions which a callback returned
  -- without an error, that of the public key only for a key that the client has proved to hold,
  -- and for hashes of 32 bytes: a connection that gets a session under the name of a key holds a
  -- key of the same hash, whatever it answers by keyboard, and its authentication timer does not
  -- run on.
  pub name_needs_key :
      (Client : Type 0) (Proves : Client → PublicKey → Type 0)
      (new_server_conn : Config PublicKey → Client → Option Permissions) (hostname banner : Text)
      (config : Config PublicKey) (client : Client) (id : ℕ) (timer left : Timer) (s : Session)
      (key : PublicKey)
      → ((c : Config PublicKey) (p : Permissions)
          → new_server_conn c client ≡ some p
          → ((held : PublicKey) × Proves client held × (c.public_key held ≡ permits p))
            ⊎ ((user : Text) × (answers : Challenge → Option Text) × (c.keyboard_interactive user
                    answers
                  ≡ permits p)))
      → ((form : List ℕ) → AreBytes (sha256_sum form) × (length (sha256_sum form) ≡ 32))
      → default_config PublicKey marshal sha256_sum fingerprint_sha256 marshal_authorized_key banner
          none
        ≡ inl config
      → accept hostname id (new_server_conn config client) timer ≡ handles s left
      → s.peer.fqdn ≡ session_fqdn (fingerprint_ish PublicKey marshal sha256_sum key) hostname
      → ((held : PublicKey) × Proves client held
          × (sha256_sum (marshal held) ≡ sha256_sum (marshal key)))
        × (left ≢ running)
  unfolding default_config
  name_needs_key Client Proves new_server_conn hostname banner config client id timer left s key
        conn sums made came named =
      let (p, given, name, fresh, off) = handles-inv hostname id _ timer left s came in
      (
        by_callback Client Proves client hostname banner s key sums config made p name named
            (conn config p given),
        rw off (stop-not_running timer),
      )
