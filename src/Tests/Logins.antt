-- ===== src/Tests/Logins.antt =====
-- Who may log in, with concrete keys.
use remotemoe.Prelude.{◌≡◌, ◌≢◌, refl, [], Option, none, some, inl}
use remotemoe.Text.{Text, bytes, text_eq}
use remotemoe.Dict.{lookup}
use remotemoe.Session.{running, stopped, new_session, session_fqdn}
use remotemoe.Session.Fingerprint.{fingerprint_ish}
use remotemoe.Server.{
  ciphers, Permissions, Authenticated, permits, refuses, keyboard_interactive_callback, fqdn_of,
  public_key_callback, Config, default_config, accept,
}
use remotemoe.Server.Laws.{name_needs_key}
use remotemoe.Tests.Lives.{sum, sum-bytes}

-- A client offers a key, and proves to hold it. NewServerConn asks the callback for keys.
abbrev permitted : Authenticated → Option Permissions
permitted (permits p) = some p
permitted (refuses e) = none

abbrev new_server_conn : Config Text → Text → Option Permissions
new_server_conn c key = permitted (c.public_key key)

abbrev hostname : Text
hostname = bytes "moe"

abbrev config : Config Text
config = record {
  banner = [];
  ciphers = ciphers;
  max_auth_tries = 1;
  public_key = public_key_callback Text (λ k. k) sum (λ k. k) (λ k. k);
  keyboard_interactive = keyboard_interactive_callback;
}

abbrev key : Text
key = bytes "a"

permitted-permits : (a : Authenticated) (p : Permissions) → permitted a ≡ some p → a ≡ permits p
permitted-permits (permits q) p e = cc
permitted-permits (refuses x) p e = cc

name_needs_key_example : ((held : Text) × (key ≡ held) × (sum held ≡ sum key)) × (stopped ≢ running)
unfolding default_config accept public_key_callback fqdn_of lookup text_eq session_fqdn
    fingerprint_ish
name_needs_key_example =
    name_needs_key Text (λ k. k) sum (λ k. k) (λ k. k) Text (λ client held. client ≡ held)
      new_server_conn hostname [] config key 1 running stopped
      (new_session
        (record { id = 1; fqdn = session_fqdn (fingerprint_ish Text (λ k. k) sum key) hostname }))
      key (λ c p e. inl (key, refl, permitted-permits (c.public_key key) p e)) sum-bytes refl refl
      refl
