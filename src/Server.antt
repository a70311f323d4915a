-- ===== src/Server.antt =====
-- ssh/server.go and ssh/defaultconfig.go: the configuration of the ssh server, with the callbacks that decide who
-- may log in, and what the server does with a connection. The handshake, keys and their texts are
-- golang.org/x/crypto/ssh's, and the host keys those of github.com/fasmide/hostkeys.
pub mod Laws
use remotemoe.Prelude.{ℕ, Bool, true, false, List, [], ◌∷◌, ◌++◌, Option, none, some, ◌⊎◌, inl, inr}
use remotemoe.Text.{Text, bytes}
use remotemoe.Dict.{Dict, lookup}
use remotemoe.Route.{Peer}
use remotemoe.Session.{Session, Timer, new_session, session_fqdn, stop}
use remotemoe.Session.Fingerprint.{fingerprint_ish}

-- *ssh.Permissions
pub record Permissions : Type 0 where
  pub extensions : Dict Text

-- What a callback returns: permissions or an error.
pub data Authenticated : Type 0 where
  permits : Permissions → Authenticated
  refuses : Text → Authenticated

-- What the client is shown, and asked, with its answers echoed or not.
pub record Challenge : Type 0 where
  pub user : Text
  pub instruction : Text
  pub questions : List Text
  pub echos : List Bool

abbrev banner_lines : List Text
banner_lines =
    bytes "                            __                              "
    ∷ bytes ".----.-----.--------.-----.|  |_.-----.--------.-----.-----."
    ∷ bytes "|   _|  -__|        |  _  ||   _|  -__|        |  _  |  -__|"
    ∷ bytes "|__| |_____|__|__|__|_____||____|_____|__|__|__|_____|_____|"
    ∷ []
    ∷ bytes "You somehow forgot to present a public key when trying to authenticate."
    ∷ bytes "Please continue by creating one:"
    ∷ []
    ∷ bytes "\tssh-keygen"
    ∷ []
    ∷ bytes "remotemoe accepts any key - see ya!"
    ∷ []

abbrev joined : List Text → Text
joined [] = []
joined (l ∷ []) = l
joined (l ∷ r ∷ ls) = l ++ b'\n' ∷ joined (r ∷ ls)

abbrev pub no_public_key_banner : Text
no_public_key_banner = joined banner_lines

-- KeyboardInteractiveCallback; `client` is the error of the challenge, if it has one.
unfoldable pub keyboard_interactive_callback : Text → (Challenge → Option Text) → Authenticated
keyboard_interactive_callback user client =
    let challenge : Challenge = record {
      user = user;
      instruction = no_public_key_banner;
      questions = [] ∷ [];
      echos = false ∷ [];
    } in
    elim (client challenge) [
      | some e ↦ refuses (bytes "error doing keyboard interactive challenge: " ++ e)
      | none ↦ refuses (bytes "user did not public key")
    ]

abbrev pub ciphers : List Text
ciphers =
    bytes "aes128-gcm@openssh.com"
    ∷ bytes "aes128-ctr"
    ∷ bytes "aes192-ctr"
    ∷ bytes "aes256-ctr"
    ∷ []

abbrev or_empty : Option Text → Text
or_empty none = []
or_empty (some t) = t

-- FQDN of a session, by the permissions of its connection.
unfoldable pub fqdn_of : Text → Permissions → Text
unfolding lookup session_fqdn
fqdn_of hostname p = session_fqdn (or_empty (lookup (bytes "pubkey-ish") p.extensions)) hostname

module _ (PublicKey : Type 0) (marshal : PublicKey → List ℕ) (sha256_sum : List ℕ → List ℕ)
    (fingerprint_sha256 marshal_authorized_key : PublicKey → Text) where
  -- PublicKeyCallback
  unfoldable pub public_key_callback : PublicKey → Authenticated
  unfolding fingerprint_ish
  public_key_callback pub_key = permits (record {
    extensions =
        (bytes "pubkey-fp", fingerprint_sha256 pub_key)
        ∷ (bytes "pubkey-ish", fingerprint_ish PublicKey marshal sha256_sum pub_key)
        ∷ (bytes "pubkey", marshal_authorized_key pub_key)
        ∷ [];
  })

-- *ssh.ServerConfig, but for the host keys that are added to it.
pub record Config (PublicKey : Type 0) : Type 0 where
  pub banner : Text
  pub ciphers : List Text
  pub max_auth_tries : ℕ
  pub public_key : PublicKey → Authenticated
  pub keyboard_interactive : Text → (Challenge → Option Text) → Authenticated

module _ (PublicKey : Type 0) (marshal : PublicKey → List ℕ) (sha256_sum : List ℕ → List ℕ)
    (fingerprint_sha256 marshal_authorized_key : PublicKey → Text) where
  -- DefaultConfig, by the environment variable and by the error of Manage, if there is one. `inr` is
  -- the error.
  unfoldable pub default_config : Text → Option Text → Config PublicKey ⊎ Text
  unfolding public_key_callback keyboard_interactive_callback
  default_config banner failure =
      let config : Config PublicKey = record {
        banner = banner;
        ciphers = ciphers;
        max_auth_tries = 1;
        public_key =
            public_key_callback PublicKey marshal sha256_sum fingerprint_sha256
              marshal_authorized_key;
        keyboard_interactive = keyboard_interactive_callback;
      } in
      elim failure [ some e ↦ inr (bytes "problem managing host keys: " ++ e) | none ↦ inl config ]

-- What becomes of a connection: the session that handles it and the authentication timer, or only
-- a line in the log.
pub data Handled : Type 0 where
  handshake_failed : Handled
  handles : Session → Timer → Handled

-- accept. `conn` is what NewServerConn returns: the permissions, if it has no error; by then the
-- timer may have fired, and closed the connection.
unfoldable pub accept : Text → ℕ → Option Permissions → Timer → Handled
unfolding fqdn_of
accept hostname id conn auth_timer = elim conn [
  | none ↦ handshake_failed
  | some permissions ↦
      handles (new_session (record { id = id; fqdn = fqdn_of hostname permissions }))
        (stop auth_timer).1
]

-- Serve: the connections that a goroutine accepts, up to the first error of Accept, which ends it.
unfoldable pub serve_listener {ℓ} : {Conn : Type ℓ} → List (Conn ⊎ Text) → List Conn × Option Text
serve_listener [] = ([], none)
serve_listener (inl c ∷ rest) = let (conns, end) = serve_listener rest in (c ∷ conns, end)
serve_listener (inr e ∷ rest) = ([], some (bytes "failed to accept incoming connection: " ++ e))
