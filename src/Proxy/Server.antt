-- ===== src/Proxy/Server.antt =====
-- http/proxy.go and http/server.go: the proxy with its transport, the context that a connection gets,
-- and the server. autocert, which asks the server's policy for the name of a certificate, and net/http,
-- which calls the director and dials through the transport, are libraries.
pub mod Policy
use remotemoe.Prelude.{ℕ, Bool, true, Option, none, some, [], ◌∷◌}
use remotemoe.Text.{Text, bytes}
use remotemoe.Dict.{Dict, lookup, insert}
use remotemoe.Router.{Error}
use remotemoe.Router.Dial.{Dialed}
use remotemoe.Proxy.{Url, director}

-- The values of a context under keys of type localAddr.
abbrev pub Context : Type 0
Context = Dict Text

-- withLocalAddr
unfoldable pub with_local_addr : Context → Text → Context
unfolding insert
with_local_addr ctx local_addr = insert (bytes "localaddr") local_addr ctx

-- *http.Transport, as far as it is set, with times in seconds.
pub record Transport : Type 0 where
  pub dial_context : Text → Option Dialed
  pub force_attempt_http2 : Bool
  pub max_idle_conns : ℕ
  pub max_conns_per_host : ℕ
  pub idle_conn_timeout : ℕ
  pub tls_handshake_timeout : ℕ
  pub expect_continue_timeout : ℕ
  pub insecure_skip_verify : Bool

-- The proxy: where its director sends a request with such a context and host, and its transport.
-- `none` is the panic on a context without local address.
pub record ReverseProxy : Type 0 where
  pub director : Context → Text → Option Url
  pub transport : Transport

abbrev pub directed : Text → Option Text → Option Url
directed request_host none = none
directed request_host (some local_addr) = some (director request_host local_addr)

-- Initialize
unfoldable pub initialize : (Text → Option Dialed) → ReverseProxy
unfolding lookup director
initialize dial_context = record {
  director = λ ctx request_host. directed request_host (lookup (bytes "localaddr") ctx);
  transport = record {
    dial_context = dial_context;
    force_attempt_http2 = true;
    max_idle_conns = 100;
    max_conns_per_host = 10;
    idle_conn_timeout = 90;
    tls_handshake_timeout = 10;
    expect_continue_timeout = 1;
    insecure_skip_verify = true;
  };
}

-- *http.Server with the manager of its certificates: the directory of the cache, and the policy.
pub record HttpServer : Type 0 where
  pub conn_context : Context → Text → Context
  pub cache : Text
  pub host_policy : Text → Option Error

-- NewServer, by the directory that acmeCache finds; `none` is its error.
unfoldable pub new_server : (Text → Option Error) → Option Text → Option HttpServer
unfolding with_local_addr
new_server host_exists none = none
new_server host_exists (some cache) =
    some (record { conn_context = with_local_addr; cache = cache; host_policy = host_exists })
