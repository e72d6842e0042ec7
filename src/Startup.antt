-- ===== src/Startup.antt =====
-- server/server_main.py and client/client_proxy.py: how the two programs start. They load their
-- keys, open a listening socket, and start a thread for each connection that they accept.
pub mod Deployed
mod Tests
use custom_vpn_implementatio.Common.{
  ℕ, Bool, true, false, Option, none, some, List, [], ◌∷◌, Bytes, Text, codes, bytes_eq, ◌||◌, not,
  if◌then◌else◌,
}
use custom_vpn_implementatio.Common.Exec.{
  ◌>>=◌, ◌>>◌, pure, raise, raise_if, lift, Exec, Exn, Result, ok, err, key_error, type_error,
  attribute_error,
}
use custom_vpn_implementatio.Common.Strings.{split, starts_with}
use custom_vpn_implementatio.World.{World}
use custom_vpn_implementatio.Crypto.{Primitives}
use custom_vpn_implementatio.Json.{Codec, Json, str, Members, find, truthy}
use custom_vpn_implementatio.KeyFiles.Files.{FilePath, Disk, Node, read_bytes}
use custom_vpn_implementatio.KeyFiles.{KeyPackage, load_private_key, load_public_key}
use custom_vpn_implementatio.Access.{AccessController, V6, reload}
use custom_vpn_implementatio.Rate.{RateLimiter}
use custom_vpn_implementatio.Server.Config.Options.{Arguments, configured}
use custom_vpn_implementatio.Server.Threads.Started.{rate_limiter_of}
use custom_vpn_implementatio.Tunnel.{TunnelClient, do_connect, close_socket}

-- `Path(text)`, from the working directory; empty parts and "." are left out.
abbrev step_into : Text → FilePath → FilePath
step_into part dir = if bytes_eq part [] || bytes_eq part (codes ".") then dir else part ∷ dir

abbrev into : FilePath → List Text → FilePath
into dir [] = dir
into dir (part ∷ rest) = into (step_into part dir) rest

unfoldable pub path_of : (cwd : FilePath) → Text → FilePath
path_of cwd text = into (if starts_with b'/' text then [] else cwd) (split b'/' text)

-- What a call of `srv.accept()` gives: a connection from an address, `KeyboardInterrupt`, or an
-- exception.
pub data Accept : Type 0 where
  connection : Text → Accept
  interrupted : Accept
  broken : Exn → Accept

-- How the loop of `accept` stands: it waits for the next connection, was interrupted, or has raised.
pub data Ending : Type 0 where
  waiting shut_down : Ending
  raised : Exn → Ending

-- The addresses for which a thread was started, in order, and whether the listening socket is closed.
pub record Service : Type 0 where
  pub clients : List Text
  pub ending : Ending
  pub closed : Bool

abbrev one_more : Text → Service → Service
one_more ip s = record s { clients = ip ∷ s.clients }

-- The loop of `start_server` and that of `start_proxy`, with the `finally` that closes the socket.
unfoldable pub accept_loop : List Accept → Service
accept_loop [] = record { clients = []; ending = waiting; closed = false }
accept_loop (connection ip ∷ rest) = one_more ip (accept_loop rest)
accept_loop (interrupted ∷ rest) = record { clients = []; ending = shut_down; closed = true }
accept_loop (broken e ∷ rest) = record { clients = []; ending = raised e; closed = true }

-- `cfg[key]`
unfoldable pub item : Members → Text → Result Json
item cfg key = elim (find key cfg) [ none ↦ err key_error | some v ↦ ok v ]

-- `Path(v)`
abbrev pub as_path : (cwd : FilePath) → Json → Result FilePath
as_path cwd (str text) = ok (path_of cwd text)
as_path cwd _ = err type_error

-- What `start_server` passes to every thread. `limiter` is none where a limit is no natural number,
-- for which the model has no limiter.
pub record Serving : Type 0 where
  pub server_private_key : Bytes
  pub client_public_key : Bytes
  pub access_ctl : AccessController
  pub limiter : Option RateLimiter

module _ (v6 : V6) (decode : Bytes → Result Text) (cwd : FilePath) where
  abbrev pub allow_all : Option Text → AccessController
  allow_all path = record { networks = []; path = path }

  -- `AccessController(path)`: the file is read if it is there.
  abbrev load_whitelist_at : Text → Option Node → Exec Disk AccessController
  load_whitelist_at text none = pure (allow_all (some text))
  load_whitelist_at text (some n) = do
    bytes ← read_bytes (path_of cwd text)
    content ← lift (decode bytes)
    pure (reload v6 (λ t. some content) (allow_all (some text)))

  abbrev load_whitelist_if : Bool → Json → Exec Disk AccessController
  load_whitelist_if false v = pure (allow_all none)
  load_whitelist_if true (str text) = λ d. load_whitelist_at text (d.node (path_of cwd text)) d
  load_whitelist_if true v = raise type_error

  unfoldable pub load_whitelist : Option Json → Exec Disk AccessController
  load_whitelist none = pure (allow_all none)
  load_whitelist (some v) = load_whitelist_if (truthy v) v

  -- `bound` is what the opening of the listening socket gives for the address, the port and the
  -- backlog.
  module _ (k : KeyPackage) (bound : Json → Json → Option Json → Result (Unit {0}))
      (accepts : List Accept) where
    -- `start_server`
    unfoldable pub start_server : Members → Exec Disk (Serving × Service)
    start_server cfg = do
      listen_ip ← lift (item cfg (codes "listen_ip"))
      listen_port ← lift (item cfg (codes "listen_port"))
      key_json ← lift (item cfg (codes "server_private_key"))
      key_path ← lift (as_path cwd key_json)
      server_priv ← load_private_key k key_path none
      pub_json ← lift (item cfg (codes "client_public_key"))
      pub_path ← lift (as_path cwd pub_json)
      client_pub ← load_public_key k pub_path
      access_ctl ← load_whitelist (find (codes "whitelist_file") cfg)
      lift (bound listen_ip listen_port (find (codes "backlog") cfg))
      pure (
        record {
          server_private_key = server_priv;
          client_public_key = client_pub;
          access_ctl = access_ctl;
          limiter = rate_limiter_of cfg;
        },
        accept_loop accepts,
      )

    -- `main`: a log level that `logging` does not have raises before anything else is done.
    unfoldable pub server_main :
        (known_level : Bool) → Arguments → Option Members → Exec Disk (Serving × Service)
    server_main known_level args user = do
      raise_if (not known_level) attribute_error
      start_server (configured args user)

-- `start_proxy`: when the loop has ended, the tunnel is closed too.
abbrev close_tunnel : Bool → TunnelClient → TunnelClient
close_tunnel false t = t
close_tunnel true t = (close_socket t).1

unfoldable pub start_proxy : (bound : Result (Unit {0})) → List Accept → Exec TunnelClient Service
start_proxy (err e) accepts t = (err e, t)
start_proxy (ok u) accepts t = let s = accept_loop accepts in (ok s, close_tunnel s.closed t)

-- The paths that the command line of client_proxy.py gives.
pub record ClientArguments : Type 0 where
  pub client_key : Text
  pub server_pubkey : Text

abbrev pub default_client : ClientArguments
default_client = record {
  client_key = codes "keys/client_private.pem";
  server_pubkey = codes "keys/server_public.pem";
}

module _ (second : ℕ) (p : Primitives) (c : Codec) (k : KeyPackage) (cwd : FilePath)
    (bound : Result (Unit {0})) (accepts : List Accept) where
  -- `main` of client_proxy.py from `TunnelClient(…)` on.
  unfoldable pub run_client : (client_priv server_pub : Bytes) → Exec TunnelClient Service
  run_client client_priv server_pub = do
    do_connect second p c client_priv server_pub
    start_proxy bound accepts

  unfoldable pub client_keys : ClientArguments → Exec Disk (Bytes × Bytes)
  client_keys args = do
    client_priv ← load_private_key k (path_of cwd args.client_key) none
    server_pub ← load_public_key k (path_of cwd args.server_pubkey)
    pure (client_priv, server_pub)

  abbrev run_with : Result (Bytes × Bytes) → Exec TunnelClient Service
  run_with (ok (client_priv, server_pub)) = run_client client_priv server_pub
  run_with (err e) = raise e

  unfoldable pub client_main : ClientArguments → Disk → Exec TunnelClient Service
  client_main args d = run_with (client_keys args d).0
