-- ===== src/Lib.antt =====
-- A verification library of the VPN: an encrypted tunnel between a client, on which a local proxy
-- stands, and a server that forwards HTTP requests and CONNECT tunnels.
--
-- The parts of the program, and the files here:
-- - crypto/protocol.py: Protocol.antt and Protocol/. `send_frame` and `recv_frame` write and read the
--   frames that everything else is sent in. Protocol/Receive has `recv_exact`.
-- - crypto/crypto_utils.py: Crypto/Utils. The package `cryptography` (AES-GCM, HMAC-SHA256,
--   HKDF-SHA256, RSA) is the record `Primitives` of Crypto.antt, a parameter; what the code relies on
--   is the record `Laws`. Crypto/Toy is an instance, so that the laws can hold; it is not secure.
-- - auth/handshake.py and auth/signatures.py: Auth.antt and Auth/. A handshake is the sequence of the
--   four stages of each side. Messages are values of Json.antt; the text format of the module `json`
--   is the record `Codec`, a parameter with its round trip as its law, and Json/Toy is an instance.
-- - server/rate_limit.py: Rate.antt and Rate/. Each method holds the lock, so what threads do to the
--   limiter is a sequence of calls.
-- - server/access_control.py: Access.antt and Access/.
-- - server/server_main.py, `handle_client`: Server.antt and Server/. It asks the access controller
--   and the limiter, runs `server_handshake`, and serves requests with `forward_request`, which is a
--   parameter there: any call that may change a state and may raise. `load_config` and the settings
--   that `main` takes from the command line are Server/Config. Server/Threads has the threads that
--   `start_server` starts, as a step relation in which they interleave at every call on the limiter.
-- - client/tunnel_client.py: Tunnel.antt and Tunnel/. It connects, runs `client_handshake`, and
--   exchanges requests for responses, with retries.
-- - server/forwarder.py: Forwarder.antt and Forwarder/. The package `requests`, and the TCP
--   connections of CONNECT, are in the record `Platform`, a parameter. Forwarder/Threads has the
--   CONNECT and RELAY calls of several threads on one table of sessions, with the sockets in a store.
-- - client/client_proxy.py: Proxy.antt and Proxy/ have `_encode_request` and `_decode_response`;
--   Browser.antt and Browser/ have `handle_browser`, `_handle_http_request` and `_handle_connect`, for
--   a tunnel that is a parameter. Browser/EndToEnd puts the forwarder behind it, and
--   Server/Answering the serving loop behind the tunnel client's exchange.
-- - auth/key_manager.py and scripts/generate_keys.py: KeyFiles.antt and KeyFiles/, on a model of
--   directories and files (KeyFiles/Files).
-- - server/server_main.py, `start_server` and `main`, and client/client_proxy.py, `start_proxy` and
--   `main`: Startup.antt. Startup/Deployed puts the two programs on the files of generate_keys.py.
-- - client/client.py, server/server.py and client/testing_connection.py, an earlier prototype that
--   the other parts do not use: Prototype.antt and Prototype/.
-- - scripts/tamper_demo.py: TamperDemo.antt and TamperDemo/, with the server's loop behind it.
-- - scripts/load_test.py: LoadTest.antt and LoadTest/.
-- - scripts/demo_run.py: DemoRun.antt and DemoRun/.
--
-- State and errors. Code that changes a state and may raise is a function from a state to a result
-- and the state after it (Common/Exec); what was done before a raise stays done. World.antt has
-- the state that the network code works on: what arrives on the socket, as chunks, expired
-- timeouts and a reset; what was written; the randomness, and the clock. Times are in ticks of a
-- clock, and `second` is the number of ticks in a second; fractions of a tick, and the rounding of
-- floats, do not arise; an integer that is too large for a float raises `OverflowError`, as in Python.
-- A text that comes from JSON may hold a lone surrogate, which UTF-8 does not encode.
--
-- Bounds. `recv_exact` has n + 1 rounds for n bytes, and each reads a byte or is the last. The
-- relay loop of the forwarder has one round more than there are bytes to come. The relay loop of
-- the proxy takes its bound as an argument; a round that goes on has read bytes or a pause
-- (Browser/Reads). The serving loop takes its bound as an argument; a round that goes on reads a
-- frame. A loop that runs out raises `out_of_fuel`, which is no exception of the program. Lengths
-- in frames are 32-bit, written out as four bytes with their wrap-around.
--
-- Not modelled: argparse, the options and the backlog of listening sockets, logging and what the
-- scripts print; the tests. The time that operations take, so also that `compare_digest` takes
-- constant time, is not modelled. Server, Tunnel and Forwarder model the calls of one thread; the
-- interleavings of several threads are in Rate/Runs and Server/Threads for the limiter, in
-- Forwarder/Threads for the CONNECT sessions, and in LoadTest/Threads for the load test's counters.
-- That an attacker cannot forge signatures or HMACs is not stated: the results say what was
-- received and verified, under which key.
pub mod Common
pub mod World
pub mod Crypto
pub mod Protocol
pub mod Rate
pub mod Access
pub mod Json
pub mod Auth
pub mod Server
pub mod Tunnel
pub mod Forwarder
pub mod Proxy
pub mod Browser
pub mod KeyFiles
pub mod Prototype
pub mod LoadTest
pub mod Startup
pub mod TamperDemo
pub mod DemoRun
