-- ===== src/Prototype/Listen.antt =====
-- The loops of client/client.py and server/server.py that accept connections.
use custom_vpn_implementatio.Common.{◌≡◌, refl, ap, Bool, true, false, List, [], ◌∷◌, Text}
use custom_vpn_implementatio.Common.Exec.{Result, ok, err}
use custom_vpn_implementatio.Startup.{
  Accept, connection, interrupted, broken, Service, waiting, shut_down,
}

abbrev one_more : Text → Service → Service
one_more ip s = record s { clients = ip ∷ s.clients }

-- An exception of `accept` is printed, and the loop goes on.
unfoldable pub listen_loop : List Accept → Service
listen_loop [] = record { clients = []; ending = waiting; closed = false }
listen_loop (connection ip ∷ rest) = one_more ip (listen_loop rest)
listen_loop (interrupted ∷ rest) = record { clients = []; ending = shut_down; closed = true }
listen_loop (broken e ∷ rest) = listen_loop rest

-- `start_local_proxy` and `start_server`: if the socket cannot be bound, they return.
unfoldable pub start_listening : (bound : Result (Unit {0})) → List Accept → Service
start_listening (err e) accepts = record { clients = []; ending = shut_down; closed = false }
start_listening (ok u) accepts = listen_loop accepts

-- The addresses of the connections before the first Ctrl-C, and whether there is one.
abbrev pub until_interrupt : List Accept → List Text × Bool
until_interrupt [] = ([], false)
until_interrupt (connection ip ∷ rest) = let (ips, end_) = until_interrupt rest in (ip ∷ ips, end_)
until_interrupt (interrupted ∷ rest) = ([], true)
until_interrupt (broken e ∷ rest) = until_interrupt rest

-- Every connection before Ctrl-C is served, in order, whatever fails in between; and the listening socket
-- is closed exactly after Ctrl-C.
pub listen_loop_lem :
    (accepts : List Accept)
    → let s = listen_loop accepts in (s.clients, s.closed) ≡ until_interrupt accepts
unfolding listen_loop
listen_loop_lem [] = refl
listen_loop_lem (connection ip ∷ rest) =
    ap (λ (x : List Text × Bool). (ip ∷ x.0, x.1)) (listen_loop_lem rest)
listen_loop_lem (interrupted ∷ rest) = refl
listen_loop_lem (broken e ∷ rest) = listen_loop_lem rest
