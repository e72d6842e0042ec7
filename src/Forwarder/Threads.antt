-- ===== src/Forwarder/Threads.antt =====
-- server/forwarder.py under several threads: `_connect_sessions` is shared, and a thread goes on from
-- one use of it, or of a socket, to the next. The threads interleave between these.
pub mod Peers
pub mod Represents
pub mod Reading
pub mod Alone
pub mod Opens
pub mod Races
mod Tests
use custom_vpn_implementatio.Common.{
  ℕ, zero, suc, ◌≡◌, Bool, true, false, Option, none, some, [], ◌∷◌, ◌++◌, Bytes, Text, codes,
  length, ltb, ◌==◌, if◌then◌else◌,
}
use custom_vpn_implementatio.Common.Exec.{Exn, os_error, Result, ok, err}
use custom_vpn_implementatio.Common.Strings.{rsplit_colon}
use custom_vpn_implementatio.Common.Dict
use custom_vpn_implementatio.Common.Dict.{Dict}
use custom_vpn_implementatio.World.{World, Action, recv}
use custom_vpn_implementatio.Json.{Codec, end}
use custom_vpn_implementatio.Forwarder.{
  Platform, build_response, error_response, relay_response, port_of, send_some,
}

-- A connected socket: where it is connected to, and what goes over it.
pub record Socket : Type 0 where
  pub peer : Text × Option Text
  pub world : World
  pub shut : Bool

-- `_connect_sessions` holds references to sockets: the i-th call of `connect` makes socket i.
pub record Shared : Type 0 where
  pub sessions : Dict ℕ
  pub sockets : ℕ → Socket
  pub dialled : ℕ

-- Where a thread stands in a call: what it does next, with its locals. `ready` is before a call, and
-- `answered` after one.
pub data Task : Type 0 where
  ready : Task
  connecting : Text → Task
  storing : Text → ℕ → Task
  looking : Text → Bytes → Task
  sending : Text → ℕ → Bytes → Task
  reading : Text → ℕ → Bytes → Task
  closing : Text → ℕ → Bytes → Task
  failing : Text → ℕ → Exn → Task
  discarding : Text → ℕ → Exn → Task
  answered : Bytes → Task

-- An operation of a socket: it raises on one that has been closed.
abbrev pub on_socket : {A : Type 0} → Bool → Action A → Action A
on_socket true m w = (err os_error, w)
on_socket false m w = m w

-- Without data nothing is sent.
abbrev pub send_on : Bool → Bytes → Action (Unit {0})
send_on shut [] = send_some []
send_on shut (b ∷ bs) = on_socket shut (send_some (b ∷ bs))

abbrev pub change : (Socket → Socket) → ℕ → Shared → Shared
change f i s = record s { sockets = λ j. if i == j then f (s.sockets j) else s.sockets j }

abbrev pub put_world : World → ℕ → Shared → Shared
put_world w = change (λ k. record k { world = w })

abbrev pub shut_socket : ℕ → Shared → Shared
shut_socket = change (λ k. record k { shut = true })

pub record System : Type 0 where
  pub tasks : ℕ → Task
  pub shared : Shared

abbrev pub between_calls : Task → Bool
between_calls ready = true
between_calls (answered bytes) = true
between_calls _ = false

abbrev pub turn : ℕ → Task × Shared → System → System
turn k x s = record { tasks = λ j. if k == j then x.0 else s.tasks j; shared = x.1 }

-- No call, no session and no socket.
abbrev pub initial : (ℕ → Socket) → System
initial sockets = record {
  tasks = λ k. ready;
  shared = record { sessions = []; sockets = sockets; dialled = 0 };
}

module _ (c : Codec) (os : Platform) where
  -- The host and the port of a target.
  abbrev pub host_port : Text → Text × Option Text
  host_port target = port_of c os target (rsplit_colon target)

  abbrev pub dial_task : Text → Result World → Shared → Task × Shared
  dial_task target (ok w) s = (
    storing target s.dialled,
    record s {
      sockets = λ j.
          if s.dialled == j
          then record { peer = host_port target; world = w; shut = false }
          else s.sockets j;
      dialled = suc s.dialled;
    },
  )
  dial_task target (err e) s = (
    answered (error_response c os 502 (codes "502") (codes "CONNECT failed: " ++ os.describe e)),
    record s { dialled = suc s.dialled },
  )

  abbrev pub lookup_task : Text → Bytes → Option ℕ → Task
  lookup_task target data_out none =
      answered (error_response c os 502 (codes "502") (codes "No CONNECT session for " ++ target))
  lookup_task target data_out (some i) = sending target i data_out

  abbrev pub send_task : Text → ℕ → Result (Unit {0}) → Task
  send_task target i (ok u) = reading target i []
  send_task target i (err e) = failing target i e

  abbrev pub recv_task : Text → ℕ → Bytes → Result Bytes → Task
  recv_task target i response_data (err e) = answered (relay_response c os response_data false)
  recv_task target i response_data (ok []) = closing target i response_data
  recv_task target i response_data (ok (b ∷ bs)) =
      if ltb (length (b ∷ bs)) 65536
      then answered (relay_response c os (response_data ++ b ∷ bs) false)
      else reading target i (response_data ++ b ∷ bs)

  -- What a thread does up to the next use of what is shared.
  unfoldable pub go : Task → Shared → Task × Shared
  go ready s = (ready, s)
  go (connecting target) s =
      let (host, port) = host_port target in dial_task target (os.connect s.dialled host port) s
  go (storing target i) s = (
    answered (build_response c os 200 end []),
    record s { sessions = Dict.put s.sessions target i },
  )
  go (looking target data_out) s = (lookup_task target data_out (Dict.get s.sessions target), s)
  go (sending target i data_out) s =
      let (r, w) = send_on (s.sockets i).shut data_out (s.sockets i).world in
      (send_task target i r, put_world w i s)
  go (reading target i response_data) s =
      let (r, w) = on_socket (s.sockets i).shut (recv 65536) (s.sockets i).world in
      (recv_task target i response_data r, put_world w i s)
  go (closing target i response_data) s = (
    answered (relay_response c os response_data true),
    record s { sessions = Dict.pop s.sessions target },
  )
  go (failing target i e) s =
      (discarding target i e, record s { sessions = Dict.pop s.sessions target })
  go (discarding target i e) s = (
    answered (error_response c os 502 (codes "502") (codes "Relay error: " ++ os.describe e)),
    shut_socket i s,
  )
  go (answered bytes) s = (answered bytes, s)

  -- A number of such stretches of one thread, with no other thread between them.
  unfoldable pub goes_alone : ℕ → Task → Shared → Task × Shared
  goes_alone zero t s = (t, s)
  goes_alone (suc n) t s = let (t', s') = go t s in goes_alone n t' s'

  -- A thread begins a call of `_handle_connect` or of `_handle_relay`, or goes on with one.
  pub data Step (s : System) : System → Type 0 where
    calls_connect :
        (k : ℕ) (target : Text)
        → between_calls (s.tasks k) ≡ true
        → Step s (turn k (connecting target, s.shared) s)
    calls_relay :
        (k : ℕ) (target : Text) (data_out : Bytes)
        → between_calls (s.tasks k) ≡ true
        → Step s (turn k (looking target data_out, s.shared) s)
    moves_on : (k : ℕ) → Step s (turn k (go (s.tasks k) s.shared) s)

  pub data Reach (sockets : ℕ → Socket) : System → Type 0 where
    start : Reach sockets (initial sockets)
    later : {s t : System} → Reach sockets s → Step s t → Reach sockets t
