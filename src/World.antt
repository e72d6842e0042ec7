-- ===== src/World.antt =====
-- What a connection's code sees of the standard library: a TCP socket (`recv`, `sendall`,
-- `close`), `os.urandom` and `time.time`. Every later use of the network, of randomness and of the
-- clock goes through these.
pub mod Stream
pub mod Sample
use custom_vpn_implementatio.Common.{
  ℕ, zero, suc, ◌+◌, ◌-◌, ◌%◌, Bool, true, false, List, [], ◌∷◌, ◌++◌, Bytes, length, take, drop,
  if◌then◌else◌,
}
use custom_vpn_implementatio.Common.Exec.{Exec, Exn, connection_error, timeout, Result, ok, err}

-- What arrives: a part of the peer's byte stream, with at least one byte, an expired timeout, or
-- a reset connection. After the last event the peer has closed.
pub data Event : Type 0 where
  chunk : ℕ → Bytes → Event
  timed_out reset : Event

-- `random i` is the i-th random byte, `clock i` what the i-th reading of the clock gives, and
-- `writable i` says whether the i-th `sendall` goes through; the counters say how much is used.
pub record World : Type 0 where
  pub incoming : List Event
  pub outgoing : Bytes
  pub writable : ℕ → Bool
  pub sends : ℕ
  pub random : ℕ → ℕ
  pub drawn : ℕ
  pub clock : ℕ → ℕ
  pub readings : ℕ
  pub closed : Bool

abbrev pub Action : Type 0 → Type 0
Action A = Exec World A

-- Bytes that were not read stay in front.
abbrev pub requeue : Bytes → List Event → List Event
requeue [] es = es
requeue (b ∷ bs) es = chunk b bs ∷ es

abbrev recv_from : ℕ → List Event → Result Bytes × List Event
recv_from n [] = (ok [], [])
recv_from n (chunk b bs ∷ es) = (ok (take n (b ∷ bs)), requeue (drop n (b ∷ bs)) es)
recv_from n (timed_out ∷ es) = (err timeout, es)
recv_from n (reset ∷ es) = (err connection_error, es)

-- `sock.recv(n)`: at most n bytes; none when the peer has closed.
unfoldable pub recv : ℕ → Action Bytes
recv n w = let (r, es) = recv_from n w.incoming in (r, record w { incoming = es })

-- `sock.sendall(data)`
unfoldable pub sendall : Bytes → Action (Unit {0})
sendall bytes w =
    if w.writable w.sends
    then (ok tt, record w { outgoing = w.outgoing ++ bytes; sends = suc w.sends })
    else (err connection_error, record w { sends = suc w.sends })

-- `sock.close()`
abbrev pub close : World → World
close w = record w { closed = true }

abbrev pub random_bytes : ℕ → (ℕ → ℕ) → ℕ → Bytes
random_bytes zero f i = []
random_bytes (suc n) f i = f i % 256 ∷ random_bytes n f (suc i)

-- `os.urandom(n)`
unfoldable pub urandom : ℕ → Action Bytes
urandom n w = (ok (random_bytes n w.random w.drawn), record w { drawn = w.drawn + n })

-- `time.time()`, in ticks of the clock.
unfoldable pub time : Action ℕ
time w = (ok (w.clock w.readings), record w { readings = suc w.readings })
