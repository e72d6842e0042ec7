-- ===== src/LoadTest.antt =====
-- scripts/load_test.py: the counters and the workers of the load test.
pub mod Counts
pub mod Threads
pub mod Totals
mod Tests
use custom_vpn_implementatio.Common.{
  ℕ, zero, suc, ◌+◌, ◌-◌, Bool, true, false, Option, none, some, List, [], ◌∷◌, ◌++◌, Bytes, Text,
  codes, ◌==◌, ◌||◌,
}
use custom_vpn_implementatio.Forwarder.{occurs}

pub record LoadTestStats : Type 0 where
  pub total : ℕ
  pub success : ℕ
  pub errors : ℕ
  pub rate_limited : ℕ
  pub latencies : List ℕ

abbrev pub new_stats : LoadTestStats
new_stats = record { total = 0; success = 0; errors = 0; rate_limited = 0; latencies = [] }

-- `record`, under its lock.
abbrev pub count_kind : (good limited : Bool) → LoadTestStats → LoadTestStats
count_kind good true s = record s { rate_limited = s.rate_limited + 1 }
count_kind true false s = record s { success = s.success + 1 }
count_kind false false s = record s { errors = s.errors + 1 }

unfoldable pub record_attempt :
    (good : Bool) (latency : ℕ) (limited : Bool) → LoadTestStats → LoadTestStats
record_attempt good latency limited s =
    count_kind good limited
      (record s { total = s.total + 1; latencies = s.latencies ++ latency ∷ [] })

-- How a request of `urllib` ends: with a status and a body, with an `HTTPError` whose body can be
-- read or not, or with another exception and its text.
pub data Attempt : Type 0 where
  responded : ℕ → Bytes → Attempt
  http_error : ℕ → Option Bytes → Attempt
  failed : Text → Attempt

abbrev pub says_limited : Text → Bool
says_limited message =
    occurs (codes "Rate limit") message
    || occurs (codes "502") message
    || occurs (codes "429") message

-- What is recorded: whether it went well and whether it was limited. None where the reading of the
-- error's body raises, which ends the worker.
abbrev pub judge_error : Bool → Option Bytes → Option (Bool × Bool)
judge_error true body = some (false, true)
judge_error false none = none
judge_error false (some body) = some (false, occurs (codes "Rate limit") body)

abbrev pub judge_opened : Bool → Bool × Bool
judge_opened true = (false, true)
judge_opened false = (true, false)

unfoldable pub judge : Attempt → Option (Bool × Bool)
judge (responded code body) = some (judge_opened (code == 429 || occurs (codes "Rate limit") body))
judge (http_error code body) = judge_error (code == 429) body
judge (failed message) = some (false, says_limited message)

-- An attempt and what the worker does after it.
abbrev pub judged_then :
    Option (Bool × Bool)
    → (latency : ℕ) → (LoadTestStats → LoadTestStats)
    → LoadTestStats
    → LoadTestStats
judged_then none latency rest s = s
judged_then (some (good, limited)) latency rest s = rest (record_attempt good latency limited s)

-- `worker`: `attempts i` is what its i-th request gives, and `ticks` are its readings of the clock.
unfoldable pub worker :
    (count i : ℕ) → (ℕ → Attempt) → (ticks : ℕ → ℕ) → LoadTestStats → LoadTestStats
worker zero i attempts ticks s = s
worker (suc count) i attempts ticks s =
    judged_then (judge (attempts i)) (ticks (i + i + 1) - ticks (i + i))
      (worker count (suc i) attempts ticks) s
