-- ===== src/LoadTest/Threads.antt =====
-- `main` of scripts/load_test.py: the workers, which record under one lock in any order.
use custom_vpn_implementatio.Common.{
  ℕ, zero, suc, ◌+◌, ◌-◌, ◌/◌, ◌≡◌, Bool, Option, none, some, List, [], ◌∷◌, ◌++◌,
}
use custom_vpn_implementatio.LoadTest.{LoadTestStats, new_stats, record_attempt, Attempt, judge}

-- The arguments of a call of `record`.
pub record Entry : Type 0 where
  pub good : Bool
  pub limited : Bool
  pub latency : ℕ

abbrev pub entry_then : Option (Bool × Bool) → (latency : ℕ) → List Entry → List Entry
entry_then none latency rest = []
entry_then (some (good, limited)) latency rest =
    record { good = good; limited = limited; latency = latency } ∷ rest

-- The calls that a worker makes.
unfoldable pub entries : (count i : ℕ) → (ℕ → Attempt) → (ticks : ℕ → ℕ) → List Entry
entries zero i attempts ticks = []
entries (suc count) i attempts ticks =
    entry_then (judge (attempts i)) (ticks (i + i + 1) - ticks (i + i))
      (entries count (suc i) attempts ticks)

unfoldable pub record_all : List Entry → LoadTestStats → LoadTestStats
record_all [] s = s
record_all (e ∷ es) s = record_all es (record_attempt e.good e.latency e.limited s)

-- The calls of a number of workers, of which each makes `count` attempts.
unfoldable pub workers : (count threads : ℕ) → (ℕ → ℕ → Attempt) → (ℕ → ℕ → ℕ) → List (List Entry)
workers count zero attempts ticks = []
workers count (suc threads) attempts ticks =
    entries count 0 (attempts threads) (ticks threads) ∷ workers count threads attempts ticks

-- An order in which the calls of all threads can take the lock.
pub data Interleaves : List (List Entry) → List Entry → Type 0 where
  all_done : Interleaves [] []
  one_done :
      {ts : List (List Entry)} {log : List Entry} → Interleaves ts log → Interleaves ([] ∷ ts) log
  next :
      (before after : List (List Entry)) (e : Entry) (rest : List Entry) {ts : List (List Entry)}
      {log : List Entry}
      → ts ≡ before ++ (e ∷ rest) ∷ after
      → Interleaves (before ++ rest ∷ after) log
      → Interleaves ts (e ∷ log)

-- `args.requests // args.threads`
abbrev pub per_thread : (requests threads : ℕ) → ℕ
per_thread requests threads = requests / threads

-- The counters at the end, when the threads' calls came in the order of the log.
abbrev pub final_stats : List Entry → LoadTestStats
final_stats log = record_all log new_stats
