-- ===== src/LoadTest/Totals.antt =====
-- The counters after all workers, in any order of their calls.
use native.Mathlib.Nat.{mod-add-div}
use custom_vpn_implementatio.Common.{
  ℕ, zero, suc, ◌+◌, ◌-◌, ◌*◌, ◌%◌, ◌≡◌, ◌≤◌, refl, ap, sym, ◌∙◌, Bool, true, false, Option, none,
  some, List, [], ◌∷◌, ◌++◌, arith,
}
use custom_vpn_implementatio.LoadTest.{
  LoadTestStats, new_stats, record_attempt, Attempt, judge, judged_then, worker,
}
use custom_vpn_implementatio.LoadTest.Threads.{
  Entry, entry_then, entries, record_all, workers, Interleaves, all_done, one_done, next,
  per_thread, final_stats,
}
use custom_vpn_implementatio.LoadTest.Counts.{IsBalanced, record_attempt-IsBalanced}

-- A worker of LoadTest.antt makes these calls.
judged_then-record_all :
    (o : Option (Bool × Bool)) (latency : ℕ) (rest : LoadTestStats → LoadTestStats)
    (es : List Entry) (s : LoadTestStats)
    → ((t : LoadTestStats) → rest t ≡ record_all es t)
    → judged_then o latency rest s ≡ record_all (entry_then o latency es) s
unfolding record_all
judged_then-record_all none latency rest es s h = refl
judged_then-record_all (some (good, limited)) latency rest es s h =
    h (record_attempt good latency limited s)

pub worker-record_all :
    (count i : ℕ) (attempts : ℕ → Attempt) (ticks : ℕ → ℕ) (s : LoadTestStats)
    → worker count i attempts ticks s ≡ record_all (entries count i attempts ticks) s
unfolding worker entries record_all
worker-record_all zero i attempts ticks s = refl
worker-record_all (suc count) i attempts ticks s =
    judged_then-record_all (judge (attempts i)) _ (worker count (suc i) attempts ticks)
      (entries count (suc i) attempts ticks) s (worker-record_all count (suc i) attempts ticks)

-- The sum of a measure over calls, and over the calls of all threads.
unfoldable pub tally : (Entry → ℕ) → List Entry → ℕ
tally f [] = 0
tally f (e ∷ es) = f e + tally f es

unfoldable pub tally_all : (Entry → ℕ) → List (List Entry) → ℕ
tally_all f [] = 0
tally_all f (es ∷ ts) = tally f es + tally_all f ts

tally_all-step :
    (f : Entry → ℕ) (before after : List (List Entry)) (e : Entry) (rest : List Entry)
    → tally_all f (before ++ (e ∷ rest) ∷ after) ≡ f e + tally_all f (before ++ rest ∷ after)
unfolding tally_all tally
tally_all-step f [] after e rest = omega arith
tally_all-step f (es ∷ before) after e rest = omega (arith, tally_all-step f before after e rest)

Interleaves-tally :
    (f : Entry → ℕ) {ts : List (List Entry)} {log : List Entry}
    → Interleaves ts log
    → tally f log ≡ tally_all f ts
unfolding tally tally_all
Interleaves-tally f all_done = refl
Interleaves-tally f (one_done more) = omega (arith, Interleaves-tally f more)
Interleaves-tally f (next before after e rest same more) =
    ap (λ n. f e + n) (Interleaves-tally f more)
    ∙ sym (tally_all-step f before after e rest)
    ∙ sym (ap (tally_all f) same)

-- What a call counts as.
abbrev pub as_number : Bool → ℕ
as_number true = 1
as_number false = 0

abbrev pub one_call : Entry → ℕ
one_call e = 1

abbrev pub as_limited : Entry → ℕ
as_limited e = as_number e.limited

abbrev pub unless_limited : Bool → ℕ → ℕ
unless_limited true n = 0
unless_limited false n = n

abbrev pub as_success : Entry → ℕ
as_success e = unless_limited e.limited (as_number e.good)

abbrev pub as_error : Entry → ℕ
as_error e = unless_limited e.limited (1 - as_number e.good)

-- The counters after a number of calls.
pub record Counts (s s' : LoadTestStats) (of : (Entry → ℕ) → ℕ) : Type 0 where
  pub total : s'.total ≡ s.total + of one_call
  pub success : s'.success ≡ s.success + of as_success
  pub errors : s'.errors ≡ s.errors + of as_error
  pub rate_limited : s'.rate_limited ≡ s.rate_limited + of as_limited

record_attempt-Counts :
    (good limited : Bool) (latency : ℕ) (s : LoadTestStats)
    → Counts s
        (record_attempt good latency limited s)
        (λ f. f (record { good = good; limited = limited; latency = latency }))
unfolding record_attempt
record_attempt-Counts good true latency s = omega arith
record_attempt-Counts true false latency s = omega arith
record_attempt-Counts false false latency s = omega arith

record_all-Counts :
    (es : List Entry) (s : LoadTestStats) → Counts s (record_all es s) (λ f. tally f es)
unfolding record_all tally
record_all-Counts [] s = omega arith
record_all-Counts (e ∷ es) s =
    let s1 = record_attempt e.good e.latency e.limited s in
    let first = record_attempt-Counts e.good e.limited e.latency s in
    let more = record_all-Counts es s1 in
    record {
      total = omega (arith, first.total, more.total);
      success = omega (arith, first.success, more.success);
      errors = omega (arith, first.errors, more.errors);
      rate_limited = omega (arith, first.rate_limited, more.rate_limited);
    }

record_all-IsBalanced :
    (es : List Entry) (s : LoadTestStats) → IsBalanced s → IsBalanced (record_all es s)
unfolding record_all
record_all-IsBalanced [] s h = h
record_all-IsBalanced (e ∷ es) s h =
    record_all-IsBalanced es (record_attempt e.good e.latency e.limited s)
      (record_attempt-IsBalanced e.good e.limited e.latency s h)

-- A worker makes at most its number of calls.
entry_then-le :
    (o : Option (Bool × Bool)) (latency count : ℕ) (es : List Entry)
    → tally one_call es ≤ count
    → tally one_call (entry_then o latency es) ≤ suc count
unfolding tally
entry_then-le none latency count es h = omega arith
entry_then-le (some (good, limited)) latency count es h = omega (arith, h)

entries-le :
    (count i : ℕ) (attempts : ℕ → Attempt) (ticks : ℕ → ℕ)
    → tally one_call (entries count i attempts ticks) ≤ count
unfolding tally entries
entries-le zero i attempts ticks = omega arith
entries-le (suc count) i attempts ticks =
    entry_then-le (judge (attempts i)) _ count (entries count (suc i) attempts ticks)
      (entries-le count (suc i) attempts ticks)

workers-le :
    (count threads : ℕ) (attempts : ℕ → ℕ → Attempt) (ticks : ℕ → ℕ → ℕ)
    → tally_all one_call (workers count threads attempts ticks) ≤ threads * count
unfolding tally_all workers
workers-le count zero attempts ticks = omega arith
workers-le count (suc threads) attempts ticks =
    let step : suc threads * count ≡ count + threads * count = grind arith in
    omega (
      arith,
      step,
      entries-le count 0 (attempts threads) (ticks threads),
      workers-le count threads attempts ticks,
    )

-- With at least one thread, however their calls of `record` interleave: the counters are in balance, and
-- each is the sum of what the threads' own calls count, so the order does not matter; and
-- together they count at most the requests that were asked for, less the remainder of the division
-- by the number of threads, which is never sent.
pub totals_lem :
    (requests threads : ℕ) (attempts : ℕ → ℕ → Attempt) (ticks : ℕ → ℕ → ℕ) (log : List Entry)
    → let calls = workers (per_thread requests (suc threads)) (suc threads) attempts ticks in
      Interleaves calls log
      → let s = final_stats log in
        IsBalanced s
        × (s.total ≡ tally_all one_call calls)
        × (s.success ≡ tally_all as_success calls)
        × (s.errors ≡ tally_all as_error calls)
        × (s.rate_limited ≡ tally_all as_limited calls)
        × (s.total + requests % suc threads ≤ requests)
totals_lem requests threads attempts ticks log order =
    let counts = record_all-Counts log new_stats in
    let same = λ (f : Entry → ℕ). Interleaves-tally f order in
    let most = workers-le (per_thread requests (suc threads)) (suc threads) attempts ticks in
    (
      record_all-IsBalanced log new_stats (record { by_kind = omega arith; timed = omega arith }),
      omega (arith, counts.total, same one_call),
      omega (arith, counts.success, same as_success),
      omega (arith, counts.errors, same as_error),
      omega (arith, counts.rate_limited, same as_limited),
      omega (arith, counts.total, same one_call, most, mod-add-div requests (suc threads)),
    )
