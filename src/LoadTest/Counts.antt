-- ===== src/LoadTest/Counts.antt =====
-- What the counters of the load test add up to.
use custom_vpn_implementatio.Common.{
  ℕ, zero, suc, ◌+◌, ◌≡◌, ◌≤◌, refl, Bool, true, false, Option, none, some, length, arith,
  length-append, [], ◌∷◌,
}
use custom_vpn_implementatio.LoadTest.{
  LoadTestStats, record_attempt, Attempt, judge, judged_then, worker,
}

-- Every attempt is counted once in all, once by its kind, and has a latency.
pub record IsBalanced (s : LoadTestStats) : Type 0 where
  pub by_kind : s.total ≡ s.success + (s.errors + s.rate_limited)
  pub timed : s.total ≡ length s.latencies

pub record_attempt-IsBalanced :
    (good limited : Bool) (latency : ℕ) (s : LoadTestStats)
    → IsBalanced s
    → IsBalanced (record_attempt good latency limited s)
unfolding record_attempt
record_attempt-IsBalanced good true latency s h = record {
  by_kind = omega (arith, h.by_kind);
  timed = omega (arith, h.timed, length-append s.latencies (latency ∷ []));
}
record_attempt-IsBalanced true false latency s h = record {
  by_kind = omega (arith, h.by_kind);
  timed = omega (arith, h.timed, length-append s.latencies (latency ∷ []));
}
record_attempt-IsBalanced false false latency s h = record {
  by_kind = omega (arith, h.by_kind);
  timed = omega (arith, h.timed, length-append s.latencies (latency ∷ []));
}

record_attempt-total :
    (good limited : Bool) (latency : ℕ) (s : LoadTestStats)
    → (record_attempt good latency limited s).total ≡ s.total + 1
unfolding record_attempt
record_attempt-total good true latency s = refl
record_attempt-total true false latency s = refl
record_attempt-total false false latency s = refl

-- Balanced, and with at most n more than before.
abbrev pub CountsUpTo : ℕ → LoadTestStats → LoadTestStats → Type 0
CountsUpTo n s s' = IsBalanced s' × (s'.total ≤ s.total + n)

judged_then-IsBalanced :
    (o : Option (Bool × Bool)) (latency count : ℕ) (rest : LoadTestStats → LoadTestStats)
    (s : LoadTestStats)
    → ((t : LoadTestStats) → IsBalanced t → CountsUpTo count t (rest t))
    → IsBalanced s
    → CountsUpTo (suc count) s (judged_then o latency rest s)
judged_then-IsBalanced none latency count rest s more h = (h, omega arith)
judged_then-IsBalanced (some (good, limited)) latency count rest s more h =
    let (balanced, bound) =
      more (record_attempt good latency limited s)
        (record_attempt-IsBalanced good limited latency s h) in
    (balanced, omega (arith, bound, record_attempt-total good limited latency s))

-- A worker keeps the counters in balance, and counts at most as many attempts as it was to make.
pub worker-IsBalanced :
    (count i : ℕ) (attempts : ℕ → Attempt) (ticks : ℕ → ℕ) (s : LoadTestStats)
    → IsBalanced s
    → CountsUpTo count s (worker count i attempts ticks s)
unfolding worker
worker-IsBalanced zero i attempts ticks s h = (h, omega arith)
worker-IsBalanced (suc count) i attempts ticks s h =
    judged_then-IsBalanced (judge (attempts i)) _ count (worker count (suc i) attempts ticks) s
      (worker-IsBalanced count (suc i) attempts ticks) h
