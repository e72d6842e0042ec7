-- ===== src/LoadTest/Tests.antt =====
-- Three requests by two workers, of which the first one is limited.
use custom_vpn_implementatio.Common.{
  ℕ, zero, suc, ◌+◌, ◌%◌, ◌≡◌, ◌≤◌, refl, true, false, List, [], ◌∷◌, codes,
}
use custom_vpn_implementatio.Forwarder.{occurs}
use custom_vpn_implementatio.Common.Strings.{is_prefix}
use custom_vpn_implementatio.LoadTest.{Attempt, responded, judge}
use custom_vpn_implementatio.LoadTest.Threads.{
  Entry, entries, workers, Interleaves, all_done, one_done, next, per_thread, final_stats,
}
use custom_vpn_implementatio.LoadTest.Counts.{IsBalanced}
use custom_vpn_implementatio.LoadTest.Totals.{
  tally_all, one_call, as_success, as_error, as_limited, totals_lem,
}

abbrev attempts : ℕ → ℕ → Attempt
attempts zero i = responded 429 []
attempts (suc thread) i = responded 200 (codes "ok")

abbrev ticks : ℕ → ℕ → ℕ
ticks thread i = i

abbrev limited : Entry
limited = record { good = false; limited = true; latency = 1 }

abbrev served : Entry
served = record { good = true; limited = false; latency = 1 }

abbrev calls : List (List Entry)
calls = workers (per_thread 3 2) 2 attempts ticks

-- The thread that was started last records first.
order : Interleaves calls (limited ∷ served ∷ [])
unfolding workers entries judge occurs is_prefix
order =
    next ((served ∷ []) ∷ []) [] limited [] refl
      (next [] ([] ∷ []) served [] refl (one_done (one_done all_done)))

totals_lem_example :
    let s = final_stats (limited ∷ served ∷ []) in
    IsBalanced s
    × (s.total ≡ tally_all one_call calls)
    × (s.success ≡ tally_all as_success calls)
    × (s.errors ≡ tally_all as_error calls)
    × (s.rate_limited ≡ tally_all as_limited calls)
    × (s.total + 3 % 2 ≤ 3)
totals_lem_example = totals_lem 3 1 attempts ticks (limited ∷ served ∷ []) order
