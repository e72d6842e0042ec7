-- ===== src/Rate/Tests.antt =====
-- Runs of the limiter.
use custom_vpn_implementatio.Common.{ℕ, ◌+◌, ◌-◌, ◌*◌, ◌≤◌, refl, List, [], ◌∷◌, Text, codes, arith}
use custom_vpn_implementatio.Rate.{
  TokenBucket, new_bucket, RateLimiter, new_limiter, connections_for, Call, adds, removes, run,
}
use custom_vpn_implementatio.Rate.Bucket.{grants, grants-burst}
use custom_vpn_implementatio.Rate.Caps.{Represents}
use custom_vpn_implementatio.Rate.Runs.{run-new_limiter, live_run}

abbrev home : Text
home = codes "10.0.0.1"

abbrev away : Text
away = codes "10.0.0.2"

abbrev requests : List (ℕ × ℕ)
requests = (1, 5) ∷ (2, 5) ∷ (1, 7) ∷ []

abbrev full : TokenBucket
full = new_bucket 1 2 3 5

grants-burst_example : grants 1 full requests * 1 ≤ 3 * 1 + (7 - 5) * 2
grants-burst_example =
    grants-burst 1 5 full requests (omega arith) refl
      (omega arith, (omega arith, (omega arith, tt)))

abbrev calls : List Call
calls = adds 0 home ∷ adds 0 home ∷ adds 1 away ∷ removes home ∷ []

abbrev limiter : RateLimiter
limiter = run 1 (new_limiter 10 20 1 5 300) calls

run-new_limiter_example :
    Represents limiter (live_run 5 1 [] calls)
    × (limiter.total ≤ 5)
    × ((ip : Text) → connections_for ip limiter ≤ 1)
run-new_limiter_example = run-new_limiter 1 10 20 1 5 300 calls
