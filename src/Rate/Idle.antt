-- ===== src/Rate/Idle.antt =====
-- The idle timeout and the per-address buckets.
use custom_vpn_implementatio.Common.{
  ℕ, ◌+◌, ◌-◌, ◌≤◌, ◌≡◌, true, false, Text, arith, ltb, if◌then◌else◌, bytes_eq, bytes_eq_refl,
}
use custom_vpn_implementatio.Common.Dict.{get-put}
use custom_vpn_implementatio.Rate.{
  RateLimiter, try_add_connection, touch, is_idle, check_rate, consume, bucket_for,
}

-- An address that was touched at `t` is idle exactly when more than the timeout has passed; what
-- is said of other addresses does not change.
pub is_idle-touch :
    (t now : ℕ) (ip j : Text) (l : RateLimiter)
    → is_idle now j (touch t ip l)
      ≡ (if bytes_eq ip j then ltb l.idle_timeout (now - t) else is_idle now j l)
unfolding is_idle touch
is_idle-touch t now ip j l = ground (arith, get-put l.last_activity ip j t)

-- A connection that was just admitted is not idle within the timeout.
pub is_idle-admitted :
    (t now : ℕ) (ip : Text) (l : RateLimiter)
    → (try_add_connection t ip l).0 ≡ true
    → now ≤ t + l.idle_timeout
    → is_idle now ip (try_add_connection t ip l).1 ≡ false
unfolding is_idle try_add_connection
is_idle-admitted t now ip l admitted soon =
    ground (arith, get-put l.last_activity ip ip t, bytes_eq_refl ip)

-- A rate check spends from the bucket of its own address only.
pub bucket_for-check_rate :
    (second created now later : ℕ) (ip j : Text) (l : RateLimiter)
    → bucket_for second later j (check_rate second created now ip l).1 ≡ (
        if bytes_eq ip j
        then (consume second 1 now (bucket_for second created ip l)).1
        else bucket_for second later j l)
unfolding bucket_for check_rate
bucket_for-check_rate second created now later ip j l =
    ground (arith, get-put l.buckets ip j (consume second 1 now (bucket_for second created ip l)).1)
