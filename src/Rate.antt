-- ===== src/Rate.antt =====
-- server/rate_limit.py. Tokens and time are exact: a bucket counts in units of 1/second of a token,
-- where `second` is the number of clock ticks in a second, so `elapsed * rate` needs no rounding.
-- The clock's readings are arguments. `time.monotonic()` does not go back, so `now - last` is the
-- elapsed time. Each method holds the lock, so a run of the threads is a sequence of calls.
pub mod Bucket
pub mod Caps
pub mod Runs
pub mod Idle
mod Tests
use custom_vpn_implementatio.Common.{
  ℕ, suc, ◌+◌, ◌-◌, ◌*◌, min, Bool, true, false, Option, none, some, List, [], ◌∷◌, Text, ltb, leb,
  ◌==◌, if◌then◌else◌,
}
use custom_vpn_implementatio.Common.Dict
use custom_vpn_implementatio.Common.Dict.{Dict}

pub record TokenBucket : Type 0 where
  pub rate : ℕ
  pub capacity : ℕ
  pub tokens : ℕ
  pub last : ℕ

-- `TokenBucket(rate, capacity)`, full.
abbrev pub new_bucket : (second rate capacity now : ℕ) → TokenBucket
new_bucket second rate capacity now = record {
  rate = rate;
  capacity = capacity;
  tokens = capacity * second;
  last = now;
}

-- The first part of `consume`: the tokens that have come in since the last call.
abbrev pub refill : (second now : ℕ) → TokenBucket → TokenBucket
refill second now b = record b {
  tokens = min (b.capacity * second) (b.tokens + (now - b.last) * b.rate);
  last = now;
}

unfoldable pub consume : (second amount now : ℕ) → TokenBucket → Bool × TokenBucket
consume second amount now b =
    let b' = refill second now b in
    if leb (amount * second) b'.tokens
    then (true, record b' { tokens = b'.tokens - amount * second })
    else (false, b')

pub record RateLimiter : Type 0 where
  pub rps : ℕ
  pub burst : ℕ
  pub max_per_ip : ℕ
  pub max_total : ℕ
  pub idle_timeout : ℕ
  pub buckets : Dict TokenBucket
  pub connections : Dict ℕ
  pub total : ℕ
  pub last_activity : Dict ℕ

abbrev pub new_limiter : (rps burst max_per_ip max_total idle_timeout : ℕ) → RateLimiter
new_limiter rps burst max_per_ip max_total idle_timeout = record {
  rps = rps;
  burst = burst;
  max_per_ip = max_per_ip;
  max_total = max_total;
  idle_timeout = idle_timeout;
  buckets = [];
  connections = [];
  total = 0;
  last_activity = [];
}

-- The first section of `check_rate`: the bucket of `ip`, made on the first request.
unfoldable pub bucket_for : (second created : ℕ) → Text → RateLimiter → TokenBucket
bucket_for second created ip l = elim (Dict.get l.buckets ip) [
  | none ↦ new_bucket second l.rps l.burst created
  | some b ↦ b
]

-- `created` is the reading in `TokenBucket.__init__`, `now` that in `consume`.
unfoldable pub check_rate : (second created now : ℕ) → Text → RateLimiter → Bool × RateLimiter
unfolding bucket_for consume
check_rate second created now ip l =
    let (allowed, b) = consume second 1 now (bucket_for second created ip l) in
    (allowed, record l { buckets = Dict.put l.buckets ip b })

unfoldable pub connections_for : Text → RateLimiter → ℕ
connections_for ip l = Dict.get_or l.connections ip 0

unfoldable pub try_add_connection : ℕ → Text → RateLimiter → Bool × RateLimiter
unfolding connections_for
try_add_connection now ip l =
    let current = connections_for ip l in
    if leb l.max_total l.total
    then (false, l)
    else if leb l.max_per_ip current
    then (false, l)
    else (
      true,
      record l {
        connections = Dict.put l.connections ip (current + 1);
        total = l.total + 1;
        last_activity = Dict.put l.last_activity ip now;
      },
    )

abbrev pub is_some_zero : Option ℕ → Bool
is_some_zero none = false
is_some_zero (some n) = n == 0

-- The last step of `remove_connection`: a count of zero is not kept.
abbrev pub drop_zero : Text → Dict ℕ → Dict ℕ
drop_zero ip d = if is_some_zero (Dict.get d ip) then Dict.pop d ip else d

-- `max(0, total - 1)` is `total - 1` on the naturals.
unfoldable pub remove_connection : Text → RateLimiter → RateLimiter
unfolding connections_for
remove_connection ip l =
    let current = connections_for ip l in
    if ltb 0 current
    then record l {
      connections = drop_zero ip (Dict.put l.connections ip (current - 1));
      total = l.total - 1;
    }
    else record l { connections = drop_zero ip l.connections }

unfoldable pub touch : ℕ → Text → RateLimiter → RateLimiter
touch now ip l = record l { last_activity = Dict.put l.last_activity ip now }

unfoldable pub is_idle : ℕ → Text → RateLimiter → Bool
is_idle now ip l = elim (Dict.get l.last_activity ip) [
  | none ↦ true
  | some last ↦ ltb l.idle_timeout (now - last)
]

abbrev pub total_connections : RateLimiter → ℕ
total_connections l = l.total

-- The calls that the threads make, with the readings of the clock, in the order of the lock.
pub data Call : Type 0 where
  adds : ℕ → Text → Call
  removes : Text → Call
  touches : ℕ → Text → Call
  checks : ℕ → ℕ → Text → Call

unfoldable pub step : (second : ℕ) → RateLimiter → Call → RateLimiter
step second l (adds now ip) = (try_add_connection now ip l).1
step second l (removes ip) = remove_connection ip l
step second l (touches now ip) = touch now ip l
step second l (checks created now ip) = (check_rate second created now ip l).1

unfoldable pub run : (second : ℕ) → RateLimiter → List Call → RateLimiter
run second l [] = l
run second l (c ∷ cs) = run second (step second l c) cs
