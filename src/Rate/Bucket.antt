-- ===== src/Rate/Bucket.antt =====
-- The token bucket over a sequence of requests.
use custom_vpn_implementatio.Common.{
  ℕ, ◌+◌, ◌-◌, ◌*◌, ◌≤◌, ◌<◌, ◌≡◌, refl, ap, Bool, true, false, List, [], ◌∷◌, arith,
}
use custom_vpn_implementatio.Rate.{TokenBucket, consume}

abbrev pub IsFilled : ℕ → TokenBucket → Type 0
IsFilled second b = b.tokens ≤ b.capacity * second

-- A bucket never holds more than its capacity, and never changes its parameters.
pub consume-IsFilled :
    (second amount now : ℕ) (b : TokenBucket) → IsFilled second (consume second amount now b).1
unfolding consume
consume-IsFilled second amount now b = ground arith

pub consume_keeps :
    (second amount now : ℕ) (b : TokenBucket)
    → ((consume second amount now b).1.rate ≡ b.rate)
      × ((consume second amount now b).1.capacity ≡ b.capacity)
      × ((consume second amount now b).1.last ≡ now)
unfolding consume
consume_keeps second amount now b = ground arith

abbrev granted : ℕ → Bool → ℕ
granted amount true = amount
granted amount false = 0

-- One call: what is granted and what is left come from what was there and what came in.
consume_pays :
    (second amount now : ℕ) (b : TokenBucket)
    → granted amount (consume second amount now b).0 * second
        + (consume second amount now b).1.tokens
      ≤ b.tokens + (now - b.last) * b.rate
unfolding consume
consume_pays second amount now b = ground arith

-- The tokens that a sequence of requests, each an amount and a time, is granted; and the bucket after it.
pub grants : ℕ → TokenBucket → List (ℕ × ℕ) → ℕ
grants second b [] = 0
grants second b ((amount, now) ∷ rs) =
    let (allowed, b') = consume second amount now b in granted amount allowed + grants second b' rs

pub after : ℕ → TokenBucket → List (ℕ × ℕ) → TokenBucket
after second b [] = b
after second b ((amount, now) ∷ rs) = after second (consume second amount now b).1 rs

-- The times do not go back.
abbrev pub InOrder : ℕ → List (ℕ × ℕ) → Type 0
InOrder t [] = Unit
InOrder t ((amount, now) ∷ rs) = (t ≤ now) × InOrder now rs

abbrev pub last_time : ℕ → List (ℕ × ℕ) → ℕ
last_time t [] = t
last_time t ((amount, now) ∷ rs) = last_time now rs

last_time-le : (t : ℕ) (rs : List (ℕ × ℕ)) → InOrder t rs → t ≤ last_time t rs
last_time-le t [] h = omega arith
last_time-le t ((amount, now) ∷ rs) h = omega (arith, last_time-le now rs h.1)

-- From any state of the bucket and over requests of any amounts, in the order of time, what is
-- granted is at most what the bucket held and what its rate brings in up to the last request.
pub grants-le :
    (second t : ℕ) (b : TokenBucket) (rs : List (ℕ × ℕ))
    → b.last ≡ t
    → InOrder t rs
    → grants second b rs * second ≤ b.tokens + (last_time t rs - t) * b.rate
unfolding grants
grants-le second t b [] e h = omega arith
grants-le second t b ((amount, now) ∷ rs) e h =
    let b' = (consume second amount now b).1 in
    let keeps = consume_keeps second amount now b in
    let later = grants-le second now b' rs keeps.2 h.1 in
    let rated = ap (λ r. (last_time now rs - now) * r) keeps.0 in
    let elapsed = ap (λ u. (now - u) * b.rate) e in
    let span : last_time now rs - t ≡ (now - t) + (last_time now rs - now) =
      omega (arith, last_time-le now rs h.1) in
    let step : grants second b ((amount, now) ∷ rs)
        ≡ granted amount (consume second amount now b).0 + grants second b' rs =
      refl in
    rw (span, step) (omega (arith, consume_pays second amount now b, later, rated, elapsed))

-- A bucket that holds at most its capacity, asked for any amounts at times that do not go back,
-- grants at most its capacity and what its rate brings in from its last update to the last request.
pub grants-burst :
    (second t : ℕ) (b : TokenBucket) (rs : List (ℕ × ℕ))
    → IsFilled second b
    → b.last ≡ t
    → InOrder t rs
    → grants second b rs * second ≤ b.capacity * second + (last_time t rs - t) * b.rate
grants-burst second t b rs f e h = omega (arith, grants-le second t b rs e h)

-- A request that is within the capacity, and that is covered by what the bucket held and what its
-- rate has brought in since, is granted.
pub consume_grants :
    (second amount now : ℕ) (b : TokenBucket)
    → amount * second ≤ b.capacity * second
    → amount * second ≤ b.tokens + (now - b.last) * b.rate
    → (consume second amount now b).0 ≡ true
unfolding consume
consume_grants second amount now b fits came = ground arith

-- A refusal costs nothing but the update of the clock.
pub consume_refuses :
    (second amount now : ℕ) (b : TokenBucket)
    → b.tokens + (now - b.last) * b.rate < amount * second
    → (consume second amount now b).0 ≡ false
unfolding consume
consume_refuses second amount now b short = ground arith
