-- ===== src/Server/Threads/Started.antt =====
-- server/server_main.py, `start_server`: the limiter of the configuration, and the threads under it.
use custom_vpn_implementatio.Common.{
  ℕ, ◌≤◌, ◌≡◌, refl, sym, subst, Option, none, some, Text, codes, length,
}
use custom_vpn_implementatio.Json.{Json, num, int, Members, find}
use custom_vpn_implementatio.Rate.{RateLimiter, new_limiter, connections_for}
use custom_vpn_implementatio.Rate.Caps.{count}
use custom_vpn_implementatio.Server.Threads.{System, Steps, served, started}
use custom_vpn_implementatio.Server.Threads.Invariant.{served_within}

-- `cfg.get(key, default)` of a limit. Limits that are no natural numbers are not modelled.
abbrev pub natural : Option Json → ℕ → Option ℕ
natural none default_value = some default_value
natural (some (num (int n))) default_value = some n
natural (some v) default_value = none

unfoldable pub limit : Members → Text → ℕ → Option ℕ
limit cfg key default_value = natural (find key cfg) default_value

abbrev with_limit : {A : Type 0} → Option ℕ → (ℕ → Option A) → Option A
with_limit none f = none
with_limit (some n) f = f n

-- `RateLimiter(…)` in `start_server`.
unfoldable pub rate_limiter_of : Members → Option RateLimiter
rate_limiter_of cfg = with_limit (limit cfg (codes "rate_limit_requests_per_second") 10) λ rps.
    with_limit (limit cfg (codes "rate_limit_burst") 20) λ burst.
      with_limit (limit cfg (codes "max_connections_per_ip") 5) λ max_per_ip.
        with_limit (limit cfg (codes "max_total_connections") 50) λ max_total.
          with_limit (limit cfg (codes "idle_timeout_seconds") 300)
            λ idle. some (new_limiter rps burst max_per_ip max_total idle)

with_limit_inv :
    {A : Type 0} (o : Option ℕ) (f : ℕ → Option A) (a : A)
    → with_limit o f ≡ some a
    → (n : ℕ) × (o ≡ some n) × (f n ≡ some a)
with_limit_inv none f a e = absurd (cc e)
with_limit_inv (some n) f a e = (n, refl, e)

some-injective : {A : Type 0} {a b : A} → some a ≡ some b → a ≡ b
some-injective e = cc e

-- The caps of the limiter are those of the configuration.
rate_limiter_of_inv :
    (cfg : Members) (l : RateLimiter)
    → rate_limiter_of cfg ≡ some l
    → (rps : ℕ) × (burst : ℕ) × (max_per_ip : ℕ) × (max_total : ℕ) × (idle : ℕ) × (limit cfg
          (codes "max_connections_per_ip")
          5
        ≡ some max_per_ip)
      × (limit cfg (codes "max_total_connections") 50 ≡ some max_total)
      × (new_limiter rps burst max_per_ip max_total idle ≡ l)
unfolding rate_limiter_of
rate_limiter_of_inv cfg l e =
    let (rps, e1, r1) =
      with_limit_inv (limit cfg (codes "rate_limit_requests_per_second") 10) _ l e in
    let (burst, e2, r2) = with_limit_inv (limit cfg (codes "rate_limit_burst") 20) _ l r1 in
    let (max_per_ip, e3, r3) =
      with_limit_inv (limit cfg (codes "max_connections_per_ip") 5) _ l r2 in
    let (max_total, e4, r4) =
      with_limit_inv (limit cfg (codes "max_total_connections") 50) _ l r3 in
    let (idle, e5, r5) = with_limit_inv (limit cfg (codes "idle_timeout_seconds") 300) _ l r4 in
    (rps, burst, max_per_ip, max_total, idle, e3, e4, some-injective r5)

-- However a server with this configuration accepts connections and the threads of its clients
-- interleave: the limiter counts exactly the threads that are between their admission and their
-- removal, in all and of each address; all of them are at most `max_total_connections` of the
-- configuration (50 if it is not there), and those of one address at most `max_connections_per_ip`
-- (5 if it is not there).
pub served_within_configured :
    (second : ℕ) (cfg : Members) (l : RateLimiter) (s : System)
    → rate_limiter_of cfg ≡ some l
    → Steps second (started l) s
    → (max_total : ℕ) × (max_per_ip : ℕ) × (limit cfg (codes "max_total_connections") 50
        ≡ some max_total)
      × (limit cfg (codes "max_connections_per_ip") 5 ≡ some max_per_ip)
      × (s.limiter.total ≡ length (served s.threads))
      × (length (served s.threads) ≤ max_total)
      × ((ip : Text)
          → (connections_for ip s.limiter ≡ count ip (served s.threads))
            × (count ip (served s.threads) ≤ max_per_ip))
served_within_configured second cfg l s e steps =
    let (rps, burst, max_per_ip, max_total, idle, e3, e4, same) = rate_limiter_of_inv cfg l e in
    let (counted, in_all, by_ip) =
      served_within second rps burst max_per_ip max_total idle s
        (subst (λ r. Steps second (started r) s) (sym same) steps) in
    (max_total, max_per_ip, e4, e3, counted, in_all, by_ip)
