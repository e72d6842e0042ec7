-- ===== src/Server/Threads.antt =====
-- server/server_main.py: `start_server` accepts connections and starts a thread with `handle_client`
-- for each. What the threads do to the limiter, in any interleaving.
pub mod Caps
pub mod Invariant
pub mod Runs
pub mod Started
mod Tests
use custom_vpn_implementatio.Common.{
  ℕ, suc, some, ◌≢◌, ◌+◌, ◌-◌, ◌≤◌, ◌≡◌, refl, ap, sym, ◌∙◌, subst, Bool, true, false, List, [],
  ◌∷◌, ◌++◌, Text, length, arith, ltb, ◌&&◌, All, if◌then◌else◌, bytes_eq, bytes_eq_iff,
  bytes_eq_refl, length-append,
}
use custom_vpn_implementatio.Common.Dict
use custom_vpn_implementatio.Common.Dict.{Dict}
use custom_vpn_implementatio.Rate.{
  RateLimiter, new_limiter, connections_for, try_add_connection, remove_connection, touch,
  check_rate,
}
use custom_vpn_implementatio.Rate.Caps.{
  Represents, count, close_one, admits, count-close_one, length-close_one,
  try_add_connection-Represents, remove_connection-Represents,
}
use custom_vpn_implementatio.Rate.Runs.{new_limiter-Represents}

-- Before `try_add_connection`, up to `remove_connection`, and after the last use of the limiter.
pub data Phase : Type 0 where
  arrived serving ended : Phase

abbrev pub Thread : Type 0
Thread = Text × Phase

pub record System : Type 0 where
  pub limiter : RateLimiter
  pub threads : List Thread

-- One thread goes on; the limiter's lock makes each call one step.
abbrev pub Moves : Text → Phase → Phase → System → System → Type 0
Moves ip from to s s' =
    (before : List Thread) × (after : List Thread) × (s.threads ≡ before ++ (ip, from) ∷ after)
    × (s'.threads ≡ before ++ (ip, to) ∷ after)

pub data Step (second : ℕ) (s s' : System) : Type 0 where
  accepts :
      (ip : Text)
      → s'.limiter ≡ s.limiter
      → s'.threads ≡ (ip, arrived) ∷ s.threads
      → Step second s s'
  denied_by_whitelist :
      (ip : Text) → Moves ip arrived ended s s' → s'.limiter ≡ s.limiter → Step second s s'
  denied_by_cap :
      (ip : Text) (now : ℕ)
      → Moves ip arrived ended s s'
      → (try_add_connection now ip s.limiter).0 ≡ false
      → s'.limiter ≡ (try_add_connection now ip s.limiter).1
      → Step second s s'
  is_admitted :
      (ip : Text) (now : ℕ)
      → Moves ip arrived serving s s'
      → (try_add_connection now ip s.limiter).0 ≡ true
      → s'.limiter ≡ (try_add_connection now ip s.limiter).1
      → Step second s s'
  touches :
      (ip : Text) (now : ℕ)
      → Moves ip serving serving s s'
      → s'.limiter ≡ touch now ip s.limiter
      → Step second s s'
  checks :
      (ip : Text) (created now : ℕ)
      → Moves ip serving serving s s'
      → s'.limiter ≡ (check_rate second created now ip s.limiter).1
      → Step second s s'
  leaves :
      (ip : Text)
      → Moves ip serving ended s s'
      → s'.limiter ≡ remove_connection ip s.limiter
      → Step second s s'

pub data Steps (second : ℕ) : System → System → Type 0 where
  none_more : {s : System} → Steps second s s
  one_more : {s t u : System} → Step second s t → Steps second t u → Steps second s u

-- The addresses of the threads that are being served.
abbrev pub served : List Thread → List Text
served [] = []
served ((ip, serving) ∷ ts) = ip ∷ served ts
served ((ip, _) ∷ ts) = served ts

abbrev pub started : RateLimiter → System
started l = record { limiter = l; threads = [] }
