-- ===== src/Server/Threads/Runs.antt =====
-- `handle_client` as one thread among others: what it does to the limiter is a sequence of steps.
use custom_vpn_implementatio.Common.{
  ℕ, suc, ◌≡◌, refl, Bool, true, false, List, ◌∷◌, ◌++◌, Bytes, Text, if◌then◌else◌,
}
use custom_vpn_implementatio.Common.Exec.{◌>>=◌, Exec, Exn, pure}
use custom_vpn_implementatio.Crypto.{Primitives}
use custom_vpn_implementatio.Json.{Codec}
use custom_vpn_implementatio.Rate.{RateLimiter, try_add_connection}
use custom_vpn_implementatio.Access.{AccessController, V6, is_allowed}
use custom_vpn_implementatio.Server.{
  Server, Outcome, add_connection, admitted, finally_remove, guarded, handle_client,
}
use custom_vpn_implementatio.Server.{denied_by_cap as refused, denied_by_whitelist as denied}
use custom_vpn_implementatio.Server.Uses.{admitted-Kept}
use custom_vpn_implementatio.Server.Threads.{
  Phase, arrived, serving, ended, Thread, System, Step, denied_by_whitelist, denied_by_cap,
  is_admitted, touches, checks, leaves, Steps, none_more, one_more,
}

snoc : (second : ℕ) {s t u : System} → Steps second s t → Step second t u → Steps second s u
snoc second none_more last = one_more last none_more
snoc second (one_more step more) last = one_more step (snoc second more last)

-- The thread among the others.
abbrev pub among :
    (before : List Thread) → Text → Phase → (after : List Thread) → RateLimiter → System
among before ip phase after l = record { limiter = l; threads = before ++ (ip, phase) ∷ after }

module _ (second : ℕ) (p : Primitives) (c : Codec) (describe : Exn → Bytes) {F : Type 0}
    (forward : Bytes → Exec F Bytes) (rounds : ℕ) (priv_s pub_c : Bytes) (ip : Text)
    (before after : List Thread) where
  first_step :
      (now : ℕ) (l : RateLimiter) (free : Bool)
      → (try_add_connection now ip l).0 ≡ free
      → Steps second
          (among before ip arrived after l)
          (among before ip (if free then serving else ended) after (try_add_connection now ip l).1)
  first_step now l true e =
      one_more (is_admitted ip now (before, after, refl, refl) e refl) none_more
  first_step now l false e =
      one_more (denied_by_cap ip now (before, after, refl, refl) e refl) none_more

  admit : Bool → Exec (Server F) Outcome
  admit free = elim free [
    | true ↦
        finally_remove second p c describe forward rounds priv_s pub_c ip
          (admitted second p c describe forward rounds priv_s pub_c ip)
    | false ↦ pure refused
  ]

  admit-Steps :
      (start : System) (free : Bool) (s : Server F)
      → Steps second start (among before ip (if free then serving else ended) after s.limiter)
      → Steps second start (among before ip ended after (admit free s).1.limiter)
  unfolding admit
  admit-Steps start true s steps =
      let used =
        admitted-Kept second p c describe forward ip
          (λ l. Steps second start (among before ip serving after l))
          (λ now l i. snoc second i (touches ip now (before, after, refl, refl) refl))
          (λ created now l i.
            snoc second i (checks ip created now (before, after, refl, refl) refl))
          rounds priv_s pub_c s steps in
      snoc second used (leaves ip (before, after, refl, refl) refl)
  admit-Steps start false s steps = steps

  whitelisted : Bool → Exec (Server F) Outcome
  whitelisted allowed = elim allowed [ true ↦ add_connection ip >>= admit | false ↦ pure denied ]

  whitelisted-Steps :
      (allowed : Bool) (s : Server F)
      → Steps second
          (among before ip arrived after s.limiter)
          (among before ip ended after (whitelisted allowed s).1.limiter)
  unfolding whitelisted add_connection ◌>>=◌
  whitelisted-Steps true s =
      let (free, l) = try_add_connection (s.ticks s.ticked) ip s.limiter in
      admit-Steps (among before ip arrived after s.limiter) free
        (record s { limiter = l; ticked = suc s.ticked })
        (first_step (s.ticks s.ticked) s.limiter free refl)
  whitelisted-Steps false s =
      one_more (denied_by_whitelist ip (before, after, refl, refl) refl) none_more

  -- A run of `handle_client`, among any other threads, whatever the client sends and however it
  -- ends, is a sequence of steps of its thread, from its arrival to its end.
  pub handle_client-Steps :
      (v6 : V6) (access_ctl : AccessController) (s : Server F)
      → Steps second (among before ip arrived after s.limiter) (
          among before ip ended after
            (handle_client second p c describe forward rounds priv_s pub_c ip v6 access_ctl
              s).1.limiter)
  unfolding handle_client guarded whitelisted admit
  handle_client-Steps v6 access_ctl s = whitelisted-Steps (is_allowed v6 ip access_ctl) s
