-- ===== src/Server/Balance.antt =====
-- What `handle_client` does to the counts of connections.
use custom_vpn_implementatio.Common.{
  ℕ, suc, ◌≡◌, refl, sym, subst, Bool, true, false, List, ◌∷◌, Bytes, Text, bytes_eq_refl,
  if◌then◌else◌,
}
use custom_vpn_implementatio.Common.Exec.{◌>>=◌, Exec, Exn, Keeps, Keeps-if, pure}
use custom_vpn_implementatio.Crypto.{Primitives}
use custom_vpn_implementatio.Json.{Codec}
use custom_vpn_implementatio.Server.Uses.{admitted-Kept}
use custom_vpn_implementatio.Rate.{
  RateLimiter, connections_for, check_rate, touch, try_add_connection,
}
use custom_vpn_implementatio.Rate.Caps.{
  Represents, close_one, try_add_connection-Represents, remove_connection-Represents,
}
use custom_vpn_implementatio.Access.{AccessController, V6, is_allowed}
use custom_vpn_implementatio.Server.{
  Server, Outcome, add_connection, admitted, finally_remove, denied_by_cap, guarded, handle_client,
}

abbrev Live : {F : Type 0} → List Text → Server F → Type 0
Live live s = Represents s.limiter live

-- Neither `touch` nor `check_rate` counts.
touch-Represents :
    (live : List Text) (now : ℕ) (ip : Text) (l : RateLimiter)
    → Represents l live
    → Represents (touch now ip l) live
unfolding touch connections_for
touch-Represents live now ip l r = record {
  counted = r.counted;
  totalled = r.totalled;
  tidy = r.tidy;
}

check_rate-Represents :
    (live : List Text) (second created now : ℕ) (ip : Text) (l : RateLimiter)
    → Represents l live
    → Represents (check_rate second created now ip l).1 live
unfolding check_rate connections_for
check_rate-Represents live second created now ip l r = record {
  counted = r.counted;
  totalled = r.totalled;
  tidy = r.tidy;
}

close_one-own : (ip : Text) (live : List Text) → close_one ip (ip ∷ live) ≡ live
unfolding close_one
close_one-own ip live = rw (bytes_eq_refl ip)

module _ (second : ℕ) (p : Primitives) (c : Codec) (describe : Exn → Bytes) {F : Type 0}
    (forward : Bytes → Exec F Bytes) (rounds : ℕ) (priv_s pub_c : Bytes) (ip : Text) where
  admit : Bool → Exec (Server F) Outcome
  admit free = elim free [
    | true ↦
        finally_remove second p c describe forward rounds priv_s pub_c ip
          (admitted second p c describe forward rounds priv_s pub_c ip)
    | false ↦ pure denied_by_cap
  ]

  admit-Live :
      (live : List Text) (free : Bool) (s : Server F)
      → Represents s.limiter (if free then ip ∷ live else live)
      → Represents (admit free s).1.limiter live
  unfolding admit
  admit-Live live true s r = subst (Represents _) (close_one-own ip live) (
      remove_connection-Represents ip _ (ip ∷ live) (
        admitted-Kept second p c describe forward ip (λ l. Represents l (ip ∷ live))
          (λ now l. touch-Represents (ip ∷ live) now ip l)
          (λ created now l. check_rate-Represents (ip ∷ live) second created now ip l) rounds priv_s
          pub_c s r))
  admit-Live live false s r = r

  guarded-Live :
      (v6 : V6) (access_ctl : AccessController) (live : List Text)
      → Keeps (Live live) (guarded second p c describe forward rounds priv_s pub_c ip v6 access_ctl)
  unfolding guarded add_connection ◌>>=◌ admit
  guarded-Live v6 access_ctl live =
      Keeps-if (Live live) _ _
        (λ s r.
          let (verdict, r') =
            try_add_connection-Represents (s.ticks s.ticked) ip s.limiter live r in
          let (free, l) = try_add_connection (s.ticks s.ticked) ip s.limiter in
          admit-Live live free (record s { limiter = l; ticked = suc s.ticked })
            (subst (λ b. Represents l (if b then ip ∷ live else live)) (sym verdict) r'))
        (λ s r. r) (is_allowed v6 ip access_ctl)

  -- Whether the client was refused, failed the handshake, was served to the end or made the thread
  -- raise, `handle_client` returns with the socket closed, and a limiter that counted the
  -- connections `live` when it began counts the same ones again.
  pub handle_client-Represents :
      (v6 : V6) (access_ctl : AccessController) (live : List Text) (s : Server F)
      → Represents s.limiter live
      → let (o, s') =
          handle_client second p c describe forward rounds priv_s pub_c ip v6 access_ctl s in
        (s'.world.closed ≡ true) × Represents s'.limiter live
  unfolding handle_client
  handle_client-Represents v6 access_ctl live s r = (refl, guarded-Live v6 access_ctl live s r)
