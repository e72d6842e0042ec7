-- ===== src/Auth/Freshness.antt =====
-- The drift test of the timestamps in auth/handshake.py, and what the server does with a hello
-- that fails it.
use custom_vpn_implementatio.Common.{
  ℕ, suc, ◌+◌, ◌-◌, ◌*◌, ◌^◌, ◌≡◌, refl, ◌∙◌, Bool, true, false, leb, ltb, ◌&&◌, ◌++◌, Bytes, codes,
  IsBytes, bytes_eq,
}
use custom_vpn_implementatio.Common.Exec.{
  ◌>>=◌, Result, lift, pure, err, ok, bind_ok, value_error, stale_timestamp,
}
use custom_vpn_implementatio.World.{World, time}
use custom_vpn_implementatio.World.Stream.{stream}
use custom_vpn_implementatio.Crypto.{Primitives, Laws}
use custom_vpn_implementatio.Protocol.{handshake_client_hello}
use custom_vpn_implementatio.Json.{
  Json, num, str, obj, member, end, Number, int, minus_int, float, minus_float, nan, infinity,
  minus_infinity, Codec, Distinct, find, subscript,
}
use custom_vpn_implementatio.Json.Hex.{hex}
use custom_vpn_implementatio.Auth.{drifts, is_stale, send_error, reject_if, server_accept}
use custom_vpn_implementatio.Auth.Messages.{message, Fits, got, receive_lem, hex_field_lem}

-- A number that `time.time() - ts` can take: an integer is rounded to a float.
abbrev pub fits_float : Number → Bool
fits_float (int n) = ltb n (2 ^ 1024 - 2 ^ 970)
fits_float (minus_int n) = ltb n (2 ^ 1024 - 2 ^ 970)
fits_float _ = true

-- At most 300 seconds before and at most 300 seconds after the receiver's clock; NaN is taken for
-- such a time.
abbrev pub in_window : (second now : ℕ) → Number → Bool
in_window second now (int n) =
    leb now (n * second + 300 * second) && leb (n * second) (now + 300 * second)
in_window second now (minus_int n) = leb (now + n * second) (300 * second)
in_window second now (float t) = leb now (t + 300 * second) && leb t (now + 300 * second)
in_window second now (minus_float t) = leb (now + t) (300 * second)
in_window second now nan = true
in_window second now infinity = false
in_window second now minus_infinity = false

-- A hello whose timestamp is any number that JSON can write.
abbrev pub hello_at : Bytes → Number → Json
hello_at nc t =
    obj (member (codes "nonce_c") (str (hex nc)) (member (codes "timestamp") (num t) end))

hello_at-Distinct : (nc : Bytes) (t : Number) → Distinct (hello_at nc t)
unfolding find bytes_eq
hello_at-Distinct nc t = (refl, tt, (refl, tt, tt))

-- What the server has told a client whose hello is stale.
abbrev pub too_late : Primitives → World → World
too_late p w = (send_error p (codes "ClientHello timestamp outside acceptable window") w).1

-- What becomes of the handshake after the drift test.
abbrev judged : Primitives → Bytes → Result Bool → World → Result Bytes × World
judged p nc (err e) w = (err e, w)
judged p nc (ok true) w = (err (value_error stale_timestamp), too_late p w)
judged p nc (ok false) w = (ok nc, w)

stopped :
    (p : Primitives) (r : Result Bool) (w : World) (nc : Bytes)
    → (lift r >>= λ stale.
          reject_if p stale
            (codes "ClientHello timestamp outside acceptable window")
            (value_error stale_timestamp)
          >>= λ u. pure nc)
        w
      ≡ judged p nc r w
unfolding ◌>>=◌ send_error
stopped p (err e) w nc = refl
stopped p (ok true) w nc = refl
stopped p (ok false) w nc = refl

module _ (second : ℕ) (p : Primitives) (laws : Laws p) (c : Codec) where
  server_accept-judged :
      (nc : Bytes) (t : Number) (later : Bytes) (w : World)
      → Fits p c (hello_at nc t)
      → IsBytes nc
      → stream w.incoming ≡ message p c handshake_client_hello (hello_at nc t) ++ later
      → server_accept second p c w
        ≡ judged p nc
            (drifts second (w.clock w.readings) t)
            (record (got p c handshake_client_hello (hello_at nc t) w) {
              readings = suc w.readings;
            })
  unfolding server_accept time got is_stale subscript find bytes_eq
  server_accept-judged nc t later w fits bnc arrives =
      let hello = hello_at nc t in
      bind_ok _ _ (
        receive_lem p laws c handshake_client_hello hello later w (hello_at-Distinct nc t) fits
          arrives)
      ∙ bind_ok _ _ (hex_field_lem hello (codes "nonce_c") nc _ refl bnc)
      ∙ bind_ok _ _ refl
      ∙ bind_ok _ _ refl
      ∙ stopped p _ _ nc

  -- A hello whose timestamp is NaN is accepted whatever the server's clock says.
  pub server_accept-nan :
      (nc : Bytes) (later : Bytes) (w : World)
      → Fits p c (hello_at nc nan)
      → IsBytes nc
      → stream w.incoming ≡ message p c handshake_client_hello (hello_at nc nan) ++ later
      → server_accept second p c w ≡ (
        ok nc,
        record (got p c handshake_client_hello (hello_at nc nan) w) { readings = suc w.readings },
      )
  server_accept-nan nc later w fits bnc arrives =
      server_accept-judged nc nan later w fits bnc arrives
