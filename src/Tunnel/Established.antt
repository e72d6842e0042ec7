-- ===== src/Tunnel/Established.antt =====
-- A request over a tunnel with an established session: the first attempt is enough.
use custom_vpn_implementatio.Common.{ℕ, suc, ◌≡◌, refl, ap, ap₂, ◌∙◌, true, some, Bytes}
use custom_vpn_implementatio.Common.Exec.{◌>>=◌, caught, ok, bind_ok}
use custom_vpn_implementatio.World.{World}
use custom_vpn_implementatio.Crypto.{Primitives}
use custom_vpn_implementatio.Json.{Codec}
use custom_vpn_implementatio.Tunnel.{
  TunnelClient, exchange, on_sock, or_type_error, ensure_connected, do_request, send_attempts,
  send_request,
}

-- The tunnel holds a socket and the keys of a session, and makes at least one attempt.
pub record IsEstablished (sid ek mk : Bytes) (t : TunnelClient) : Type 0 where
  pub connected : t.connected ≡ true
  pub has_sock : t.has_sock ≡ true
  pub session_id : t.session_id ≡ some sid
  pub enc_key : t.enc_key ≡ some ek
  pub mac_key : t.mac_key ≡ some mk
  pub attempts : (n : ℕ) × (t.max_retries ≡ suc n)

module _ (second : ℕ) (p : Primitives) (c : Codec) (priv_c pub_s sid ek mk request response : Bytes)
    (t : TunnelClient) (w : World) (h : IsEstablished sid ek mk t)
    (e : exchange p sid (some ek) (some mk) request t.world ≡ (ok response, w)) where
  connected-stays : ensure_connected second p c priv_c pub_s t ≡ (ok tt, t)
  unfolding ensure_connected
  connected-stays = rw (h.connected, h.has_sock) refl

  do_request-exchange :
      do_request second p c priv_c pub_s request t ≡ (ok response, record t { world = w })
  unfolding do_request
  do_request-exchange =
      bind_ok _ _ connected-stays
      ∙ bind_ok _ _ refl
      ∙ bind_ok _ _ refl
      ∙ bind_ok _ _ refl
      ∙ ap
          (λ o.
            (or_type_error o >>= λ sid'. on_sock (exchange p sid' t.enc_key t.mac_key request)) t)
          h.session_id
      ∙ ap₂ (λ a b. (or_type_error (some sid) >>= λ sid'. on_sock (exchange p sid' a b request)) t)
          h.enc_key h.mac_key
      ∙ bind_ok _ _ refl
      ∙ ap (λ r. (r.0, record t { world = r.1 })) e

  pub send_request-exchange :
      send_request second p c priv_c pub_s request t ≡ (ok response, record t { world = w })
  unfolding send_request send_attempts
  send_request-exchange =
      ap (λ n. send_attempts second p c priv_c pub_s n request t) h.attempts.1
      ∙ bind_ok (caught (do_request second p c priv_c pub_s request)) _
          (ap (λ r. (ok r.0, r.1)) do_request-exchange)
