-- ===== src/Auth/Client.antt =====
-- The stages of `client_handshake`, when the expected messages arrive.
use custom_vpn_implementatio.Common.{
  ℕ, suc, ◌+◌, ◌≤◌, ◌≡◌, refl, ap, ◌∙◌, true, false, not, some, ◌++◌, Bytes, codes, length, IsBytes,
  bytes_eq, bytes_eq_refl,
}
use custom_vpn_implementatio.Common.Exec.{
  ok, bind_ok, bind_lift, bind_pass, value_error, bad_signature, bad_challenge, stale_timestamp,
  rejected, unexpected_message,
}
use custom_vpn_implementatio.World.{World, urandom, time}
use custom_vpn_implementatio.World.Stream.{stream}
use custom_vpn_implementatio.Crypto.{Primitives, Laws}
use custom_vpn_implementatio.Crypto.Utils.{compute_hmac, verify_hmac, derive_keys, default_info}
use custom_vpn_implementatio.Protocol.{
  handshake_client_hello, handshake_server_hello, handshake_client_response, handshake_server_done,
  value,
}
use custom_vpn_implementatio.Json.{float, Codec, Distinct, find, subscript}
use custom_vpn_implementatio.Auth.{
  challenge_hmac_key, drifts, is_stale, sign_data, verify_signature, server_hello_json,
  server_done_json, client_hello, client_check, client_respond, client_finish, or_decryption_failed,
}
use custom_vpn_implementatio.Auth.Transcript.{
  client_nonce, first_message, hello_back, third_message, done, after_hello, after_check,
  after_respond,
}
use custom_vpn_implementatio.Auth.Messages.{
  message, Fits, got, send_message, receive_lem, recv_message, decode-encode, hex_field_lem,
}

server_hello-Distinct :
    (ns : Bytes) (ts : ℕ) (challenge sig : Bytes) → Distinct (server_hello_json ns ts challenge sig)
unfolding find bytes_eq
server_hello-Distinct ns ts challenge sig = (refl, tt, (refl, tt, (refl, tt, (refl, tt, tt))))

module _ (second : ℕ) (p : Primitives) (laws : Laws p) (c : Codec) where
  pub client_hello_lem :
      (w : World)
      → Fits p c (first_message w)
      → w.writable w.sends ≡ true
      → client_hello second p c w ≡ (ok (client_nonce w), after_hello p c w)
  unfolding client_hello urandom time
  client_hello_lem w fits writes =
      bind_ok _ _ refl
      ∙ bind_ok _ _ refl
      ∙ bind_ok _ _ (
          send_message p laws c handshake_client_hello (first_message w)
            (record w { drawn = w.drawn + 16; readings = suc w.readings }) fits writes)

  module _ (pub_s nc ns : Bytes) (ts : ℕ) (sig later : Bytes) (w : World) where
    pub client_check_lem :
        Fits p c (hello_back p nc ns ts sig)
        → IsBytes ns
        → IsBytes sig
        → drifts second (w.clock w.readings) (float ts) ≡ ok false
        → p.rsa_verify pub_s sig (nc ++ ns) ≡ true
        → stream w.incoming
          ≡ message p c handshake_server_hello (hello_back p nc ns ts sig) ++ later
        → client_check second p c pub_s nc w
          ≡ (ok ns, after_check p c (hello_back p nc ns ts sig) w)
    unfolding client_check time got is_stale subscript find bytes_eq compute_hmac verify_hmac
        verify_signature
    client_check_lem fits bns bsig fresh genuine arrives =
        let hello = hello_back p nc ns ts sig in
        bind_ok _ _ (
          receive_lem p laws c handshake_server_hello hello later w
            (server_hello-Distinct ns ts (compute_hmac p (nc ++ ns) challenge_hmac_key) sig) fits
            arrives)
        ∙ bind_ok _ _ (hex_field_lem hello (codes "nonce_s") ns _ refl bns)
        ∙ bind_ok _ _ refl
        ∙ bind_ok _ _ (hex_field_lem hello (codes "challenge") _ _ refl (laws.hmac-IsBytes _ _))
        ∙ bind_ok _ _ (hex_field_lem hello (codes "signature") sig _ refl bsig)
        ∙ bind_ok _ _ refl
        ∙ bind_lift _ _ fresh
        ∙ bind_pass false (value_error stale_timestamp) _ refl
        ∙ bind_pass _ (value_error bad_signature) _ (ap not genuine)
        ∙ bind_pass _ (value_error bad_challenge) _
            (ap not (bytes_eq_refl (compute_hmac p (nc ++ ns) challenge_hmac_key)))

  pub client_respond_lem :
      (priv_c nc ns : Bytes) (w : World)
      → Fits p c (third_message p priv_c nc ns w)
      → w.writable w.sends ≡ true
      → client_respond second p c priv_c nc ns w ≡ (ok tt, after_respond p c priv_c nc ns w)
  unfolding client_respond sign_data urandom
  client_respond_lem priv_c nc ns w fits writes =
      bind_ok _ _ (bind_ok _ _ refl)
      ∙ send_message p laws c handshake_client_response _ (record w { drawn = w.drawn + 32 }) fits
          writes

  done-Distinct : (sid key : Bytes) → Distinct (server_done_json sid key)
  unfolding find bytes_eq
  done-Distinct sid key = (refl, tt, (refl, tt, tt))

  pub client_finish_lem :
      (priv_c sid session_key seed later : Bytes) (w : World)
      → Fits p c (done p (p.public_key priv_c) sid session_key seed)
      → IsBytes sid
      → IsBytes session_key
      → length session_key ≤ 190
      → stream w.incoming
        ≡ message p c handshake_server_done (done p (p.public_key priv_c) sid session_key seed)
          ++ later
      → let (enc_key, mac_key) = derive_keys p session_key (some sid) default_info in
        client_finish second p c priv_c w ≡ (
          ok (sid, enc_key, mac_key),
          got p c handshake_server_done (done p (p.public_key priv_c) sid session_key seed) w,
        )
  unfolding client_finish subscript find bytes_eq value
  client_finish_lem priv_c sid session_key seed later w fits bsid bkey short arrives =
      let enc = p.rsa_encrypt (p.public_key priv_c) seed session_key in
      let last = server_done_json sid enc in
      let opened : or_decryption_failed (p.rsa_decrypt priv_c enc)
            (got p c handshake_server_done last w)
          ≡ (ok session_key, got p c handshake_server_done last w) =
        rw (laws.rsa_decrypt-encrypt priv_c seed session_key bkey short) in
      bind_ok _ _ (recv_message p laws c handshake_server_done last later w fits arrives).0
      ∙ bind_pass _ (value_error rejected) _ refl
      ∙ bind_pass _ (value_error unexpected_message) _ refl
      ∙ bind_ok _ _ (
          ap (λ r. (r, got p c handshake_server_done last w))
            (decode-encode p laws c last (done-Distinct sid enc)))
      ∙ bind_ok _ _ (hex_field_lem last (codes "session_id") sid _ refl bsid)
      ∙ bind_ok _ _ (
          hex_field_lem last (codes "encrypted_session_key") enc _ refl
            (laws.rsa_encrypt-IsBytes _ _ _))
      ∙ bind_ok _ _ opened
