-- ===== src/Auth/Server.antt =====
-- The stages of `server_handshake`, when the expected messages arrive.
use custom_vpn_implementatio.Common.{
  ℕ, suc, ◌+◌, ◌≡◌, refl, ap, ◌∙◌, true, false, not, some, ◌++◌, Bool, Bytes, Text, codes, IsBytes,
  bytes_eq, bytes_eq_refl,
}
use custom_vpn_implementatio.Common.Exec.{Exn, ok, bind_ok, bind_lift}
use custom_vpn_implementatio.World.{World, urandom, time}
use custom_vpn_implementatio.World.Stream.{stream}
use custom_vpn_implementatio.Crypto.{Primitives, Laws}
use custom_vpn_implementatio.Crypto.Utils.{
  compute_hmac, verify_hmac, derive_keys, default_info, generate_session_key,
}
use custom_vpn_implementatio.Protocol.{
  handshake_client_hello, handshake_server_hello, handshake_client_response, handshake_server_done,
}
use custom_vpn_implementatio.Json.{float, Codec, Distinct, find, subscript}
use custom_vpn_implementatio.Auth.{
  challenge_hmac_key, drifts, is_stale, sign_data, verify_signature, client_hello_json,
  client_response_json, server_accept, server_hello, server_check, server_finish, reject_if,
}
use custom_vpn_implementatio.Auth.Transcript.{
  server_nonce, second_message, answer, last_message, session_id, session_key, after_accept,
  after_server_hello, after_finish,
}
use custom_vpn_implementatio.Auth.Messages.{
  message, Fits, got, send_message, receive_lem, hex_field_lem,
}

hello-Distinct : (nc : Bytes) (ts : ℕ) → Distinct (client_hello_json nc ts)
unfolding find bytes_eq
hello-Distinct nc ts = (refl, tt, (refl, tt, tt))

response-Distinct : (challenge sig : Bytes) → Distinct (client_response_json challenge sig)
unfolding find bytes_eq
response-Distinct challenge sig = (refl, tt, (refl, tt, tt))

not_rejected :
    (p : Primitives) (b : Bool) (text : Text) (e : Exn) (w : World)
    → b ≡ false
    → reject_if p b text e w ≡ (ok tt, w)
not_rejected p b text e w h = rw h

module _ (second : ℕ) (p : Primitives) (laws : Laws p) (c : Codec) where
  pub server_accept_lem :
      (nc : Bytes) (ts : ℕ) (later : Bytes) (w : World)
      → Fits p c (client_hello_json nc ts)
      → IsBytes nc
      → drifts second (w.clock w.readings) (float ts) ≡ ok false
      → stream w.incoming ≡ message p c handshake_client_hello (client_hello_json nc ts) ++ later
      → server_accept second p c w ≡ (ok nc, after_accept p c (client_hello_json nc ts) w)
  unfolding server_accept time got is_stale subscript find bytes_eq
  server_accept_lem nc ts later w fits bnc fresh arrives =
      let hello = client_hello_json nc ts in
      bind_ok _ _ (
        receive_lem p laws c handshake_client_hello hello later w (hello-Distinct nc ts) fits
          arrives)
      ∙ bind_ok _ _ (hex_field_lem hello (codes "nonce_c") nc _ refl bnc)
      ∙ bind_ok _ _ refl
      ∙ bind_ok _ _ refl
      ∙ bind_lift _ _ fresh
      ∙ bind_ok _ _ refl

  pub server_hello_lem :
      (priv_s nc : Bytes) (w : World)
      → Fits p c (second_message p priv_s nc w)
      → w.writable w.sends ≡ true
      → server_hello second p c priv_s nc w
        ≡ (ok (server_nonce w), after_server_hello p c priv_s nc w)
  unfolding server_hello sign_data urandom time
  server_hello_lem priv_s nc w fits writes =
      bind_ok _ _ refl
      ∙ bind_ok _ _ refl
      ∙ bind_ok _ _ (bind_ok _ _ refl)
      ∙ bind_ok _ _ (
          send_message p laws c handshake_server_hello (second_message p priv_s nc w)
            (record w { drawn = w.drawn + 16 + 32; readings = suc w.readings }) fits writes)

  pub server_check_lem :
      (pub_c nc ns sig later : Bytes) (w : World)
      → Fits p c (answer p nc ns sig)
      → IsBytes sig
      → p.rsa_verify pub_c sig (ns ++ nc) ≡ true
      → stream w.incoming ≡ message p c handshake_client_response (answer p nc ns sig) ++ later
      → server_check second p c pub_c nc ns w
        ≡ (ok tt, got p c handshake_client_response (answer p nc ns sig) w)
  unfolding server_check subscript find bytes_eq compute_hmac verify_hmac verify_signature
  server_check_lem pub_c nc ns sig later w fits bsig genuine arrives =
      let challenge = compute_hmac p (ns ++ nc) challenge_hmac_key in
      let response = answer p nc ns sig in
      bind_ok _ _ (
        receive_lem p laws c handshake_client_response response later w
          (response-Distinct challenge sig) fits arrives)
      ∙ bind_ok _ _ (
          hex_field_lem response (codes "challenge_response") challenge _ refl
            (laws.hmac-IsBytes _ _))
      ∙ bind_ok _ _ (hex_field_lem response (codes "signature") sig _ refl bsig)
      ∙ bind_ok _ _ (not_rejected p _ _ _ _ (ap not (bytes_eq_refl challenge)))
      ∙ not_rejected p _ _ _ _ (ap not genuine)

  pub server_finish_lem :
      (pub_c : Bytes) (w : World)
      → Fits p c (last_message p pub_c w)
      → w.writable w.sends ≡ true
      → let (enc_key, mac_key) = derive_keys p (session_key w) (some (session_id w)) default_info in
        server_finish second p c pub_c w
        ≡ (ok (session_id w, enc_key, mac_key), after_finish p c pub_c w)
  unfolding server_finish generate_session_key urandom
  server_finish_lem pub_c w fits writes =
      bind_ok _ _ refl
      ∙ bind_ok _ _ refl
      ∙ bind_ok _ _ refl
      ∙ bind_ok _ _ (
          send_message p laws c handshake_server_done (last_message p pub_c w)
            (record w { drawn = w.drawn + 16 + 32 + 32 }) fits writes)
