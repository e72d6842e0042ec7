-- ===== src/Auth/Agreement.antt =====
-- The two sides together. Each side's stream is what the other writes, so neither is given an
-- answer that the other does not produce.
use custom_vpn_implementatio.Common.{
  ℕ, zero, suc, ◌+◌, ◌≡◌, refl, ◌∙◌, true, false, some, ◌++◌, Bytes, arith, IsBytes,
}
use custom_vpn_implementatio.Common.Exec.{ok, bind_ok}
use custom_vpn_implementatio.World.{World, random_bytes}
use custom_vpn_implementatio.World.Stream.{stream}
use custom_vpn_implementatio.Crypto.{Primitives, Laws}
use custom_vpn_implementatio.Crypto.Utils.{derive_keys, default_info}
use custom_vpn_implementatio.Protocol.{
  handshake_client_hello, handshake_server_hello, handshake_client_response, handshake_server_done,
}
use custom_vpn_implementatio.Json.{Json, float, Codec}
use custom_vpn_implementatio.Auth.{drifts, client_handshake, server_handshake}
use custom_vpn_implementatio.Auth.Transcript.{
  client_nonce, first_message, server_nonce, session_id, session_key, oaep_seed, server_signature,
  second_message, client_signature, third_message, last_message, after_hello, after_check,
  after_respond, after_accept, after_server_hello, after_finish,
}
use custom_vpn_implementatio.Auth.Messages.{message, Fits, got, stream-got}
use custom_vpn_implementatio.Auth.Client.{
  client_hello_lem, client_check_lem, client_respond_lem, client_finish_lem,
}
use custom_vpn_implementatio.Auth.Server.{
  server_accept_lem, server_hello_lem, server_check_lem, server_finish_lem,
}

random_bytes-IsBytes : (n : ℕ) (f : ℕ → ℕ) (i : ℕ) → IsBytes (random_bytes n f i)
random_bytes-IsBytes zero f i = tt
random_bytes-IsBytes (suc n) f i = (omega arith, random_bytes-IsBytes n f (suc i))

-- The exchange of a client in `cw` with a server in `sw`: the messages by their order, each made
-- in the world that the stages before it leave.
module _ (p : Primitives) (c : Codec) (priv_c priv_s : Bytes) (cw sw : World) where
  abbrev pub server_1 : World
  server_1 = after_accept p c (first_message cw) sw

  abbrev pub reply : Json
  reply = second_message p priv_s (client_nonce cw) server_1

  abbrev pub server_2 : World
  server_2 = after_server_hello p c priv_s (client_nonce cw) server_1

  abbrev pub client_2 : World
  client_2 = after_check p c reply (after_hello p c cw)

  abbrev pub proof : Json
  proof = third_message p priv_c (client_nonce cw) (server_nonce server_1) client_2

  abbrev pub server_3 : World
  server_3 = got p c handshake_client_response proof server_2

  abbrev pub session : Json
  session = last_message p (p.public_key priv_c) server_3

  -- The session id, the encryption key and the MAC key.
  abbrev pub agreed : Bytes × Bytes × Bytes
  agreed =
      let (enc_key, mac_key) =
        derive_keys p (session_key server_3) (some (session_id server_3)) default_info in
      (session_id server_3, enc_key, mac_key)

-- Between a client and a server that hold each other's public keys, whose clocks agree within the
-- drift, whose sockets take every write and whose messages fit in frames: if each one's stream is
-- what the other one writes, in any chunks, both return, with the same session id, the same
-- encryption key and the same MAC key, and each has written exactly what the other one reads.
pub handshake_agreement :
    (second : ℕ) (p : Primitives) (laws : Laws p) (c : Codec) (priv_c priv_s : Bytes)
    (cw sw : World) (later_c later_s : Bytes)
    → ((i : ℕ) → cw.writable i ≡ true)
    → ((i : ℕ) → sw.writable i ≡ true)
    → drifts second (sw.clock sw.readings) (float (cw.clock cw.readings)) ≡ ok false
    → drifts second (cw.clock (suc cw.readings)) (float (sw.clock (suc sw.readings))) ≡ ok false
    → Fits p c (first_message cw)
    → Fits p c (reply p c priv_c priv_s cw sw)
    → Fits p c (proof p c priv_c priv_s cw sw)
    → Fits p c (session p c priv_c priv_s cw sw)
    → stream sw.incoming
      ≡ message p c handshake_client_hello (first_message cw)
        ++ (message p c handshake_client_response (proof p c priv_c priv_s cw sw) ++ later_s)
    → stream cw.incoming
      ≡ message p c handshake_server_hello (reply p c priv_c priv_s cw sw)
        ++ (message p c handshake_server_done (session p c priv_c priv_s cw sw) ++ later_c)
    → (cv : World) × (sv : World) × (client_handshake second p c priv_c (p.public_key priv_s) cw
        ≡ (ok (agreed p c priv_c priv_s cw sw), cv))
      × (server_handshake second p c priv_s (p.public_key priv_c) sw
          ≡ (ok (agreed p c priv_c priv_s cw sw), sv))
      × (cv.outgoing
          ≡ cw.outgoing
            ++ message p c handshake_client_hello (first_message cw)
            ++ message p c handshake_client_response (proof p c priv_c priv_s cw sw))
      × (sv.outgoing
          ≡ sw.outgoing
            ++ message p c handshake_server_hello (reply p c priv_c priv_s cw sw)
            ++ message p c handshake_server_done (session p c priv_c priv_s cw sw))
unfolding client_handshake server_handshake got
handshake_agreement second p laws c priv_c priv_s cw sw later_c later_s cwr swr fresh_s fresh_c f1
      f2 f3 f4 to_s to_c =
    let nc = client_nonce cw in
    let sw1 = server_1 p c priv_c priv_s cw sw in
    let sw2 = server_2 p c priv_c priv_s cw sw in
    let sw3 = server_3 p c priv_c priv_s cw sw in
    let cw1 = after_hello p c cw in
    let cw2 = client_2 p c priv_c priv_s cw sw in
    let ns = server_nonce sw1 in
    let pub_c = p.public_key priv_c in
    let cw3 = after_respond p c priv_c nc ns cw2 in
    let sig_s = server_signature p priv_s nc sw1 in
    let sig_c = client_signature p priv_c nc ns cw2 in
    let m4 = session p c priv_c priv_s cw sw in
    let to_s2 = stream-got p laws c handshake_client_hello (first_message cw) _ sw f1 to_s in
    let to_c2 =
      stream-got p laws c handshake_server_hello (reply p c priv_c priv_s cw sw) _ cw1 f2 to_c in
    (
      got p c handshake_server_done m4 cw3,
      after_finish p c pub_c sw3,
      bind_ok _ _ (client_hello_lem second p laws c cw f1 (cwr _))
          ∙ bind_ok _ _ (
              client_check_lem second p laws c (p.public_key priv_s) nc ns _ sig_s _ cw1 f2
                (random_bytes-IsBytes 16 sw1.random sw1.drawn) (laws.sign-IsBytes _ _ _) fresh_c
                (laws.verify-sign _ _ _) to_c)
          ∙ bind_ok _ _ (client_respond_lem second p laws c priv_c nc ns cw2 f3 (cwr _))
          ∙ client_finish_lem second p laws c priv_c (session_id sw3) (session_key sw3)
              (oaep_seed sw3) later_c cw3 f4 (random_bytes-IsBytes 16 sw3.random sw3.drawn)
              (random_bytes-IsBytes 32 sw3.random (sw3.drawn + 16)) (omega arith) to_c2,
      bind_ok _ _ (
            server_accept_lem second p laws c nc _ _ sw f1
              (random_bytes-IsBytes 16 cw.random cw.drawn) fresh_s to_s)
          ∙ bind_ok _ _ (server_hello_lem second p laws c priv_s nc sw1 f2 (swr _))
          ∙ bind_ok _ _ (
              server_check_lem second p laws c pub_c nc ns sig_c later_s sw2 f3
                (laws.sign-IsBytes _ _ _) (laws.verify-sign _ _ _) to_s2)
          ∙ server_finish_lem second p laws c pub_c sw3 f4 (swr _),
      refl,
      refl,
    )
