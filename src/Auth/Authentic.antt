-- ===== src/Auth/Authentic.antt =====
-- Whom a handshake that returned was with: signatures over both nonces.
use custom_vpn_implementatio.Common.{
  ℕ, ◌≡◌, refl, ap, sym, subst, ◌∙◌, Bool, true, false, not, Option, none, some, ◌++◌, Bytes, Text,
  codes, arith,
}
use custom_vpn_implementatio.Common.Exec.{◌>>=◌, ok, bind_inv, guard_inv, Exn, Result}
use custom_vpn_implementatio.World.{World, urandom, time}
use custom_vpn_implementatio.Crypto.{Primitives}
use custom_vpn_implementatio.Protocol.{
  MessageType, handshake_server_hello, handshake_client_response, value, recv_frame,
}
use custom_vpn_implementatio.Json.{Json, Codec, subscript, bytes_fromhex}
use custom_vpn_implementatio.Auth.{
  verify_signature, client_hello, client_check, client_handshake, server_accept, server_hello,
  server_check, server_handshake, reject_if, send_error, hex_field, decode_hs, receive, or_bad_json,
}
use custom_vpn_implementatio.Auth.Transcript.{client_nonce, server_nonce}

not-false : (b : Bool) → not b ≡ false → b ≡ true
not-false true h = refl
not-false false h = absurd (cc h)

returned :
    {A : Type 0} {a b : A} {w v : World} → ◌≡◌ {A = Result A × World} (ok a, w) (ok b, v) → a ≡ b
returned h = cc (ap (λ (r : Result _ × World). r.0) h)

passed :
    (p : Primitives) (b : Bool) (text : Text) (e : Exn) (w v : World)
    → reject_if p b text e w ≡ (ok tt, v)
    → b ≡ false
unfolding send_error ◌>>=◌
passed p true text e w v h = absurd (cc (ap (λ (r : Result (Unit {0}) × World). r.0) h))
passed p false text e w v h = refl

lift_inv :
    {A : Type 0} (r : Result A) {w v : World} {a : A}
    → ◌≡◌ {A = Result A × World} (r, w) (ok a, v)
    → (r ≡ ok a) × (w ≡ v)
lift_inv r h = (ap (λ (x : Result _ × World). x.0) h, ap (λ (x : Result _ × World). x.1) h)

some_of : (c : Codec) (o : Option Json) (j : Json) → or_bad_json c o ≡ ok j → o ≡ some j
some_of c none j h = absurd (cc h)
some_of c (some i) j h = ap some (cc h)

-- The field `k` of a message, in hex.
abbrev pub Field : Json → Text → Bytes → Type 0
Field j k bytes = (v : Json) × (subscript j k ≡ ok v) × (bytes_fromhex v ≡ ok bytes)

hex_field_inv :
    (j : Json) (k : Text) (bytes : Bytes) (w v : World)
    → hex_field j k w ≡ (ok bytes, v)
    → Field j k bytes
unfolding hex_field
hex_field_inv j k bytes w v h =
    let (x, e1, h1) = bind_inv _ _ h in (x, (lift_inv _ e1).0, (lift_inv _ h1).0)

module _ (p : Primitives) (c : Codec) where
  -- The next frame on the socket is of the type `t`, and its payload is `j`.
  abbrev pub Received : MessageType → World → Json → Type 0
  Received t w j =
      (msg_type : MessageType) × (sid : Bytes) × (payload : Bytes) × ((recv_frame p none none w).0
        ≡ ok (msg_type, sid, payload))
      × (value msg_type ≡ value t)
      × (c.loads payload ≡ some j)

  receive_inv :
      (t : MessageType) (j : Json) (w v : World) → receive p c t w ≡ (ok j, v) → Received t w j
  unfolding receive decode_hs
  receive_inv t j w v h =
      let ((msg_type, sid, payload), e1, h1) = bind_inv _ _ h in
      let (same, h2) = guard_inv _ _ _ h1 in
      (
        msg_type,
        sid,
        payload,
        ap (λ (x : Result (MessageType × Bytes × Bytes) × World). x.0) e1,
        (let same = not-false _ same in ground (arith, same)),
        some_of c _ j (lift_inv _ h2).0,
      )

module _ (second : ℕ) (p : Primitives) (c : Codec) where
  -- `server_check` returns only for a signature of the client over the nonces.
  server_check-verifies :
      (pub_c nc ns : Bytes) (w v : World)
      → server_check second p c pub_c nc ns w ≡ (ok tt, v)
      → (cr : Json) × (sig : Bytes) × Received p c handshake_client_response w cr
        × Field cr (codes "signature") sig
        × (p.rsa_verify pub_c sig (ns ++ nc) ≡ true)
  unfolding server_check verify_signature
  server_check-verifies pub_c nc ns w v h =
      let (cr, e1, h1) = bind_inv _ _ h in
      let (challenge, e2, h2) = bind_inv _ _ h1 in
      let (sig, e3, h3) = bind_inv _ _ h2 in
      let (done, e4, h4) = bind_inv _ _ h3 in
      (
        cr,
        sig,
        receive_inv p c handshake_client_response cr w _ e1,
        hex_field_inv cr (codes "signature") sig _ _ e3,
        not-false _ (passed p _ _ _ _ v h4),
      )

  -- The nonce of a ServerHello, and of a ClientHello, is newly drawn.
  server_hello-fresh :
      (priv_s nc ns : Bytes) (w v : World)
      → server_hello second p c priv_s nc w ≡ (ok ns, v)
      → server_nonce w ≡ ns
  unfolding server_hello urandom time
  server_hello-fresh priv_s nc ns w v h =
      let (drawn, e1, h1) = bind_inv _ _ h in
      let (ts, e2, h2) = bind_inv _ _ h1 in
      let (sig, e3, h3) = bind_inv _ _ h2 in
      let (done, e4, h4) = bind_inv _ _ h3 in returned e1 ∙ returned h4

  client_hello-fresh :
      (nc : Bytes) (w v : World) → client_hello second p c w ≡ (ok nc, v) → client_nonce w ≡ nc
  unfolding client_hello urandom time
  client_hello-fresh nc w v h =
      let (drawn, e1, h1) = bind_inv _ _ h in
      let (ts, e2, h2) = bind_inv _ _ h1 in
      let (done, e3, h3) = bind_inv _ _ h2 in returned e1 ∙ returned h3

  -- `client_check` returns only for a signature of the server over the nonces.
  client_check-verifies :
      (pub_s nc ns : Bytes) (w v : World)
      → client_check second p c pub_s nc w ≡ (ok ns, v)
      → (sh : Json) × (sig : Bytes) × Received p c handshake_server_hello w sh
        × Field sh (codes "nonce_s") ns
        × Field sh (codes "signature") sig
        × (p.rsa_verify pub_s sig (nc ++ ns) ≡ true)
  unfolding client_check verify_signature
  client_check-verifies pub_s nc ns w v h =
      let (sh, e1, h1) = bind_inv _ _ h in
      let (got_ns, e2, h2) = bind_inv _ _ h1 in
      let (ts, e3, h3) = bind_inv _ _ h2 in
      let (challenge, e4, h4) = bind_inv _ _ h3 in
      let (sig, e5, h5) = bind_inv _ _ h4 in
      let (now, e6, h6) = bind_inv _ _ h5 in
      let (stale, e7, h7) = bind_inv _ _ h6 in
      let (fresh, h8) = guard_inv _ _ _ h7 in
      let (genuine, h9) = guard_inv _ _ _ h8 in
      let (matches, h10) = guard_inv _ _ _ h9 in
      (
        sh,
        sig,
        receive_inv p c handshake_server_hello sh w _ e1,
        subst (Field sh (codes "nonce_s")) (returned h10)
            (hex_field_inv sh (codes "nonce_s") got_ns _ _ e2),
        hex_field_inv sh (codes "signature") sig _ _ e5,
        subst (λ x. p.rsa_verify pub_s sig (nc ++ x) ≡ true) (returned h10) (not-false _ genuine),
      )

  -- A server that returned keys has accepted a hello with some nonce; and the next frame that it
  -- receives, in the state after its own hello, is a ClientResponse whose field `signature` verifies
  -- under the client's key for the nonce that the server drew for its hello, followed by the
  -- accepted one.
  pub server_handshake-IsAuthentic :
      (priv_s pub_c : Bytes) (w v : World) (keys : Bytes × Bytes × Bytes)
      → server_handshake second p c priv_s pub_c w ≡ (ok keys, v)
      → let (r, w1) = server_accept second p c w in
        (nc : Bytes) × (cr : Json) × (sig : Bytes) × (r ≡ ok nc)
        × Received p c handshake_client_response (server_hello second p c priv_s nc w1).1 cr
        × Field cr (codes "signature") sig
        × (p.rsa_verify pub_c sig (server_nonce w1 ++ nc) ≡ true)
  unfolding server_handshake
  server_handshake-IsAuthentic priv_s pub_c w v keys h =
      let (nc, e1, h1) = bind_inv _ _ h in
      let (ns, e2, h2) = bind_inv _ _ h1 in
      let (done, e3, h3) = bind_inv _ _ h2 in
      let (cr, sig, response, field, genuine) = server_check-verifies pub_c nc ns _ _ e3 in
      (
        nc,
        cr,
        sig,
        ap (λ (r : Result Bytes × World). r.0) e1,
        response,
        field,
        subst (λ x. p.rsa_verify pub_c sig (x ++ nc) ≡ true)
            (sym (server_hello-fresh priv_s nc ns _ _ e2)) genuine,
      )

  -- Of a client that returned keys: the next frame that it receives, in the state after its hello, is
  -- a ServerHello whose field `signature` verifies under the server's key for the nonce that the
  -- client drew for this handshake, followed by the nonce in the field `nonce_s`.
  pub client_handshake-IsAuthentic :
      (priv_c pub_s : Bytes) (w v : World) (keys : Bytes × Bytes × Bytes)
      → client_handshake second p c priv_c pub_s w ≡ (ok keys, v)
      → (sh : Json) × (ns : Bytes) × (sig : Bytes) × Received p c handshake_server_hello
          (client_hello second p c w).1
          sh
        × Field sh (codes "nonce_s") ns
        × Field sh (codes "signature") sig
        × (p.rsa_verify pub_s sig (client_nonce w ++ ns) ≡ true)
  unfolding client_handshake
  client_handshake-IsAuthentic priv_c pub_s w v keys h =
      let (nc, e1, h1) = bind_inv _ _ h in
      let (ns, e2, h2) = bind_inv _ _ h1 in
      let (sh, sig, hello, nonce, field, genuine) = client_check-verifies pub_s nc ns _ _ e2 in
      (
        sh,
        ns,
        sig,
        hello,
        nonce,
        field,
        subst (λ x. p.rsa_verify pub_s sig (x ++ ns) ≡ true) (sym (client_hello-fresh nc w _ e1))
            genuine,
      )
