-- ===== src/Tunnel/Writes.antt =====
-- client/tunnel_client.py, `_do_request`: what of a request is written to the socket.
use custom_vpn_implementatio.Common.{
  ℕ, zero, suc, ◌+◌, ◌≡◌, ◌⊎◌, inl, inr, refl, sym, ap, ◌∙◌, subst, Bool, true, false, not, ltb,
  Option, none, some, [], ◌∷◌, ◌++◌, Bytes, length, arith, Bool-cases, ◌==◌, length-take,
  length-drop,
}
use custom_vpn_implementatio.Common.Exec.{
  ◌>>=◌, Exn, Result, ok, err, raise_if, value_error, bad_key_size, Keeps, Keeps-bind, Keeps-if,
  Leads-bind, raise, connection_error, bind_ok, bind_err, bind_pass, bind_stop, bind_inv, guard_inv,
}
use custom_vpn_implementatio.World.{World, Action, recv, sendall, urandom, random_bytes}
use custom_vpn_implementatio.Crypto.{Primitives, Laws}
use custom_vpn_implementatio.Crypto.Utils.{
  encrypt_payload, decrypt_payload, compute_hmac, or_invalid_tag, derive_keys, default_info,
}
use custom_vpn_implementatio.Protocol.{
  MessageType, data_request, body_of, or_handshake_key, recv_loop, recv_exact, recv_frame,
  open_frame, parse_body, first_type, or_bad_type, of_value, unprotect, protect, send_frame,
}
use custom_vpn_implementatio.Protocol.Wire.{framed}
use custom_vpn_implementatio.Json.{Codec}
use custom_vpn_implementatio.Auth.{client_finish, client_handshake}
use custom_vpn_implementatio.Tunnel.{exchange}

-- Reading writes nothing: what holds of the bytes that were written holds still.
module _ (R : Bytes → Type 0) where
  abbrev Written : World → Type 0
  Written w = R w.outgoing

  guard-Written : (b : Bool) (e : Exn) → Keeps Written (raise_if b e)
  guard-Written true e = λ w i. i
  guard-Written false e = λ w i. i

  recv-Written : (n : ℕ) → Keeps Written (recv n)
  unfolding recv
  recv-Written n = λ w i. i

  after_recv :
      (rounds n : ℕ) (buf : Bytes)
      → ((buf : Bytes) → Keeps Written (recv_loop rounds n buf))
      → (data_in : Bytes)
      → Keeps Written (elim data_in as (λ _. Action Bytes) [
        | [] ↦ raise connection_error
        | b ∷ bs ↦ recv_loop rounds n (buf ++ b ∷ bs)
      ])
  after_recv rounds n buf ih [] = λ w i. i
  after_recv rounds n buf ih (b ∷ bs) = ih (buf ++ b ∷ bs)

  recv_loop-Written : (rounds n : ℕ) (buf : Bytes) → Keeps Written (recv_loop rounds n buf)
  unfolding recv_loop
  recv_loop-Written zero n buf = λ w i. i
  recv_loop-Written (suc rounds) n buf =
      Keeps-if Written _ _
        (Keeps-bind Written _ _ (recv-Written _)
          (after_recv rounds n buf (recv_loop-Written rounds n)))
        (λ w i. i) (ltb (length buf) n)

  recv_exact-Written : (n : ℕ) → Keeps Written (recv_exact n)
  unfolding recv_exact
  recv_exact-Written n = recv_loop-Written (suc n) n []

  first_type-Written : (body : Bytes) → Keeps Written (first_type body)
  first_type-Written [] = λ w i. i
  first_type-Written (b ∷ bs) = typed (of_value b)
    where
      typed : (o : Option MessageType) → Keeps Written (or_bad_type o)
      typed none = λ w i. i
      typed (some t) = λ w i. i

  module _ (p : Primitives) where
    opened-Written : (o : Option Bytes) → Keeps Written (or_invalid_tag o)
    opened-Written none = λ w i. i
    opened-Written (some plain) = λ w i. i

    unprotect-Written :
        (enc nonce : Bytes) (ek : Option Bytes) → Keeps Written (unprotect p enc nonce ek)
    unfolding unprotect decrypt_payload
    unprotect-Written enc nonce none = λ w i. i
    unprotect-Written enc nonce (some key) =
        Keeps-bind Written _ _ (guard-Written _ _)
          (λ a. Keeps-bind Written _ _ (guard-Written _ _) (λ b. opened-Written _))

    recv_frame-Written : (ek mk : Option Bytes) → Keeps Written (recv_frame p ek mk)
    unfolding recv_frame open_frame parse_body
    recv_frame-Written ek mk = Keeps-bind Written _ _ (recv_exact-Written _) (λ header.
        Keeps-bind Written _ _ (guard-Written _ _) (λ a.
          Keeps-bind Written _ _ (guard-Written _ _) (λ b.
            Keeps-bind Written _ _ (recv_exact-Written _) (λ raw.
              Keeps-bind Written _ _ (guard-Written _ _) (λ d.
                Keeps-bind Written _ _ (first_type-Written _)
                  (λ t. Keeps-bind Written _ _ (unprotect-Written _ _ ek) (λ e w i. i)))))))

module _ (p : Primitives) where
  -- The frame of a request: encrypted under one key of the session, with the HMAC under the other.
  abbrev pub request_frame : Bytes × Bytes × Bytes → Bytes → World → Bytes
  request_frame (sid, enc, mac) request w =
      let nonce = random_bytes 12 w.random w.drawn in
      framed p mac (body_of data_request sid nonce (p.aes_encrypt enc nonce request))

  module _ (sid enc mac request : Bytes) (w : World) (sized : length mac ≡ 32) where
    abbrev Sends : Bytes → Type 0
    Sends out = (out ≡ w.outgoing) ⊎ (out ≡ w.outgoing ++ request_frame (sid, enc, mac) request w)

    under_mac : (k : Bytes) → length k ≡ 32 → or_handshake_key (some k) ≡ k
    unfolding or_handshake_key
    under_mac [] h = absurd (omega (arith, h))
    under_mac (b ∷ bs) h = refl

    guarded :
        {B : Type 0} (b : Bool) (e : Exn) (f : Unit {0} → Action B) (v : World)
        → Sends v.outgoing
        → Sends (f tt v).1.outgoing
        → Sends ((raise_if b e >>= f) v).1.outgoing
    unfolding ◌>>=◌
    guarded true e f v h k = h
    guarded false e f v h k = k

    sendall-Sends :
        (v : World)
        → v.outgoing ≡ w.outgoing
        → Sends (sendall (request_frame (sid, enc, mac) request w) v).1.outgoing
    unfolding sendall
    sendall-Sends v e = elim (Bool-cases (v.writable v.sends)) [
      | inl h ↦ rw h (inr (ap (λ o. o ++ request_frame (sid, enc, mac) request w) e))
      | inr h ↦ rw h (inl e)
    ]

    send_frame-Sends :
        Sends (send_frame p data_request sid request (some enc) (some mac) w).1.outgoing
    unfolding send_frame protect encrypt_payload urandom compute_hmac framed
    send_frame-Sends = guarded _ _ _ w (inl refl) (elim (Bool-cases (length enc == 32)) [
      | inl fits ↦
          let v = record w { drawn = w.drawn + 12 } in
          let nonce = random_bytes 12 w.random w.drawn in
          let encrypted : encrypt_payload p request enc w
              ≡ (ok (p.aes_encrypt enc nonce request, nonce), v) =
            bind_pass _ (value_error bad_key_size) _ (ap not fits) ∙ bind_ok _ _ refl in
          subst Sends
            (sym (ap (λ (x : Result (Unit {0}) × World). x.1.outgoing) (bind_ok _ _ encrypted)))
            (guarded _ _ _ v (inl refl) (rw (under_mac mac sized) (sendall-Sends v refl)))
      | inr other ↦
          let refused : encrypt_payload p request enc w ≡ (err (value_error bad_key_size), w) =
            bind_stop _ (value_error bad_key_size) _ (ap not other) in
          subst Sends
            (sym (ap (λ (x : Result (Unit {0}) × World). x.1.outgoing) (bind_err _ _ refused)))
            (inl refl)
    ])

    pub exchange-Sends : Sends (exchange p sid (some enc) (some mac) request w).1.outgoing
    unfolding exchange
    exchange-Sends =
        Leads-bind (λ v. v ≡ w) (λ v. Sends v.outgoing) (λ v. Sends v.outgoing) _ _
          (λ v e.
            subst
              (λ u.
                Sends (send_frame p data_request sid request (some enc) (some mac) u).1.outgoing)
              (sym e) send_frame-Sends)
          (λ v i. i)
          (λ u.
            Keeps-bind (Written Sends) _ _ (recv_frame-Written Sends p (some enc) (some mac)) (λ x.
              Keeps-bind (Written Sends) _ _ (guard-Written Sends _ _)
                (λ a. Keeps-bind (Written Sends) _ _ (guard-Written Sends _ _) (λ b w i. i))))
          w refl

abbrev pub KeySizes : Bytes × Bytes × Bytes → Type 0
KeySizes (sid, enc, mac) = (length enc ≡ 32) × (length mac ≡ 32)

-- Both keys of a handshake that returned have 32 bytes.
module _ (second : ℕ) (p : Primitives) (laws : Laws p) (c : Codec) (priv_c pub_s : Bytes) where
  abbrev SizesIn : Result (Bytes × Bytes × Bytes) → Type 0
  SizesIn (ok keys) = KeySizes keys
  SizesIn (err e) = Unit

  derived :
      (key sid info : Bytes)
      → let (enc, mac) = derive_keys p key (some sid) info in (length enc ≡ 32) × (length mac ≡ 32)
  unfolding derive_keys
  derived key sid info =
      let whole = laws.length-hkdf key (some sid) info 64 (omega arith) in
      (
        omega (arith, whole, length-take 32 (p.hkdf_sha256 key (some sid) info 64)),
        omega (arith, whole, length-drop 32 (p.hkdf_sha256 key (some sid) info 64)),
      )

  client_finish-KeySizes :
      (keys : Bytes × Bytes × Bytes) (w v : World)
      → client_finish second p c priv_c w ≡ (ok keys, v)
      → KeySizes keys
  unfolding client_finish
  client_finish-KeySizes keys w v h =
      let (frame, e1, h1) = bind_inv _ _ h in
      let (a, h2) = guard_inv _ _ _ h1 in
      let (b, h3) = guard_inv _ _ _ h2 in
      let (sd, e4, h4) = bind_inv _ _ h3 in
      let (sid, e5, h5) = bind_inv _ _ h4 in
      let (enc_key, e6, h6) = bind_inv _ _ h5 in
      let (key, e7, h7) = bind_inv _ _ h6 in
      subst (λ (r : Result (Bytes × Bytes × Bytes) × World). SizesIn r.0) h7
        (derived key sid default_info)

  pub client_handshake-KeySizes :
      (keys : Bytes × Bytes × Bytes) (w v : World)
      → client_handshake second p c priv_c pub_s w ≡ (ok keys, v)
      → KeySizes keys
  unfolding client_handshake
  client_handshake-KeySizes keys w v h =
      let (nc, e1, h1) = bind_inv _ _ h in
      let (ns, e2, h2) = bind_inv _ _ h1 in
      let (u, e3, h3) = bind_inv _ _ h2 in client_finish-KeySizes keys _ v h3
