-- ===== src/Protocol/Progress.antt =====
-- `recv_frame` and `send_frame`, and the stream that is still to be read.
use custom_vpn_implementatio.Common.{
  ℕ, ◌+◌, ◌≤◌, ◌≡◌, ◌≢◌, refl, sym, ap, ◌∙◌, Bool, true, false, Option, none, some, List, [], ◌∷◌,
  Bytes, length, arith, length-drop, leb, leb→le, leb_false→lt, Bool-cases, inl, inr,
}
use custom_vpn_implementatio.Common.Exec.{
  Exn, Result, ok, err, out_of_fuel, raise_if, Keeps, Keeps-bind, Ends, ends_bind, bind_inv,
  guard_inv,
}
use custom_vpn_implementatio.World.{World, Event, chunk, timed_out, reset, sendall, urandom}
use custom_vpn_implementatio.World.Stream.{stream, ending, advance, stream-advance}
use custom_vpn_implementatio.Crypto.{Primitives}
use custom_vpn_implementatio.Crypto.Utils.{encrypt_payload, decrypt_payload, or_invalid_tag}
use custom_vpn_implementatio.Protocol.{
  MessageType, protect, send_frame, unprotect, parse_body, open_frame, recv_frame, first_type,
  or_bad_type, of_value, recv_exact, recv_exact_lem, recv_exact_short, recv_exact_enough, unpack,
  header_size,
}

abbrev pub Unread : List Event → World → Type 0
Unread es w = w.incoming ≡ es

guard-Unread : (es : List Event) (b : Bool) (e : Exn) → Keeps (Unread es) (raise_if b e)
guard-Unread es true e = λ w u. u
guard-Unread es false e = λ w u. u

guard-Ends :
    (b : Bool) (e : Exn) (w : World) → e ≢ out_of_fuel → (raise_if b e w).0 ≢ err out_of_fuel
guard-Ends true e w n = λ h. n (cc h)
guard-Ends false e w n = λ h. absurd (cc h)

sendall-Unread : (es : List Event) (bytes : Bytes) → Keeps (Unread es) (sendall bytes)
unfolding sendall
sendall-Unread es bytes w u = ground (arith, u)

sendall-Ends : (bytes : Bytes) → Ends (sendall bytes)
unfolding sendall
sendall-Ends bytes w h = ground arith

ending-Ends : (es : List Event) → ending es ≢ out_of_fuel
ending-Ends [] h = absurd (cc h)
ending-Ends (chunk b bs ∷ es) h = ending-Ends es h
ending-Ends (timed_out ∷ es) h = absurd (cc h)
ending-Ends (reset ∷ es) h = absurd (cc h)

-- A read of n bytes takes n bytes off the stream, or fails as the stream ends.
recv_exact-Ends : (n : ℕ) → Ends (recv_exact n)
recv_exact-Ends n w h = elim (Bool-cases (leb n (length (stream w.incoming)))) [
  | inl enough ↦
      let e = recv_exact_lem n w (leb→le _ _ enough) in
      absurd (cc (h, ap (λ (x : Result Bytes × World). x.0) e))
  | inr short ↦
      let e = recv_exact_short n w (leb_false→lt _ _ short) in ending-Ends w.incoming (cc (e, h))
]

recv_exact-reads :
    (n : ℕ) (w v : World) (bs : Bytes)
    → recv_exact n w ≡ (ok bs, v)
    → n + length (stream v.incoming) ≡ length (stream w.incoming)
recv_exact-reads n w v bs h =
    let enough = recv_exact_enough n w v bs h in
    let e : v.incoming ≡ advance n w.incoming =
      ap (λ (x : Result Bytes × World). x.1.incoming) (sym h ∙ recv_exact_lem n w enough) in
    let l = ap length (ap stream e ∙ stream-advance n w.incoming enough) in
    omega (arith, l, length-drop n (stream w.incoming), enough)

or_invalid_tag-Unread : (es : List Event) (o : Option Bytes) → Keeps (Unread es) (or_invalid_tag o)
or_invalid_tag-Unread es none = λ w u. u
or_invalid_tag-Unread es (some a) = λ w u. u

or_invalid_tag-Ends : (o : Option Bytes) → Ends (or_invalid_tag o)
or_invalid_tag-Ends none w h = absurd (cc h)
or_invalid_tag-Ends (some a) w h = absurd (cc h)

or_bad_type-Unread : (es : List Event) (o : Option MessageType) → Keeps (Unread es) (or_bad_type o)
or_bad_type-Unread es none = λ w u. u
or_bad_type-Unread es (some a) = λ w u. u

first_type-Unread : (es : List Event) (body : Bytes) → Keeps (Unread es) (first_type body)
first_type-Unread es [] = λ w u. u
first_type-Unread es (b ∷ bs) = or_bad_type-Unread es (of_value b)

or_bad_type-Ends : (o : Option MessageType) → Ends (or_bad_type o)
or_bad_type-Ends none w h = absurd (cc h)
or_bad_type-Ends (some a) w h = absurd (cc h)

first_type-Ends : (body : Bytes) → Ends (first_type body)
first_type-Ends [] w h = absurd (cc h)
first_type-Ends (b ∷ bs) w h = or_bad_type-Ends (of_value b) w h

module _ (p : Primitives) (es : List Event) where
  protect-Unread :
      (payload : Bytes) (enc_key : Option Bytes) → Keeps (Unread es) (protect p payload enc_key)
  unfolding protect encrypt_payload urandom
  protect-Unread payload none = λ w u. u
  protect-Unread payload (some key) =
      Keeps-bind (Unread es) _ _ (guard-Unread es _ _)
        (λ a. Keeps-bind (Unread es) _ _ (λ w u. u) (λ b w u. u))

  -- Sending does not read.
  pub send_frame-Unread :
      (t : MessageType) (sid payload : Bytes) (enc_key mac_key : Option Bytes)
      → Keeps (Unread es) (send_frame p t sid payload enc_key mac_key)
  unfolding send_frame
  send_frame-Unread t sid payload enc_key mac_key =
      Keeps-bind (Unread es) _ _ (guard-Unread es _ _) (λ a.
        Keeps-bind (Unread es) _ _ (protect-Unread payload enc_key)
          (λ b. Keeps-bind (Unread es) _ _ (guard-Unread es _ _) (λ d. sendall-Unread es _)))

  unprotect-Unread :
      (enc_payload nonce : Bytes) (enc_key : Option Bytes)
      → Keeps (Unread es) (unprotect p enc_payload nonce enc_key)
  unfolding unprotect decrypt_payload
  unprotect-Unread enc_payload nonce none = λ w u. u
  unprotect-Unread enc_payload nonce (some key) =
      Keeps-bind (Unread es) _ _ (guard-Unread es _ _)
        (λ a. Keeps-bind (Unread es) _ _ (guard-Unread es _ _) (λ b. or_invalid_tag-Unread es _))

  open_frame-Unread :
      (raw : Bytes) (enc_key mac_key : Option Bytes)
      → Keeps (Unread es) (open_frame p raw enc_key mac_key)
  unfolding open_frame parse_body
  open_frame-Unread raw enc_key mac_key = Keeps-bind (Unread es) _ _ (guard-Unread es _ _) (λ a.
      Keeps-bind (Unread es) _ _ (first_type-Unread es _)
        (λ t. Keeps-bind (Unread es) _ _ (unprotect-Unread _ _ enc_key) (λ payload w u. u)))

module _ (p : Primitives) where
  -- A `recv_frame` that returned a frame has taken at least four bytes off the stream.
  pub recv_frame-reads :
      (enc_key mac_key : Option Bytes) (w v : World) (r : MessageType × Bytes × Bytes)
      → recv_frame p enc_key mac_key w ≡ (ok r, v)
      → 4 + length (stream v.incoming) ≤ length (stream w.incoming)
  unfolding recv_frame
  recv_frame-reads enc_key mac_key w v r h =
      let (header, e1, h1) = bind_inv _ _ h in
      let (u1, h2) = guard_inv _ _ _ h1 in
      let (u2, h3) = guard_inv _ _ _ h2 in
      let (raw, e4, h4) = bind_inv _ _ h3 in
      let w1 = (recv_exact header_size w).1 in
      let w2 = (recv_exact (unpack header) w1).1 in
      let kept = open_frame-Unread p w2.incoming raw enc_key mac_key w2 refl in
      let last : v.incoming ≡ w2.incoming =
        sym (ap (λ (x : Result (MessageType × Bytes × Bytes) × World). x.1.incoming) h4) ∙ kept in
      omega (
        arith,
        recv_exact-reads header_size w w1 header e1,
        recv_exact-reads (unpack header) w1 w2 raw e4,
        ap length (ap stream last),
      )

  unprotect-Ends :
      (enc_payload nonce : Bytes) (enc_key : Option Bytes)
      → Ends (unprotect p enc_payload nonce enc_key)
  unfolding unprotect decrypt_payload
  unprotect-Ends enc_payload nonce none w = λ h. absurd (cc h)
  unprotect-Ends enc_payload nonce (some key) w =
      ends_bind _ _ w (guard-Ends _ _ _ (λ h. cc h))
        (λ a e. ends_bind _ _ _ (guard-Ends _ _ _ (λ h. cc h)) (λ b e2. or_invalid_tag-Ends _ _))

  protect-Ends : (payload : Bytes) (enc_key : Option Bytes) → Ends (protect p payload enc_key)
  unfolding protect encrypt_payload urandom
  protect-Ends payload none w = λ h. absurd (cc h)
  protect-Ends payload (some key) w =
      ends_bind _ _ w (guard-Ends _ _ _ (λ h. cc h))
        (λ a e. ends_bind _ _ _ (λ h. cc h) (λ b e2 h. cc h))

  pub send_frame-Ends :
      (t : MessageType) (sid payload : Bytes) (enc_key mac_key : Option Bytes)
      → Ends (send_frame p t sid payload enc_key mac_key)
  unfolding send_frame
  send_frame-Ends t sid payload enc_key mac_key w =
      ends_bind _ _ w (guard-Ends _ _ _ (λ h. cc h)) (λ a e.
        ends_bind _ _ _ (protect-Ends payload enc_key _)
          (λ b e2. ends_bind _ _ _ (guard-Ends _ _ _ (λ h. cc h)) (λ d e3. sendall-Ends _ _)))

  pub recv_frame-Ends : (enc_key mac_key : Option Bytes) → Ends (recv_frame p enc_key mac_key)
  unfolding recv_frame open_frame parse_body
  recv_frame-Ends enc_key mac_key w = ends_bind _ _ w (recv_exact-Ends _ _) (λ header e.
      ends_bind _ _ _ (guard-Ends _ _ _ (λ h. cc h)) (λ a e1.
        ends_bind _ _ _ (guard-Ends _ _ _ (λ h. cc h)) (λ b e2.
          ends_bind _ _ _ (recv_exact-Ends _ _) (λ raw e3.
            ends_bind _ _ _ (guard-Ends _ _ _ (λ h. cc h)) (λ d e4.
              ends_bind _ _ _ (first_type-Ends _ _)
                (λ t e5. ends_bind _ _ _ (unprotect-Ends _ _ enc_key _) (λ payload e6 h. cc h)))))))
