-- ===== src/Protocol/RoundTrip.antt =====
-- `send_frame`, and `recv_frame` on a frame of any sender.
use custom_vpn_implementatio.Common.{
  ℕ, suc, ◌+◌, ◌≤◌, ◌<◌, ◌≡◌, refl, ◌∙◌, true, Option, none, some, ◌++◌, Bytes, length, take, drop,
  replicate, arith, take-append, drop-append, drop-add, bytes_eq_refl, append_assoc, le→ltb_false,
  lt→ltb, has_size,
}
use custom_vpn_implementatio.Common.Exec.{
  ok, err, value_error, frame_too_large, bad_nonce_size, bind_ok, bind_pass, bind_stop,
}
use custom_vpn_implementatio.World.{World, sendall, urandom, random_bytes}
use custom_vpn_implementatio.World.Stream.{stream, length-random_bytes}
use custom_vpn_implementatio.Crypto.{Primitives, Laws}
use custom_vpn_implementatio.Crypto.Utils.{encrypt_payload, decrypt_payload, compute_hmac}
use custom_vpn_implementatio.Protocol.{
  MessageType, body_of, or_handshake_key, pack, first_type, parse_body, protect, unprotect,
  send_frame, recv_frame, max_frame_size,
}
use custom_vpn_implementatio.Protocol.Wire.{
  framed, of_value-value, unpack-pack, length-pack, length-body_of,
}
use custom_vpn_implementatio.Protocol.Accept.{after_frame, recv_frame_lem, stream-after_frame}

-- An encryption key is absent or has 32 bytes.
abbrev pub KeyFits : Option Bytes → Type 0
KeyFits none = Unit
KeyFits (some key) = length key ≡ 32

-- What encryption adds to a payload.
abbrev pub overhead : Option Bytes → ℕ
overhead none = 0
overhead (some key) = 16

module _ (p : Primitives) where
  -- The nonce field and the payload field of a frame that is sent in `w`.
  abbrev pub nonce_field : Option Bytes → World → Bytes
  nonce_field none w = replicate 12 0
  nonce_field (some key) w = random_bytes 12 w.random w.drawn

  abbrev pub payload_field : Bytes → Option Bytes → World → Bytes
  payload_field payload none w = payload
  payload_field payload (some key) w = p.aes_encrypt key (nonce_field (some key) w) payload

  abbrev pub after_protect : Option Bytes → World → World
  after_protect none w = w
  after_protect (some key) w = record w { drawn = w.drawn + 12 }

  -- The authenticated part of the frame that is sent in `w`.
  abbrev pub sent_body : MessageType → Bytes → Bytes → Option Bytes → World → Bytes
  sent_body t sid payload ek w = body_of t sid (nonce_field ek w) (payload_field payload ek w)

  pub length-nonce_field : (ek : Option Bytes) (w : World) → length (nonce_field ek w) ≡ 12
  length-nonce_field none w = refl
  length-nonce_field (some key) w = length-random_bytes 12 w.random w.drawn

  protect_lem :
      (payload : Bytes) (ek : Option Bytes) (w : World)
      → KeyFits ek
      → protect p payload ek w
        ≡ (ok (payload_field payload ek w, nonce_field ek w), after_protect ek w)
  unfolding protect encrypt_payload urandom
  protect_lem payload none w fits = refl
  protect_lem payload (some key) w fits = bind_pass _ _ _ (has_size key 32 fits) ∙ bind_ok _ _ refl

  parse_body-body_of :
      (t : MessageType) (sid nonce enc plain : Bytes) (ek : Option Bytes) (w v : World)
      → length sid ≡ 16
      → length nonce ≡ 12
      → unprotect p enc nonce ek w ≡ (ok plain, v)
      → parse_body p (body_of t sid nonce enc) ek w ≡ (ok (t, sid, plain), v)
  unfolding parse_body
  parse_body-body_of t sid nonce enc plain ek w v hs hn u =
      let rest = sid ++ (nonce ++ enc) in
      let f1 : take 16 rest ≡ sid = take-append 16 sid (nonce ++ enc) hs in
      let f2 : drop 16 rest ≡ nonce ++ enc = drop-append 16 sid (nonce ++ enc) hs in
      let f3 : take 12 (drop 16 rest) ≡ nonce = rw f2 (take-append 12 nonce enc hn) in
      let f4 : drop 28 rest ≡ enc = drop-add 16 12 rest ∙ rw f2 (drop-append 12 nonce enc hn) in
      let typed : first_type (body_of t sid nonce enc) w ≡ (ok t, w) = rw (of_value-value t) in
      let opened : unprotect p (drop 28 rest) (take 12 (drop 16 rest)) ek w ≡ (ok plain, v) =
        rw (f4, f3) u in
      bind_ok _ _ typed ∙ bind_ok _ _ opened ∙ rw f1

  sendall-after_protect :
      (ek : Option Bytes) (w : World) (bytes : Bytes)
      → w.writable w.sends ≡ true
      → sendall bytes (after_protect ek w) ≡ (
        ok tt,
        record (after_protect ek w) { outgoing = w.outgoing ++ bytes; sends = suc w.sends },
      )
  unfolding sendall
  sendall-after_protect none w bytes h = rw h
  sendall-after_protect (some key) w bytes h = rw h

module _ (p : Primitives) (laws : Laws p) where
  pub length-payload_field :
      (payload : Bytes) (ek : Option Bytes) (w : World)
      → length (payload_field p payload ek w) ≡ length payload + overhead ek
  length-payload_field payload none w = omega arith
  length-payload_field payload (some key) w = laws.length-encrypt key _ payload

  pub unprotect_lem :
      (payload : Bytes) (ek : Option Bytes) (w v : World)
      → KeyFits ek
      → unprotect p (payload_field p payload ek w) (nonce_field p ek w) ek v ≡ (ok payload, v)
  unfolding unprotect decrypt_payload
  unprotect_lem payload none w v fits = refl
  unprotect_lem payload (some key) w v fits =
      let sized = length-random_bytes 12 w.random w.drawn in
      bind_pass _ _ _ (has_size key 32 fits)
      ∙ bind_pass _ (value_error bad_nonce_size) _
          (has_size (random_bytes 12 w.random w.drawn) 12 sized)
      ∙ rw (laws.decrypt-encrypt key _ payload fits sized)

  -- `send_frame` appends one frame to the stream, or refuses one that is too large.
  module _ (t : MessageType) (sid payload : Bytes) (ek mk : Option Bytes) (w : World)
      (hs : length sid ≡ 16) (fits : KeyFits ek) where
    length-sent_body : length (sent_body p t sid payload ek w) ≡ 29 + (length payload + overhead ek)
    length-sent_body = omega (
      arith,
      length-body_of t sid (nonce_field p ek w) (payload_field p payload ek w),
      length-nonce_field p ek w,
      length-payload_field payload ek w,
    )

    pub send_frame_lem :
        61 + (length payload + overhead ek) ≤ max_frame_size
        → w.writable w.sends ≡ true
        → send_frame p t sid payload ek mk w ≡ (
          ok tt,
          record (after_protect p ek w) {
            outgoing =
                w.outgoing ++ framed p (or_handshake_key mk) (sent_body p t sid payload ek w);
            sends = suc w.sends;
          },
        )
    unfolding send_frame framed compute_hmac
    send_frame_lem small writes =
        bind_pass _ _ _ (has_size sid 16 hs)
        ∙ bind_ok _ _ (protect_lem p payload ek w fits)
        ∙ bind_pass _ _ _ (le→ltb_false max_frame_size _ (omega (arith, length-sent_body)))
        ∙ sendall-after_protect p ek w _ writes

    -- A payload that does not fit in a frame is refused, and nothing is written.
    pub send_frame-too_large :
        max_frame_size < 61 + (length payload + overhead ek)
        → send_frame p t sid payload ek mk w
          ≡ (err (value_error frame_too_large), after_protect p ek w)
    unfolding send_frame
    send_frame-too_large large =
        bind_pass _ _ _ (has_size sid 16 hs)
        ∙ bind_ok _ _ (protect_lem p payload ek w fits)
        ∙ bind_stop _ _ _ (lt→ltb max_frame_size _ (omega (arith, length-sent_body)))

  -- A frame of any sender, at the head of the stream.
  pub recv_frame-framed :
      (t : MessageType) (sid nonce enc plain later : Bytes) (ek mk : Option Bytes) (v : World)
      → length sid ≡ 16
      → length nonce ≡ 12
      → 61 + length enc ≤ max_frame_size
      → ((u : World) → unprotect p enc nonce ek u ≡ (ok plain, u))
      → stream v.incoming ≡ framed p (or_handshake_key mk) (body_of t sid nonce enc) ++ later
      → let v' = after_frame (length (body_of t sid nonce enc) + 32) v in
        (recv_frame p ek mk v ≡ (ok (t, sid, plain), v')) × (stream v'.incoming ≡ later)
  unfolding framed
  recv_frame-framed t sid nonce enc plain later ek mk v hs hn small opens arrives =
      let key = or_handshake_key mk in
      let body = body_of t sid nonce enc in
      let mac = p.hmac_sha256 key body in
      let lb : length body ≡ 29 + length enc = omega (arith, length-body_of t sid nonce enc) in
      let at : stream v.incoming ≡ pack (length body + 32) ++ ((body ++ mac) ++ later) =
        rw arrives (append_assoc (pack (length body + 32)) (body ++ mac) later) in
      let announced = unpack-pack (length body + 32) (omega arith) in
      let v' = after_frame (length body + 32) v in
      (
        recv_frame_lem p _ body mac later ek mk v at (length-pack (length body + 32))
              (laws.length-hmac key body) announced (omega arith) (omega arith)
            ∙ rw (bytes_eq_refl mac)
                (parse_body-body_of p t sid nonce enc plain ek v' v' hs hn (opens v')),
        stream-after_frame p _ body mac later ek mk v at (length-pack (length body + 32))
            (laws.length-hmac key body) announced (omega arith) (omega arith),
      )
