-- ===== src/TamperDemo/Rejected.antt =====
-- The server's loop on the frame of the demo.
use custom_vpn_implementatio.Common.{
  ℕ, zero, suc, ◌+◌, ◌≤◌, ◌<◌, ◌≡◌, ◌≢◌, refl, ap, ◌∙◌, true, false, some, [], ◌∷◌, ◌++◌, Bytes,
  Text, length, drop, arith, drop-append, append_assoc, has_size,
}
use custom_vpn_implementatio.Common.Exec.{
  ◌>>=◌, Exec, Exn, ok, err, value_error, hmac_failed, bind_ok, bind_pass,
}
use custom_vpn_implementatio.World.{World, sendall, random_bytes, urandom}
use custom_vpn_implementatio.World.Stream.{stream, length-random_bytes}
use custom_vpn_implementatio.Crypto.{Primitives, Laws}
use custom_vpn_implementatio.Crypto.Utils.{encrypt_payload, compute_hmac}
use custom_vpn_implementatio.Protocol.{data_request, or_handshake_key, pack, recv_frame}
use custom_vpn_implementatio.Protocol.Accept.{after_frame}
use custom_vpn_implementatio.Protocol.Wire.{unpack-pack, length-pack, length-body_of}
use custom_vpn_implementatio.Protocol.RoundTrip.{sent_body}
use custom_vpn_implementatio.Protocol.Delivery.{recv_frame-tampered}
use custom_vpn_implementatio.Json.{Codec}
use custom_vpn_implementatio.Rate.{is_idle}
use custom_vpn_implementatio.Server.{Server, serve_round, idle, dispatch, serve}
use custom_vpn_implementatio.TamperDemo.{xor_at, tampered, demo_payload, send_tampered}

length-xor_at : (i mask : ℕ) (bs : Bytes) → length (xor_at i mask bs) ≡ length bs
unfolding xor_at
length-xor_at i mask [] = refl
length-xor_at zero mask (b ∷ bs) = refl
length-xor_at (suc i) mask (b ∷ bs) = ap suc (length-xor_at i mask bs)

xor_at-append :
    (i mask : ℕ) (xs ys : Bytes) → i < length xs → xor_at i mask (xs ++ ys) ≡ xor_at i mask xs ++ ys
unfolding xor_at
xor_at-append i mask [] ys h = absurd (omega arith)
xor_at-append zero mask (x ∷ xs) ys h = refl
xor_at-append (suc i) mask (x ∷ xs) ys h =
    ap (λ bs. x ∷ bs) (xor_at-append i mask xs ys (omega arith))

-- The same changes of a body, counted from its start.
abbrev pub tampered_body : Bytes → Bytes
tampered_body body = xor_at 36 0x55 (xor_at 35 0xAA (xor_at 34 0xFF body))

length-tampered_body : (body : Bytes) → length (tampered_body body) ≡ length body
length-tampered_body body =
    length-xor_at 36 0x55 _ ∙ length-xor_at 35 0xAA _ ∙ length-xor_at 34 0xFF body

-- Neither the length nor the HMAC is changed.
tampered-frame :
    (n : ℕ) (body mac : Bytes)
    → 37 ≤ length body
    → tampered (pack n ++ (body ++ mac)) ≡ pack n ++ (tampered_body body ++ mac)
unfolding tampered pack xor_at
tampered-frame n body mac h =
    let one = xor_at 34 0xFF body in
    let two = xor_at 35 0xAA one in
    ap (λ bs. pack n ++ bs)
      (ap (λ bs. xor_at 36 0x55 (xor_at 35 0xAA bs)) (xor_at-append 34 0xFF body mac (omega arith))
        ∙ ap (xor_at 36 0x55)
            (xor_at-append 35 0xAA one mac (omega (arith, length-xor_at 34 0xFF body)))
        ∙ xor_at-append 36 0x55 two mac
            (omega (arith, length-xor_at 35 0xAA one, length-xor_at 34 0xFF body)))

module _ (p : Primitives) (laws : Laws p) (sid ek mk : Bytes) (w : World) (hs : length sid ≡ 16)
    (he : length ek ≡ 32) where
  -- The body of the valid frame.
  abbrev pub valid_body : Bytes
  valid_body = sent_body p data_request sid demo_payload (some ek) w

  abbrev changed_frame : Bytes
  changed_frame =
      pack (length valid_body + 32) ++ (tampered_body valid_body ++ p.hmac_sha256 mk valid_body)

  length-valid_body : length valid_body ≡ 111
  length-valid_body = omega (
    arith,
    hs,
    length-body_of data_request sid (random_bytes 12 w.random w.drawn)
        (p.aes_encrypt ek (random_bytes 12 w.random w.drawn) demo_payload),
    length-random_bytes 12 w.random w.drawn,
    laws.length-encrypt ek (random_bytes 12 w.random w.drawn) demo_payload,
  )

  encrypts : encrypt_payload p demo_payload ek w ≡ (
    ok (
      p.aes_encrypt ek (random_bytes 12 w.random w.drawn) demo_payload,
      random_bytes 12 w.random w.drawn,
    ),
    record w { drawn = w.drawn + 12 },
  )
  unfolding encrypt_payload urandom
  encrypts = bind_pass _ _ _ (has_size ek 32 he) ∙ bind_ok _ _ refl

  send_tampered_lem :
      w.writable w.sends ≡ true
      → send_tampered p sid ek mk w ≡ (
        ok tt,
        record w {
          drawn = w.drawn + 12;
          outgoing = w.outgoing ++ changed_frame;
          sends = suc w.sends;
        },
      )
  unfolding send_tampered compute_hmac sendall
  send_tampered_lem writes =
      bind_ok _ _ encrypts
      ∙ rw writes (
          ap
            (λ bs. (
              ok tt,
              record w { drawn = w.drawn + 12; outgoing = w.outgoing ++ bs; sends = suc w.sends },
            ))
            (tampered-frame (length valid_body + 32) valid_body (p.hmac_sha256 mk valid_body)
              (omega (arith, length-valid_body))))

  -- A receiver with the session's keys.
  recv_frame-changed :
      (later : Bytes) (v : World)
      → p.hmac_sha256 (or_handshake_key (some mk)) (tampered_body valid_body)
        ≢ p.hmac_sha256 mk valid_body
      → stream v.incoming ≡ changed_frame ++ later
      → recv_frame p (some ek) (some mk) v
        ≡ (err (value_error hmac_failed), after_frame (length (tampered_body valid_body) + 32) v)
  recv_frame-changed later v differs arrives =
      let n = length valid_body + 32 in
      let same = length-tampered_body valid_body in
      recv_frame-tampered p (pack n) (tampered_body valid_body) (p.hmac_sha256 mk valid_body) later
        (some ek) (some mk) v (arrives ∙ append_assoc (pack n) _ later) (length-pack n)
        (laws.length-hmac mk valid_body)
        (unpack-pack n (omega (arith, length-valid_body)) ∙ omega (arith, same))
        (omega (arith, same, length-valid_body)) (omega (arith, same, length-valid_body)) differs

  module _ (second : ℕ) (c : Codec) (describe : Exn → Bytes) {F : Type 0}
      (forward : Bytes → Exec F Bytes) (ip : Text) where
    round-changed :
        (later : Bytes) (s : Server F)
        → p.hmac_sha256 (or_handshake_key (some mk)) (tampered_body valid_body)
          ≢ p.hmac_sha256 mk valid_body
        → is_idle (s.ticks s.ticked) ip s.limiter ≡ false
        → stream s.world.incoming ≡ changed_frame ++ later
        → serve_round second p c describe forward ip sid ek mk s ≡ (
          ok false,
          record s {
            world = after_frame (length (tampered_body valid_body) + 32) s.world;
            ticked = suc s.ticked;
          },
        )
    unfolding serve_round idle ◌>>=◌ dispatch
    round-changed later s differs active arrives =
        rw (active, recv_frame-changed later s.world differs arrives) refl

    -- The demo sends a frame of which three bytes of the encrypted payload are changed. If the
    -- server of the session, at a client that is not idle, reads that frame, in any chunks and with anything behind it, and
    -- the HMAC of the changed body is not that of the valid one, then its serving loop ends at once, however
    -- many rounds are allowed: nothing is forwarded, no bytes are sent in answer, and no token of the
    -- client's bucket is taken.
    pub serve-send_tampered :
        (rounds : ℕ) (later : Bytes) (s : Server F)
        → w.writable w.sends ≡ true
        → p.hmac_sha256 (or_handshake_key (some mk)) (tampered_body valid_body)
          ≢ p.hmac_sha256 mk valid_body
        → is_idle (s.ticks s.ticked) ip s.limiter ≡ false
        → stream s.world.incoming
          ≡ drop (length w.outgoing) (send_tampered p sid ek mk w).1.outgoing ++ later
        → let (r, s') = serve second p c describe forward ip sid ek mk (suc rounds) s in
          ((send_tampered p sid ek mk w).0 ≡ ok tt)
          × (r ≡ ok tt)
          × (s'.forwarder ≡ s.forwarder)
          × (s'.limiter ≡ s.limiter)
          × (s'.world.outgoing ≡ s.world.outgoing)
    unfolding serve
    serve-send_tampered rounds later s writes differs active arrives =
        let sent = send_tampered_lem writes in
        let fresh = rw (sent, drop-append (length w.outgoing) w.outgoing _ refl) at arrives in
        let whole = bind_ok _ _ (round-changed later s differs active fresh) in
        (
          ap (λ r. r.0) sent,
          ap (λ r. r.0) whole,
          ap (λ r. r.1.forwarder) whole,
          ap (λ r. r.1.limiter) whole,
          ap (λ r. r.1.world.outgoing) whole,
        )
