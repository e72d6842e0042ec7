-- ===== src/Protocol/Accept.antt =====
-- What `recv_frame` does with a stream that holds a whole frame.
use custom_vpn_implementatio.Common.{
  ℕ, ◌+◌, ◌-◌, ◌≤◌, ◌≡◌, refl, ap, ◌∙◌, Option, ◌++◌, Bytes, length, take, drop, arith,
  length-append, take-append, drop-append, le→ltb_false, bytes_eq, if◌then◌else◌, Bool-cases, inl,
  inr,
}
use custom_vpn_implementatio.Common.Exec.{
  ◌>>=◌, ok, err, value_error, hmac_failed, bind_ok, bind_pass, Result,
}
use custom_vpn_implementatio.World.{World}
use custom_vpn_implementatio.World.Stream.{stream, advance, stream-advance}
use custom_vpn_implementatio.Crypto.{Primitives}
use custom_vpn_implementatio.Crypto.Utils.{verify_hmac, compute_hmac}
use custom_vpn_implementatio.Protocol.{
  MessageType, unpack, or_handshake_key, open_frame, parse_body, recv_frame, recv_exact,
  recv_exact_lem, max_frame_size,
}

-- The world after a frame of n bytes behind its length field has been read.
abbrev pub after_frame : ℕ → World → World
after_frame n w = record w { incoming = advance n (advance 4 w.incoming) }

module _ (p : Primitives) where
  -- The body is handed on if the received HMAC is that of the body, and nothing of it otherwise.
  abbrev pub checked :
      Bytes
      → Bytes
      → Option Bytes
      → Option Bytes
      → World
      → Result (MessageType × Bytes × Bytes) × World
  checked body mac enc_key mac_key w =
      if bytes_eq (p.hmac_sha256 (or_handshake_key mac_key) body) mac
      then parse_body p body enc_key w
      else (err (value_error hmac_failed), w)

  open_frame-append :
      (body mac : Bytes) (enc_key mac_key : Option Bytes) (w : World)
      → length mac ≡ 32
      → open_frame p (body ++ mac) enc_key mac_key w ≡ checked body mac enc_key mac_key w
  unfolding open_frame verify_hmac compute_hmac ◌>>=◌
  open_frame-append body mac enc_key mac_key w l =
      let c : length (body ++ mac) - 32 ≡ length body = omega (arith, length-append body mac) in
      let b : take (length body) (body ++ mac) ≡ body = take-append _ body mac refl in
      let m : drop (length body) (body ++ mac) ≡ mac = drop-append _ body mac refl in
      elim (Bool-cases (bytes_eq (p.hmac_sha256 (or_handshake_key mac_key) body) mac)) [
        | inl e ↦ rw (open_frame, c, b, m, e, ◌>>=◌)
        | inr e ↦ rw (open_frame, c, b, m, e, ◌>>=◌)
      ]

  module _ (header body mac later : Bytes) (enc_key mac_key : Option Bytes) (w : World)
      (arrives : stream w.incoming ≡ header ++ ((body ++ mac) ++ later))
      (h_header : length header ≡ 4) (h_mac : length mac ≡ 32)
      (h_len : unpack header ≡ length body + 32) (h_min : 29 ≤ length body)
      (h_max : length body + 32 ≤ max_frame_size) where
    stream_after_header : stream (advance 4 w.incoming) ≡ (body ++ mac) ++ later
    stream_after_header =
        stream-advance 4 w.incoming
          (rw arrives (omega (arith, length-append header ((body ++ mac) ++ later))))
        ∙ rw arrives (drop-append 4 header _ h_header)

    length_raw : length (body ++ mac) ≡ length body + 32
    length_raw = omega (arith, length-append body mac)

    read_header : recv_exact 4 w ≡ (ok header, record w { incoming = advance 4 w.incoming })
    read_header =
        recv_exact_lem 4 w
          (rw arrives (omega (arith, length-append header ((body ++ mac) ++ later))))
        ∙ ap (λ h. (ok h, record w { incoming = advance 4 w.incoming }))
            (rw arrives (take-append 4 header _ h_header))

    read_raw :
        recv_exact (length body + 32) (record w { incoming = advance 4 w.incoming })
        ≡ (ok (body ++ mac), after_frame (length body + 32) w)
    read_raw =
        recv_exact_lem (length body + 32) (record w { incoming = advance 4 w.incoming })
          (rw stream_after_header (omega (arith, length-append (body ++ mac) later, length_raw)))
        ∙ ap (λ r. (ok r, after_frame (length body + 32) w))
            (rw stream_after_header (take-append (length body + 32) (body ++ mac) later length_raw))

    -- The stream holds a length field, a body of the length that it announces, and 32 more bytes.
    pub recv_frame_lem :
        recv_frame p enc_key mac_key w
        ≡ checked body mac enc_key mac_key (after_frame (length body + 32) w)
    unfolding recv_frame
    recv_frame_lem =
        bind_ok _ _ read_header
        ∙ bind_pass _ _ _ (rw (h_len, le→ltb_false max_frame_size (length body + 32) h_max))
        ∙ bind_pass _ _ _ (rw (h_len, le→ltb_false (length body + 32) 61 (omega arith)))
        ∙ bind_ok _ _ (rw h_len read_raw)
        ∙ open_frame-append body mac enc_key mac_key _ h_mac

    pub stream-after_frame : stream (after_frame (length body + 32) w).incoming ≡ later
    stream-after_frame =
        stream-advance (length body + 32) (advance 4 w.incoming)
          (rw stream_after_header (omega (arith, length-append (body ++ mac) later, length_raw)))
        ∙ rw stream_after_header (drop-append (length body + 32) (body ++ mac) later length_raw)
