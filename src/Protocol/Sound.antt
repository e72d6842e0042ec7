-- ===== src/Protocol/Sound.antt =====
-- What a frame that `recv_frame` returned must have looked like on the wire.
use custom_vpn_implementatio.Common.{
  ℕ, ◌+◌, ◌-◌, ◌≤◌, ◌≡◌, refl, ap, sym, ◌∙◌, Bool, true, false, not, Option, ◌++◌, Bytes, length,
  take, drop, arith, length-take, take-append-drop, ltb_false→le, bytes_eq_iff,
}
use custom_vpn_implementatio.Common.Exec.{ok, bind_ok, bind_inv, guard_inv}
use custom_vpn_implementatio.World.{World}
use custom_vpn_implementatio.World.Stream.{stream, advance, stream-advance}
use custom_vpn_implementatio.Crypto.{Primitives}
use custom_vpn_implementatio.Crypto.Utils.{verify_hmac, compute_hmac}
use custom_vpn_implementatio.Protocol.{
  MessageType, unpack, or_handshake_key, open_frame, parse_body, recv_frame, recv_exact_lem,
  recv_exact_enough, max_frame_size,
}
use custom_vpn_implementatio.Protocol.Accept.{after_frame}

-- The stream begins with a length field, a body and the body's HMAC under `key`.
pub record Authentic (p : Primitives) (key : Bytes) (stream_in : Bytes) : Type 0 where
  pub header : Bytes
  pub body : Bytes
  pub later : Bytes
  pub layout : stream_in ≡ header ++ ((body ++ p.hmac_sha256 key body) ++ later)
  pub length_header : length header ≡ 4
  pub announced : unpack header ≡ length body + 32
  pub at_least : 29 ≤ length body
  pub at_most : length body + 32 ≤ max_frame_size

cut_in_three :
    (n k : ℕ) (s : Bytes)
    → s
      ≡ take 4 s
        ++ ((take k (take n (drop 4 s)) ++ drop k (take n (drop 4 s))) ++ drop n (drop 4 s))
cut_in_three n k s = sym (
    rw (take-append-drop k (take n (drop 4 s)), take-append-drop n (drop 4 s))
      (take-append-drop 4 s))

module _ (p : Primitives) (enc_key mac_key : Option Bytes) where
  not-false : (b : Bool) → not b ≡ false → b ≡ true
  not-false true h = refl
  not-false false h = absurd (cc)

  open_frame_inv :
      (raw : Bytes) (w : World) {v : World} {r : MessageType × Bytes × Bytes}
      → open_frame p raw enc_key mac_key w ≡ (ok r, v)
      → (p.hmac_sha256 (or_handshake_key mac_key) (take (length raw - 32) raw)
          ≡ drop (length raw - 32) raw)
        × (parse_body p (take (length raw - 32) raw) enc_key w ≡ (ok r, v))
  unfolding open_frame verify_hmac compute_hmac
  open_frame_inv raw w h =
      let (c, k) = guard_inv _ _ _ h in ((bytes_eq_iff _ _).0 (not-false _ c), k)

  -- If `recv_frame` returned, the stream began with a length field, a body of the length that it
  -- announces, within the bounds, and the HMAC of that body under the key in use; and what was
  -- returned is what `parse_body` makes of that body.
  pub recv_frame_sound :
      {r : MessageType × Bytes × Bytes} (w v : World)
      → recv_frame p enc_key mac_key w ≡ (ok r, v)
      → (a : Authentic p (or_handshake_key mac_key) (stream w.incoming)) × (parse_body p a.body
            enc_key
            (after_frame (length a.body + 32) w)
          ≡ (ok r, v))
  unfolding recv_frame
  recv_frame_sound w v h =
      let (header_in, e1, k1) = bind_inv _ _ h in
      let enough = recv_exact_enough 4 w _ header_in e1 in
      let read1 = recv_exact_lem 4 w enough in
      let header = take 4 (stream w.incoming) in
      let (c1, k2) = guard_inv _ _ _ (sym (bind_ok _ _ read1) ∙ h) in
      let (c2, k3) = guard_inv _ _ _ k2 in
      let (raw_in, e2, k4) = bind_inv _ _ k3 in
      let n = unpack header in
      let w1 : World = record w { incoming = advance 4 w.incoming } in
      let enough2 = recv_exact_enough n w1 _ raw_in e2 in
      let tail : stream (advance 4 w.incoming) ≡ drop 4 (stream w.incoming) =
        stream-advance 4 w.incoming enough in
      let raw = take n (drop 4 (stream w.incoming)) in
      let read2 = rw tail at (recv_exact_lem n w1 enough2) in
      let (mac_ok, parsed) = open_frame_inv raw _ (sym (bind_ok _ _ read2) ∙ k3) in
      let length_raw : length raw ≡ n =
        omega
          (arith, length-take n (drop 4 (stream w.incoming)), ap (λ (l : Bytes). length l) tail) in
      let small = ltb_false→le _ _ c2 in
      let length_body : length (take (length raw - 32) raw) + 32 ≡ n =
        omega (arith, length-take (length raw - 32) raw) in
      (
        record {
          header = header;
          body = take (length raw - 32) raw;
          later = drop n (drop 4 (stream w.incoming));
          layout = rw mac_ok (cut_in_three n (length raw - 32) (stream w.incoming));
          length_header = omega (arith, length-take 4 (stream w.incoming));
          announced = sym length_body;
          at_least = omega arith;
          at_most = omega (arith, ltb_false→le _ _ c1);
        },
        rw length_body parsed,
      )
