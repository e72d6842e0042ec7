-- ===== src/Protocol/Receive.antt =====
-- crypto/protocol.py, `recv_exact`.
use custom_vpn_implementatio.Common.{
  ℕ, zero, suc, ◌+◌, ◌-◌, ◌≤◌, ◌<◌, ◌≡◌, true, false, List, [], ◌∷◌, ◌++◌, Bytes, length, take,
  drop, arith, ap, inl, inr, Bool-cases, leb, leb→le, leb_false→lt, append_assoc, append-nil, ltb,
  lt→ltb, le→ltb_false, length-append, length-take, length-drop, ◌∙◌,
}
use custom_vpn_implementatio.Common.Exec.{
  ◌>>=◌, pure, raise, connection_error, out_of_fuel, ok, err, Result,
}
use custom_vpn_implementatio.World.{World, Action, Event, chunk, timed_out, reset, recv, requeue}
use custom_vpn_implementatio.World.Stream.{
  stream, ending, ending-requeue, advance, advance-zero, take_in_parts, advance_in_parts,
  stream-requeue,
}

-- The `while` loop, with one round for each call of `recv`. An empty chunk is the peer's close.
unfoldable pub recv_loop : ℕ → ℕ → Bytes → Action Bytes
recv_loop zero n buf = raise out_of_fuel
recv_loop (suc rounds) n buf = elim (ltb (length buf) n) [
  | true ↦ do
    data_in ← recv (n - length buf)
    elim data_in [ [] ↦ raise connection_error | b ∷ bs ↦ recv_loop rounds n (buf ++ b ∷ bs) ]
  | false ↦ pure buf
]

-- Each round reads a byte or more, so n + 1 rounds are enough.
unfoldable pub recv_exact : ℕ → Action Bytes
unfolding recv_loop
recv_exact n = recv_loop (suc n) n []

-- The loop returns the next k bytes of the stream, however they are cut.
recv_loop_lem :
    (rounds n k : ℕ) (buf : Bytes) (es : List Event) (w : World)
    → length buf + k ≡ n
    → k < rounds
    → k ≤ length (stream es)
    → recv_loop rounds n buf (record w { incoming = es })
      ≡ (ok (buf ++ take k (stream es)), record w { incoming = advance k es })
unfolding recv_loop recv ◌>>=◌
recv_loop_lem zero n k buf es w e r h = absurd (omega arith)
recv_loop_lem (suc rounds) n zero buf es w e r h =
    rw (le→ltb_false (length buf) n (omega arith), recv_loop, advance-zero es) (rw append-nil)
recv_loop_lem (suc rounds) n (suc k) buf [] w e r h = absurd (omega arith)
recv_loop_lem (suc rounds) n (suc k) buf (chunk b bs ∷ es) w e r h =
    let left : n - length buf ≡ suc k = omega arith in
    rw (lt→ltb (length buf) n (omega arith), recv_loop, left, ◌>>=◌)
      (recv_loop_lem rounds n (k - length (take k bs)) (buf ++ b ∷ take k bs)
          (requeue (drop k bs) es) w
          (omega (arith, length-append buf (b ∷ take k bs), length-take k bs)) (omega arith)
          (rw (stream-requeue (drop k bs) es) (
            omega (
              arith,
              length-append (drop k bs) (stream es),
              length-append bs (stream es),
              length-drop k bs,
              length-take k bs,
            )))
        ∙ rw (
          stream-requeue (drop k bs) es,
          append_assoc,
          ← take_in_parts k bs (stream es),
          advance_in_parts k b bs es,
        ))
recv_loop_lem (suc rounds) n (suc k) buf (timed_out ∷ es) w e r h = absurd (omega arith)
recv_loop_lem (suc rounds) n (suc k) buf (reset ∷ es) w e r h = absurd (omega arith)

recv_loop_short :
    (rounds n k : ℕ) (buf : Bytes) (es : List Event) (w : World)
    → length buf + k ≡ n
    → k < rounds
    → length (stream es) < k
    → (recv_loop rounds n buf (record w { incoming = es })).0 ≡ err (ending es)
unfolding recv_loop recv ◌>>=◌
recv_loop_short zero n k buf es w e r h = absurd (omega arith)
recv_loop_short (suc rounds) n zero buf es w e r h = absurd (omega arith)
recv_loop_short (suc rounds) n (suc k) buf [] w e r h =
    rw (lt→ltb (length buf) n (omega arith), recv_loop)
recv_loop_short (suc rounds) n (suc k) buf (chunk b bs ∷ es) w e r h =
    let left : n - length buf ≡ suc k = omega arith in
    rw (lt→ltb (length buf) n (omega arith), recv_loop, left, ◌>>=◌)
      (recv_loop_short rounds n (k - length (take k bs)) (buf ++ b ∷ take k bs)
          (requeue (drop k bs) es) w
          (omega (arith, length-append buf (b ∷ take k bs), length-take k bs)) (omega arith)
          (rw (stream-requeue (drop k bs) es) (
            omega (
              arith,
              length-append (drop k bs) (stream es),
              length-append bs (stream es),
              length-drop k bs,
              length-take k bs,
            )))
        ∙ rw (ending-requeue (drop k bs) es))
recv_loop_short (suc rounds) n (suc k) buf (timed_out ∷ es) w e r h =
    rw (lt→ltb (length buf) n (omega arith), recv_loop)
recv_loop_short (suc rounds) n (suc k) buf (reset ∷ es) w e r h =
    rw (lt→ltb (length buf) n (omega arith), recv_loop)

-- Exactly n bytes are read if the stream has them, whatever the chunks are.
pub recv_exact_lem :
    (n : ℕ) (w : World)
    → n ≤ length (stream w.incoming)
    → recv_exact n w
      ≡ (ok (take n (stream w.incoming)), record w { incoming = advance n w.incoming })
unfolding recv_exact
recv_exact_lem n w h = recv_loop_lem (suc n) n n [] w.incoming w (omega arith) (omega arith) h

-- With fewer bytes the read raises what ends the stream.
pub recv_exact_short :
    (n : ℕ) (w : World)
    → length (stream w.incoming) < n
    → (recv_exact n w).0 ≡ err (ending w.incoming)
unfolding recv_exact
recv_exact_short n w h = recv_loop_short (suc n) n n [] w.incoming w (omega arith) (omega arith) h

-- A read that returned had the bytes.
pub recv_exact_enough :
    (n : ℕ) (w v : World) (bs : Bytes)
    → recv_exact n w ≡ (ok bs, v)
    → n ≤ length (stream w.incoming)
recv_exact_enough n w v bs h = elim (Bool-cases (leb n (length (stream w.incoming)))) [
  | inl enough ↦ leb→le _ _ enough
  | inr short ↦
      let e = recv_exact_short n w (leb_false→lt _ _ short) in
      absurd (cc (e, ap (λ (x : Result Bytes × World). x.0) h))
]
