-- ===== src/Forwarder/RelayLoop.antt =====
-- server/forwarder.py, the reading loop of `_handle_relay`: what it reads, and when it says that the
-- target has closed.
use custom_vpn_implementatio.Common.{
  ℕ, zero, suc, ◌<◌, ◌≡◌, ◌≢◌, refl, ap, ◌∙◌, Bool, true, false, List, [], ◌∷◌, ◌++◌, Bytes, length,
  take, drop, arith, ltb, append_assoc, append-nil, length-append, take-append-drop,
}
use custom_vpn_implementatio.Common.Exec.{◌>>=◌, pure, Result, ok}
use custom_vpn_implementatio.World.{World, Action, Event, chunk, timed_out, reset, recv, requeue}
use custom_vpn_implementatio.Forwarder.{relay_loop, to_come}

pub to_come-requeue : (bs : Bytes) (es : List Event) → to_come (requeue bs es) ≡ bs ++ to_come es
unfolding to_come
to_come-requeue [] es = refl
to_come-requeue (b ∷ bs) es = refl

-- What a run of the loop has read, and what is left.
abbrev pub Reads : Bytes → List Event → World → (Result (Bytes × Bool) × World) → Type 0
Reads buf es w x =
    (data_in : Bytes) × (closed : Bool) × (later : List Event) × (x
      ≡ (ok (buf ++ data_in, closed), record w { incoming = later }))
    × (data_in ++ to_come later ≡ to_come es)

-- After a chunk: a short one is the last of the run.
after_chunk :
    (k rounds : ℕ) (buf data_in : Bytes) (later es : List Event) (w : World)
    → data_in ++ to_come later ≡ to_come es
    → Reads
        (buf ++ data_in)
        later
        w
        (relay_loop (suc k) rounds (buf ++ data_in) (record w { incoming = later }))
    → (short : Bool)
    → Reads buf es w (
        (elim short as (λ _. Action (Bytes × Bool)) [
          | true ↦ pure (buf ++ data_in, false)
          | false ↦ relay_loop (suc k) rounds (buf ++ data_in)
        ])
          (record w { incoming = later }))
after_chunk k rounds buf data_in later es w kept rest true = (data_in, false, later, refl, kept)
after_chunk k rounds buf data_in later es w kept (more, closed, last, e, h) false = (
  data_in ++ more,
  closed,
  last,
  e ∙ ap (λ bs. (ok (bs, closed), record w { incoming = last })) (append_assoc buf data_in more),
  append_assoc data_in more (to_come last) ∙ ap (λ bs. data_in ++ bs) h ∙ kept,
)

pub relay_loop_lem :
    (k rounds : ℕ) (buf : Bytes) (es : List Event) (w : World)
    → length (to_come es) < rounds
    → Reads buf es w (relay_loop (suc k) rounds buf (record w { incoming = es }))
unfolding relay_loop recv ◌>>=◌ to_come
relay_loop_lem k zero buf es w l = absurd (omega arith)
relay_loop_lem k (suc rounds) buf [] w l = ([], true, [], rw append-nil, refl)
relay_loop_lem k (suc rounds) buf (timed_out ∷ es) w l = ([], false, es, rw append-nil, refl)
relay_loop_lem k (suc rounds) buf (reset ∷ es) w l = ([], false, es, rw append-nil, refl)
relay_loop_lem k (suc rounds) buf (chunk b bs ∷ es) w l =
    let kept : (b ∷ take k bs) ++ to_come (requeue (drop k bs) es) ≡ (b ∷ bs) ++ to_come es = rw (
      to_come-requeue (drop k bs) es,
      ← append_assoc (b ∷ take k bs) (drop k bs) (to_come es),
      take-append-drop k bs,
    ) in
    let rest = relay_loop_lem k rounds (buf ++ b ∷ take k bs) (requeue (drop k bs) es) w (
      omega (
        arith,
        ap length kept,
        length-append (b ∷ take k bs) (to_come (requeue (drop k bs) es)),
        length-append (b ∷ bs) (to_come es),
      )) in
    after_chunk k rounds buf (b ∷ take k bs) (requeue (drop k bs) es) (chunk b bs ∷ es) w kept rest
      (ltb (length (b ∷ take k bs)) (suc k))

-- Nothing is to come but chunks: no read fails or is late.
abbrev pub OnlyChunks : List Event → Type 0
OnlyChunks [] = Unit
OnlyChunks (chunk b bs ∷ es) = OnlyChunks es
OnlyChunks (e ∷ es) = ⊥

OnlyChunks-requeue : (bs : Bytes) (es : List Event) → OnlyChunks (requeue bs es) → OnlyChunks es
OnlyChunks-requeue [] es h = h
OnlyChunks-requeue (b ∷ bs) es h = h

-- The target has closed: what was to come were chunks, and nothing is left of them.
abbrev pub HasClosed : (es later : List Event) → Type 0
HasClosed es later = OnlyChunks es × (later ≡ [])

-- How the reading has ended: the target has closed, or it had not closed before.
abbrev pub EndsAs : (closed : Bool) (es later : List Event) → Type 0
EndsAs true es later = HasClosed es later
EndsAs false es later = es ≢ []

-- What a run of the loop that says `closed` has met.
abbrev ClosedWell : List Event → Result (Bytes × Bool) × World → Type 0
ClosedWell es x = (data_in : Bytes) → x.0 ≡ ok (data_in, true) → HasClosed es x.1.incoming

after_chunk-closed :
    (k rounds : ℕ) (buf : Bytes) (es : List Event) (w : World)
    → ClosedWell es (relay_loop (suc k) rounds buf w)
    → (short : Bool)
    → ClosedWell es (
        (elim short as (λ _. Action (Bytes × Bool)) [
          | true ↦ pure (buf, false)
          | false ↦ relay_loop (suc k) rounds buf
        ])
          w)
after_chunk-closed k rounds buf es w rest true = λ data_in e. absurd (cc e)
after_chunk-closed k rounds buf es w rest false = rest

pub relay_loop-closed :
    (k rounds : ℕ) (buf : Bytes) (es : List Event) (w : World)
    → ClosedWell es (relay_loop (suc k) rounds buf (record w { incoming = es }))
unfolding relay_loop recv ◌>>=◌
relay_loop-closed k zero buf es w = λ data_in e. absurd (cc e)
relay_loop-closed k (suc rounds) buf [] w = λ data_in e. (tt, refl)
relay_loop-closed k (suc rounds) buf (timed_out ∷ es) w = λ data_in e. absurd (cc e)
relay_loop-closed k (suc rounds) buf (reset ∷ es) w = λ data_in e. absurd (cc e)
relay_loop-closed k (suc rounds) buf (chunk b bs ∷ es) w =
    after_chunk-closed k rounds (buf ++ b ∷ take k bs) (chunk b bs ∷ es)
      (record w { incoming = requeue (drop k bs) es })
      (λ data_in e.
        let (chunks, end) =
          relay_loop-closed k rounds (buf ++ b ∷ take k bs) (requeue (drop k bs) es) w data_in e in
        (OnlyChunks-requeue (drop k bs) es chunks, end))
      (ltb (length (b ∷ take k bs)) (suc k))

-- The end of the target's bytes is not taken for a pause.
pub relay_loop-end :
    (k rounds : ℕ) (buf : Bytes) (w : World)
    → relay_loop (suc k) (suc rounds) buf (record w { incoming = [] })
      ≡ (ok (buf, true), record w { incoming = [] })
unfolding relay_loop recv ◌>>=◌
relay_loop-end k rounds buf w = refl
