-- ===== src/Browser/Reads.antt =====
-- One read of the browser's socket, of at most n bytes: what it takes, and what is left.
use custom_vpn_implementatio.Common.{
  ℕ, suc, ◌+◌, ◌≤◌, ◌<◌, ◌≡◌, ◌⊎◌, inl, inr, refl, ap, sym, ◌∙◌, List, [], ◌∷◌, ◌++◌, Bytes, length,
  take, drop, arith, length-take, length-drop, take-append-drop, append_assoc,
}
use custom_vpn_implementatio.Common.Exec.{Exn, ok, err, timeout, connection_error}
use custom_vpn_implementatio.World.{World, Event, chunk, timed_out, reset, requeue, recv}
use custom_vpn_implementatio.Forwarder.{to_come}
use custom_vpn_implementatio.Forwarder.RelayLoop.{to_come-requeue}

-- Every read, of whatever amount, lowers it.
abbrev pub weight : List Event → ℕ
weight [] = 0
weight (chunk b bs ∷ es) = length (b ∷ bs) + weight es
weight (timed_out ∷ es) = suc (weight es)
weight (reset ∷ es) = suc (weight es)

pub weight-requeue : (bs : Bytes) (es : List Event) → weight (requeue bs es) ≡ length bs + weight es
weight-requeue [] es = omega arith
weight-requeue (b ∷ bs) es = refl

-- The outcome of a read: the end, some bytes, or a failure.
pub data Read (n : ℕ) (w : World) : Type 0 where
  at_end : recv n w ≡ (ok [], w) → Read n w
  some_bytes :
      (b : ℕ) (bs : Bytes) (es : List Event)
      → recv n w ≡ (ok (b ∷ bs), record w { incoming = es })
      → (b ∷ bs) ++ to_come es ≡ to_come w.incoming
      → weight es < weight w.incoming
      → length (b ∷ bs) ≤ n
      → Read n w
  failed :
      (e : Exn) (es : List Event)
      → recv n w ≡ (err e, record w { incoming = es })
      → (e ≡ timeout) ⊎ (e ≡ connection_error)
      → to_come es ≡ to_come w.incoming
      → weight es < weight w.incoming
      → Read n w

read_from : (k : ℕ) (es : List Event) (w : World) → Read (suc k) (record w { incoming = es })
unfolding recv to_come
read_from k [] w = at_end refl
read_from k (chunk b bs ∷ es) w =
    some_bytes b (take k bs) (requeue (drop k bs) es) refl
      (ap (λ l. b ∷ (take k bs ++ l)) (to_come-requeue (drop k bs) es)
        ∙ ap (λ l. b ∷ l) (sym (append_assoc (take k bs) (drop k bs) (to_come es)))
        ∙ ap (λ l. b ∷ (l ++ to_come es)) (take-append-drop k bs))
      (omega (arith, weight-requeue (drop k bs) es, length-drop k bs))
      (omega (arith, length-take k bs))
read_from k (timed_out ∷ es) w = failed timeout es refl (inl refl) refl (omega arith)
read_from k (reset ∷ es) w = failed connection_error es refl (inr refl) refl (omega arith)

pub read : (k : ℕ) (w : World) → Read (suc k) w
read k w = read_from k w.incoming w
