-- ===== src/World/Stream.antt =====
-- How a byte stream is cut into chunks does not matter to a reader that takes exact amounts.
use custom_vpn_implementatio.Common.{
  ℕ, zero, suc, ◌-◌, ◌≤◌, ◌≡◌, refl, List, [], ◌∷◌, ◌++◌, Bytes, length, take, drop, arith, leb,
  leb→le, leb_false→lt, Bool-cases, inl, inr, ap, sym, ◌∙◌, drop-nil, take-nil, length-take,
  if◌then◌else◌, length-append,
}
use custom_vpn_implementatio.Common.Exec.{Exn, connection_error, timeout}
use custom_vpn_implementatio.World.{Event, chunk, timed_out, reset, requeue, random_bytes}

-- The bytes that arrive before the first failure or the end.
abbrev pub stream : List Event → Bytes
stream [] = []
stream (chunk b bs ∷ es) = b ∷ bs ++ stream es
stream (timed_out ∷ es) = []
stream (reset ∷ es) = []

-- The exception of a read that meets the end of the stream.
abbrev pub ending : List Event → Exn
ending [] = connection_error
ending (chunk b bs ∷ es) = ending es
ending (timed_out ∷ es) = timeout
ending (reset ∷ es) = connection_error

pub ending-requeue : (bs : Bytes) (es : List Event) → ending (requeue bs es) ≡ ending es
ending-requeue [] es = refl
ending-requeue (b ∷ bs) es = refl

-- What is left after n bytes of the stream.
pub advance : ℕ → List Event → List Event
advance n [] = []
advance n (chunk b bs ∷ es) =
    let rest = advance (n - length (b ∷ bs)) es in
    if leb n (length (b ∷ bs)) then requeue (drop n (b ∷ bs)) es else rest
advance n (timed_out ∷ es) = timed_out ∷ es
advance n (reset ∷ es) = reset ∷ es

pub stream-requeue : (bs : Bytes) (es : List Event) → stream (requeue bs es) ≡ bs ++ stream es
stream-requeue [] es = refl
stream-requeue (b ∷ bs) es = refl

pub advance-zero : (es : List Event) → advance 0 es ≡ es
unfolding advance
advance-zero [] = refl
advance-zero (chunk b bs ∷ es) = ground arith
advance-zero (timed_out ∷ es) = refl
advance-zero (reset ∷ es) = refl

drop_within : (n : ℕ) (xs ys : Bytes) → n ≤ length xs → drop n (xs ++ ys) ≡ drop n xs ++ ys
drop_within zero xs ys h = refl
drop_within (suc n) [] ys h = absurd (omega arith)
drop_within (suc n) (x ∷ xs) ys h = drop_within n xs ys (omega arith)

drop_beyond : (n : ℕ) (xs ys : Bytes) → length xs ≤ n → drop n (xs ++ ys) ≡ drop (n - length xs) ys
drop_beyond n [] ys h = ap (λ k. drop k ys) (omega arith)
drop_beyond zero (x ∷ xs) ys h = absurd (omega arith)
drop_beyond (suc n) (x ∷ xs) ys h =
    drop_beyond n xs ys (omega arith) ∙ ap (λ k. drop k ys) (omega arith)

pub stream-advance :
    (n : ℕ) (es : List Event) → n ≤ length (stream es) → stream (advance n es) ≡ drop n (stream es)
unfolding advance
stream-advance n [] h = sym (drop-nil n)
stream-advance n (chunk b bs ∷ es) h = elim (Bool-cases (leb n (length (b ∷ bs)))) [
  | inl within ↦ rw within (
      stream-requeue (drop n (b ∷ bs)) es
      ∙ sym (drop_within n (b ∷ bs) (stream es) (leb→le n _ within)))
  | inr beyond ↦ rw beyond (
      stream-advance (n - length (b ∷ bs)) es
        (omega (arith, length-append (b ∷ bs) (stream es), leb_false→lt n _ beyond))
      ∙ sym (drop_beyond n (b ∷ bs) (stream es) (omega (arith, leb_false→lt n _ beyond))))
]
stream-advance n (timed_out ∷ es) h = sym (drop-nil n)
stream-advance n (reset ∷ es) h = sym (drop-nil n)

take_all : (k : ℕ) (xs : Bytes) → length xs ≤ k → take k xs ≡ xs
take_all k [] h = take-nil k
take_all zero (x ∷ xs) h = absurd (omega arith)
take_all (suc k) (x ∷ xs) h = ap (λ l. x ∷ l) (take_all k xs (omega arith))

drop_all : (k : ℕ) (xs : Bytes) → length xs ≤ k → drop k xs ≡ []
drop_all k [] h = drop-nil k
drop_all zero (x ∷ xs) h = absurd (omega arith)
drop_all (suc k) (x ∷ xs) h = drop_all k xs (omega arith)

-- Reading k bytes is reading what one chunk has of them, and then the rest.
pub take_in_parts :
    (k : ℕ) (xs ys : Bytes)
    → take k (xs ++ ys) ≡ take k xs ++ take (k - length (take k xs)) (drop k xs ++ ys)
take_in_parts zero xs ys = refl
take_in_parts (suc k) [] ys = ap (λ j. take j ys) {x = suc k} (omega arith)
take_in_parts (suc k) (x ∷ xs) ys =
    ap (λ l. x ∷ l)
      (take_in_parts k xs ys ∙ ap (λ j. take k xs ++ take j (drop k xs ++ ys)) (omega arith))

pub advance_in_parts :
    (k b : ℕ) (bs : Bytes) (es : List Event)
    → advance (k - length (take k bs)) (requeue (drop k bs) es) ≡ advance (suc k) (chunk b bs ∷ es)
unfolding advance
advance_in_parts k b bs es = elim (Bool-cases (leb (suc k) (length (b ∷ bs)))) [
  | inl within ↦
      let e : k - length (take k bs) ≡ 0 = omega (arith, length-take k bs, leb→le _ _ within) in
      rw (within, e) (advance-zero (requeue (drop k bs) es))
  | inr beyond ↦
      let h : length bs ≤ k = omega (arith, leb_false→lt _ _ beyond) in
      rw (beyond, take_all k bs h, drop_all k bs h) (ap (λ j. advance j es) (omega arith))
]

pub length-random_bytes : (n : ℕ) (f : ℕ → ℕ) (i : ℕ) → length (random_bytes n f i) ≡ n
length-random_bytes zero f i = refl
length-random_bytes (suc n) f i = omega (arith, length-random_bytes n f (suc i))
