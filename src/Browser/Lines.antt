-- ===== src/Browser/Lines.antt =====
-- Texts as words and as lines: what `split` and `cut` find in a text that was put together.
use custom_vpn_implementatio.Common.{
  ℕ, ◌≡◌, refl, ap, sym, subst, ◌∙◌, false, some, List, [], ◌∷◌, ◌++◌, Text, append_assoc,
  append-nil, All, ◌==◌, arith,
}
use custom_vpn_implementatio.Common.Strings.{
  split, split_crlf, join_crlf, is_prefix, cut, onto_head,
}
use custom_vpn_implementatio.Browser.{crlf}

-- The character does not stand in the text.
abbrev pub Free : ℕ → Text → Type 0
Free c s = All (λ d. (d == c) ≡ false) s

pub split-word :
    (sep : ℕ) (w rest : Text) → Free sep w → split sep (w ++ sep ∷ rest) ≡ w ∷ split sep rest
unfolding split
split-word sep [] rest h = ground arith
split-word sep (c ∷ w) rest h = ground (arith, split-word sep w rest h.1)

pub split-last : (sep : ℕ) (w : Text) → Free sep w → split sep w ≡ w ∷ []
unfolding split
split-last sep [] h = refl
split-last sep (c ∷ w) h = ground (arith, split-last sep w h.1)

pub split_crlf-line :
    (l rest : Text) → Free 13 l → split_crlf (l ++ 13 ∷ 10 ∷ rest) ≡ l ∷ split_crlf rest
unfolding split_crlf
split_crlf-line [] rest h = refl
split_crlf-line (c ∷ []) rest h = ground arith
split_crlf-line (c ∷ d ∷ l) rest h = ground (arith, split_crlf-line (d ∷ l) rest h.1)

split_crlf-last : (l : Text) → Free 13 l → split_crlf l ≡ l ∷ []
unfolding split_crlf
split_crlf-last [] h = refl
split_crlf-last (c ∷ []) h = refl
split_crlf-last (c ∷ d ∷ l) h = ground (arith, split_crlf-last (d ∷ l) h.1)

-- Lines without a carriage return come back from their joined text.
pub split_crlf-join_crlf :
    (l : Text) (ls : List Text)
    → Free 13 l
    → All (Free 13) ls
    → split_crlf (join_crlf (l ∷ ls)) ≡ l ∷ ls
unfolding join_crlf
split_crlf-join_crlf l [] h hs = split_crlf-last l h
split_crlf-join_crlf l (m ∷ ls) h hs =
    split_crlf-line l (join_crlf (m ∷ ls)) h ∙ ap (λ r. l ∷ r) (split_crlf-join_crlf m ls hs.0 hs.1)

-- A line of a request: not empty, and without a carriage return.
abbrev pub IsLine : Text → Type 0
IsLine [] = ⊥
IsLine (c ∷ s) = Free 13 (c ∷ s)

cut-skip :
    (l rest before behind : Text)
    → Free 13 l
    → cut (crlf ++ crlf) rest ≡ some (before, behind)
    → cut (crlf ++ crlf) (l ++ rest) ≡ some (l ++ before, behind)
unfolding cut is_prefix
cut-skip [] rest before behind h e = e
cut-skip (c ∷ l) rest before behind h e = ground (arith, cut-skip l rest before behind h.1 e)

cut_on :
    (sep : Text) (c : ℕ) (s before behind : Text)
    → is_prefix sep (c ∷ s) ≡ false
    → cut sep s ≡ some (before, behind)
    → cut sep (c ∷ s) ≡ some (c ∷ before, behind)
unfolding cut
cut_on sep c s before behind h e = rw (h, cut) (ap (onto_head c) e)

-- A break between two lines, the second not empty, is not the blank line.
cut-line :
    (c : ℕ) (s before behind : Text)
    → (c == 13) ≡ false
    → cut (crlf ++ crlf) (c ∷ s) ≡ some (before, behind)
    → cut (crlf ++ crlf) (13 ∷ 10 ∷ c ∷ s) ≡ some (13 ∷ 10 ∷ before, behind)
unfolding is_prefix
cut-line c s before behind h e =
    cut_on (crlf ++ crlf) 13 (10 ∷ c ∷ s) (10 ∷ before) behind (ground arith)
      (cut_on (crlf ++ crlf) 10 (c ∷ s) before behind refl e)

join_crlf-cons :
    (c : ℕ) (s : Text) (ls : List Text) → join_crlf ((c ∷ s) ∷ ls) ≡ c ∷ join_crlf (s ∷ ls)
unfolding join_crlf
join_crlf-cons c s [] = refl
join_crlf-cons c s (m ∷ ls) = refl

pub IsLine-Free : (l : Text) → IsLine l → Free 13 l
IsLine-Free [] h = absurd h
IsLine-Free (c ∷ s) h = h

pub All-Free : (ls : List Text) → All IsLine ls → All (Free 13) ls
All-Free [] h = tt
All-Free (l ∷ ls) h = (IsLine-Free l h.0, All-Free ls h.1)

-- The head of a request ends at its first blank line.
pub cut_head :
    (l : Text) (ls : List Text) (body : Text)
    → IsLine l
    → All IsLine ls
    → cut (crlf ++ crlf) (join_crlf (l ∷ ls) ++ ((crlf ++ crlf) ++ body))
      ≡ some (join_crlf (l ∷ ls), body)
unfolding join_crlf cut is_prefix
cut_head l [] body h hs =
    cut-skip l ((crlf ++ crlf) ++ body) [] body (IsLine-Free l h) refl
    ∙ ap (λ a. some (a, body)) (append-nil l)
cut_head l ([] ∷ ls) body h hs = absurd hs.0
cut_head l ((c ∷ s) ∷ ls) body h hs =
    let blank = (crlf ++ crlf) ++ body in
    let rest = cut_head (c ∷ s) ls body hs.0 hs.1 in
    let joined = join_crlf-cons c s ls in
    let tail = cut-line c (join_crlf (s ∷ ls) ++ blank) (join_crlf ((c ∷ s) ∷ ls)) body hs.0.0 (
      subst (λ a. cut (crlf ++ crlf) (a ++ blank) ≡ some (join_crlf ((c ∷ s) ∷ ls), body)) joined
        rest) in
    ap (cut (crlf ++ crlf)) (append_assoc l (13 ∷ 10 ∷ join_crlf ((c ∷ s) ∷ ls)) blank)
    ∙ cut-skip l _ (13 ∷ 10 ∷ join_crlf ((c ∷ s) ∷ ls)) body (IsLine-Free l h) (
        subst
          (λ a.
            cut (crlf ++ crlf) (13 ∷ 10 ∷ (a ++ blank))
            ≡ some (13 ∷ 10 ∷ join_crlf ((c ∷ s) ∷ ls), body))
          (sym joined) tail)
