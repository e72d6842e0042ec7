-- ===== src/Common/Strings.antt =====
-- Python's text methods that the program uses, on sequences of code points.
use Prim.Native.Nat.{ℕ, ◌+◌, ◌-◌, ◌*◌}
use mathlib.Core.Bool.{Bool, true, false, ◌&&◌, ◌||◌}
use mathlib.Core.Option.{Option, none, some}
use mathlib.Core.List.{List, [], ◌∷◌, ◌++◌, reverse}
use custom_vpn_implementatio.Common.Lists.{length, drop}
use custom_vpn_implementatio.Common.Tests.{Text, leb, ◌==◌, if◌then◌else◌}

-- `str.isspace` of one character.
unfoldable pub is_space : ℕ → Bool
is_space c =
    leb 9 c && leb c 13
    || (leb 28 c && leb c 32)
    || c == 133
    || c == 160
    || c == 5760
    || (leb 8192 c && leb c 8202)
    || c == 8232
    || c == 8233
    || c == 8239
    || c == 8287
    || c == 12288

unfoldable pub lstrip : Text → Text
lstrip [] = []
lstrip (c ∷ s) = if is_space c then lstrip s else c ∷ s

-- `s.strip()`
unfoldable pub strip : Text → Text
unfolding lstrip is_space
strip s = reverse (lstrip (reverse (lstrip s)))

-- `s.startswith(c)`, for one character.
abbrev pub starts_with : ℕ → Text → Bool
starts_with c [] = false
starts_with c (d ∷ s) = d == c

-- Where `str.splitlines` breaks; a carriage return takes a line feed behind it along.
unfoldable pub is_line_break : ℕ → Bool
is_line_break c =
    leb 10 c && leb c 13 || (leb 28 c && leb c 30) || c == 133 || c == 8232 || c == 8233

-- `line` is the current line, reversed; `cr` says that the last character was a carriage return
-- that ended a line.
unfoldable pub lines_from : Text → Bool → Text → List Text
lines_from [] cr [] = []
lines_from (c ∷ line) cr [] = reverse (c ∷ line) ∷ []
lines_from line cr (c ∷ s) =
    if cr && c == 10
    then lines_from line false s
    else (let ended = reverse line ∷ lines_from [] (c == 13) s in
        let more = lines_from (c ∷ line) false s in if is_line_break c then ended else more)

-- `s.splitlines()`
unfoldable pub splitlines : Text → List Text
unfolding lines_from is_line_break
splitlines s = lines_from [] false s

-- `s.split(sep)`, for a separator of one character: always one part or more.
abbrev pub onto_first : ℕ → List Text → List Text
onto_first c [] = (c ∷ []) ∷ []
onto_first c (p ∷ ps) = (c ∷ p) ∷ ps

unfoldable pub split : ℕ → Text → List Text
split sep [] = [] ∷ []
split sep (c ∷ s) = let rest = split sep s in if c == sep then [] ∷ rest else onto_first c rest

-- `s.split("\\r\\n")`
unfoldable pub split_crlf : Text → List Text
split_crlf [] = [] ∷ []
split_crlf (c ∷ []) = (c ∷ []) ∷ []
split_crlf (c ∷ d ∷ s) =
    let ended = [] ∷ split_crlf s in
    let longer = onto_first c (split_crlf (d ∷ s)) in if c == 13 && d == 10 then ended else longer

-- `"\\r\\n".join(lines)`
unfoldable pub join_crlf : List Text → Text
join_crlf [] = []
join_crlf (l ∷ []) = l
join_crlf (l ∷ m ∷ ls) = l ++ (13 ∷ 10 ∷ join_crlf (m ∷ ls))

unfoldable pub is_prefix : Text → Text → Bool
is_prefix [] ys = true
is_prefix (x ∷ xs) [] = false
is_prefix (x ∷ xs) (y ∷ ys) = x == y && is_prefix xs ys

abbrev pub onto_head : ℕ → Option (Text × Text) → Option (Text × Text)
onto_head c none = none
onto_head c (some (before, behind)) = some (c ∷ before, behind)

-- `s.split(sep, 1)`, if the separator, which is not empty, occurs.
unfoldable pub cut : Text → Text → Option (Text × Text)
cut sep [] = none
cut sep (c ∷ s) =
    let later = onto_head c (cut sep s) in
    if is_prefix sep (c ∷ s) then some ([], drop (length sep) (c ∷ s)) else later

-- `target.rsplit(":", 1)`, if there is a colon.
unfoldable pub rsplit_colon : Text → Option (Text × Text)
rsplit_colon [] = none
rsplit_colon (x ∷ xs) = elim (rsplit_colon xs) [
  | some (host, port) ↦ some (x ∷ host, port)
  | none ↦ if x == 58 then some ([], xs) else none
]

abbrev pub is_digit : ℕ → Bool
is_digit c = leb 48 c && leb c 57

-- `int(s)` of a text of ASCII digits.
unfoldable pub decimal_from : ℕ → Text → Option ℕ
decimal_from n [] = some n
decimal_from n (c ∷ s) =
    let rest = decimal_from (n * 10 + (c - 48)) s in if is_digit c then rest else none

unfoldable pub decimal : Text → Option ℕ
unfolding decimal_from
decimal [] = none
decimal (c ∷ s) = decimal_from 0 (c ∷ s)
