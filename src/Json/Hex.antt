-- ===== src/Json/Hex.antt =====
-- `bytes.hex()` and `bytes.fromhex(text)`.
use custom_vpn_implementatio.Common.{
  ℕ, ◌+◌, ◌-◌, ◌*◌, ◌/◌, ◌%◌, ◌<◌, ◌≡◌, refl, ap, Bool, Option, none, some, [], ◌∷◌, Bytes, Text,
  IsBytes, false, arith, leb, ltb, ◌==◌, ◌&&◌, ◌||◌, if◌then◌else◌,
}

abbrev digit : ℕ → ℕ
digit n = if ltb n 10 then 48 + n else 87 + n

unfoldable pub hex : Bytes → Text
hex [] = []
hex (b ∷ bs) = digit (b / 16) ∷ digit (b % 16) ∷ hex bs

-- The value of a digit, of either case.
abbrev nibble : ℕ → Option ℕ
nibble c =
    if leb 48 c && leb c 57
    then some (c - 48)
    else if leb 97 c && leb c 102
    then some (c - 87)
    else if leb 65 c && leb c 70
    then some (c - 55)
    else none

abbrev is_blank : ℕ → Bool
is_blank c = leb 9 c && leb c 13 || c == 32

abbrev put_byte : Option ℕ → Option ℕ → Option Bytes → Option Bytes
put_byte (some h) (some l) (some bs) = some ((h * 16 + l) ∷ bs)
put_byte _ _ _ = none

-- White space is skipped before each byte; `none` is `ValueError`.
unfoldable pub fromhex : Text → Option Bytes
fromhex [] = some []
fromhex (c ∷ []) = if is_blank c then some [] else none
fromhex (c ∷ d ∷ s) =
    let skipped = fromhex (d ∷ s) in
    let read = put_byte (nibble c) (nibble d) (fromhex s) in if is_blank c then skipped else read

digit-nibble : (n : ℕ) → n < 16 → nibble (digit n) ≡ some n
digit-nibble n h = ground arith

digit-is_blank : (n : ℕ) → n < 16 → is_blank (digit n) ≡ false
digit-is_blank n h = ground arith

-- Every byte string is read back from its hexadecimal text.
pub fromhex-hex : (bs : Bytes) → IsBytes bs → fromhex (hex bs) ≡ some bs
unfolding fromhex hex
fromhex-hex [] h = refl
fromhex-hex (b ∷ bs) h =
    rw
      (
        digit-is_blank (b / 16) (omega arith),
        digit-nibble (b / 16) (omega arith),
        digit-nibble (b % 16) (omega arith),
        fromhex-hex bs h.1,
      )
      (ap (λ x. some (x ∷ bs)) (omega arith))
