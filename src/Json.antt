-- ===== src/Json.antt =====
-- JSON values as `json.loads` gives them, the subscripts and methods that the program calls on
-- them, and the codec, `json.dumps(obj).encode("utf-8")` and `json.loads(data.decode("utf-8"))`.
pub mod Hex
pub mod Toy
use custom_vpn_implementatio.Common.{
  ℕ, ◌≡◌, Bool, true, false, Option, none, some, List, [], ◌∷◌, Bytes, Text, bytes_eq, bytes_eq_iff,
  arith, ◌==◌, if◌then◌else◌,
}
use custom_vpn_implementatio.Common.Exec.{
  Result, ok, err, Exn, value_error, bad_hex, key_error, type_error, attribute_error,
}
use Hex.{fromhex}

-- A number: an `int` of either sign, a finite `float` in ticks of the clock, of either sign, or
-- one of the values that Python's `json` reads from `NaN`, `Infinity` and `-Infinity`.
pub data Number : Type 0 where
  int minus_int : ℕ → Number
  float minus_float : ℕ → Number
  nan infinity minus_infinity : Number

mutual
  pub data Json : Type 0 where
    null : Json
    bool : Bool → Json
    num : Number → Json
    str : Text → Json
    arr : Items → Json
    obj : Members → Json

  pub data Items : Type 0 where
    nil : Items
    cons : Json → Items → Items

  pub data Members : Type 0 where
    end : Members
    member : Text → Json → Members → Members

-- The member of a name, if there is one.
unfoldable pub find : Text → Members → Option Json
find k end = none
find k (member j v m) = if bytes_eq j k then some v else find k m

-- No name is used twice, at any depth: what a Python dict gives for nothing.
abbrev mutual
  pub Distinct : Json → Type 0
  Distinct null = Unit
  Distinct (bool b) = Unit
  Distinct (num n) = Unit
  Distinct (str s) = Unit
  Distinct (arr xs) = DistinctItems xs
  Distinct (obj m) = DistinctMembers m

  pub DistinctItems : Items → Type 0
  DistinctItems nil = Unit
  DistinctItems (cons x xs) = Distinct x × DistinctItems xs

  pub DistinctMembers : Members → Type 0
  DistinctMembers end = Unit
  DistinctMembers (member k v m) = (find k m ≡ none) × Distinct v × DistinctMembers m

-- `loads` gives `none` where Python raises `ValueError` (bad JSON or bad UTF-8).
pub record Codec : Type 0 where
  pub dumps : Json → Bytes
  pub loads : Bytes → Option Json
  pub loads-dumps : (j : Json) → Distinct j → loads (dumps j) ≡ some j

abbrev or_key_error : Option Json → Result Json
or_key_error none = err key_error
or_key_error (some v) = ok v

-- `j[k]`, for a text k.
unfoldable pub subscript : Json → Text → Result Json
subscript (obj m) k = or_key_error (find k m)
subscript _ k = err type_error

abbrev or_bad_hex : Option Bytes → Result Bytes
or_bad_hex none = err (value_error bad_hex)
or_bad_hex (some bs) = ok bs

-- `bytes.fromhex(j)`
unfoldable pub bytes_fromhex : Json → Result Bytes
bytes_fromhex (str s) = or_bad_hex (fromhex s)
bytes_fromhex _ = err type_error

-- `if j:`
unfoldable pub truthy : Json → Bool
truthy null = false
truthy (bool b) = b
truthy (num (int n)) = if n == 0 then false else true
truthy (num (minus_int n)) = if n == 0 then false else true
truthy (num (float n)) = if n == 0 then false else true
truthy (num (minus_float n)) = if n == 0 then false else true
truthy (num _) = true
truthy (str []) = false
truthy (str (c ∷ s)) = true
truthy (arr nil) = false
truthy (arr (cons x xs)) = true
truthy (obj end) = false
truthy (obj (member k v m)) = true

abbrev or_default : Option Json → Json → Json
or_default none d = d
or_default (some v) d = v

-- `j.get(k, d)`: only a dict has the method.
unfoldable pub get_or : Json → Text → Json → Result Json
get_or (obj m) k d = ok (or_default (find k m) d)
get_or _ k d = err attribute_error

-- `d[k] = v`
unfoldable pub assign : Text → Json → Members → Members
assign k v end = member k v end
assign k v (member j u m) = if bytes_eq j k then member j v m else member j u (assign k v m)

pub find-assign :
    (k j : Text) (v : Json) (m : Members)
    → find k (assign j v m) ≡ (if bytes_eq j k then some v else find k m)
unfolding find assign
find-assign k j v end = ground arith
find-assign k j v (member i u m) =
    ground (arith, find-assign k j v m, bytes_eq_iff i j, bytes_eq_iff i k, bytes_eq_iff j k)
