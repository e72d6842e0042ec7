-- ===== src/Json/Toy.antt =====
-- A codec to instantiate theorems at: the value as code for a machine with a stack of values.
use custom_vpn_implementatio.Common.{
  ℕ, ◌≡◌, refl, ap, ◌∙◌, true, false, Option, none, some, List, [], ◌∷◌, ◌++◌, Bytes, Text,
  append_assoc, append-nil, ◌==◌, if◌then◌else◌,
}
use custom_vpn_implementatio.Json.{
  Json, null, bool, num, str, arr, obj, Items, nil, cons, Members, end, member, Number, int,
  minus_int, float, minus_float, nan, infinity, minus_infinity, Codec,
}

unfoldable pub number_code : Number → Bytes
number_code (int n) = 0 ∷ n ∷ []
number_code (minus_int n) = 1 ∷ n ∷ []
number_code (float n) = 2 ∷ n ∷ []
number_code (minus_float n) = 3 ∷ n ∷ []
number_code nan = 4 ∷ 0 ∷ []
number_code infinity = 5 ∷ 0 ∷ []
number_code minus_infinity = 6 ∷ 0 ∷ []

unfoldable pub text_code : Text → Bytes
text_code [] = 16 ∷ 0 ∷ []
text_code (c ∷ s) = text_code s ++ 17 ∷ c ∷ []

-- Two numbers to an instruction; a container grows from its end.
unfoldable mutual
  pub code : Json → Bytes
  code null = 7 ∷ 0 ∷ []
  code (bool true) = 8 ∷ 0 ∷ []
  code (bool false) = 9 ∷ 0 ∷ []
  code (num n) = number_code n
  code (str s) = text_code s
  code (arr xs) = items_code xs
  code (obj m) = members_code m

  pub items_code : Items → Bytes
  items_code nil = 18 ∷ 0 ∷ []
  items_code (cons x xs) = items_code xs ++ (code x ++ 19 ∷ 0 ∷ [])

  pub members_code : Members → Bytes
  members_code end = 20 ∷ 0 ∷ []
  members_code (member k v m) = members_code m ++ (text_code k ++ (code v ++ 21 ∷ 0 ∷ []))

abbrev pub push_char : ℕ → List Json → List Json
push_char c (str s ∷ st) = str (c ∷ s) ∷ st
push_char c _ = []

abbrev pub push_item : List Json → List Json
push_item (x ∷ arr xs ∷ st) = arr (cons x xs) ∷ st
push_item _ = []

abbrev pub push_member : List Json → List Json
push_member (v ∷ str k ∷ obj m ∷ st) = obj (member k v m) ∷ st
push_member _ = []

abbrev pub exec : ℕ → ℕ → List Json → List Json
exec op a st =
    if op == 0
    then num (int a) ∷ st
    else if op == 1
    then num (minus_int a) ∷ st
    else if op == 2
    then num (float a) ∷ st
    else if op == 3
    then num (minus_float a) ∷ st
    else if op == 4
    then num nan ∷ st
    else if op == 5
    then num infinity ∷ st
    else if op == 6
    then num minus_infinity ∷ st
    else if op == 7
    then null ∷ st
    else if op == 8
    then bool true ∷ st
    else if op == 9
    then bool false ∷ st
    else if op == 16
    then str [] ∷ st
    else if op == 17
    then push_char a st
    else if op == 18
    then arr nil ∷ st
    else if op == 19
    then push_item st
    else if op == 20
    then obj end ∷ st
    else push_member st

unfoldable pub run : Bytes → List Json → List Json
run [] st = st
run (op ∷ []) st = []
run (op ∷ a ∷ bs) st = run bs (exec op a st)

run-number_code :
    (n : Number) (rest : Bytes) (st : List Json)
    → run (number_code n ++ rest) st ≡ run rest (num n ∷ st)
unfolding run number_code
run-number_code (int n) rest st = refl
run-number_code (minus_int n) rest st = refl
run-number_code (float n) rest st = refl
run-number_code (minus_float n) rest st = refl
run-number_code nan rest st = refl
run-number_code infinity rest st = refl
run-number_code minus_infinity rest st = refl

run-text_code :
    (s : Text) (rest : Bytes) (st : List Json)
    → run (text_code s ++ rest) st ≡ run rest (str s ∷ st)
unfolding run text_code
run-text_code [] rest st = refl
run-text_code (c ∷ s) rest st = rw append_assoc (run-text_code s (17 ∷ c ∷ rest) st)

mutual
  unfolding run code items_code members_code

  run-code :
      (j : Json) (rest : Bytes) (st : List Json) → run (code j ++ rest) st ≡ run rest (j ∷ st)
  run-code null rest st = refl
  run-code (bool true) rest st = refl
  run-code (bool false) rest st = refl
  run-code (num n) rest st = run-number_code n rest st
  run-code (str s) rest st = run-text_code s rest st
  run-code (arr xs) rest st = run-items_code xs rest st
  run-code (obj m) rest st = run-members_code m rest st

  run-items_code :
      (xs : Items) (rest : Bytes) (st : List Json)
      → run (items_code xs ++ rest) st ≡ run rest (arr xs ∷ st)
  run-items_code nil rest st = refl
  run-items_code (cons x xs) rest st =
      rw (append_assoc, append_assoc)
        (run-items_code xs (code x ++ 19 ∷ 0 ∷ rest) st ∙ run-code x (19 ∷ 0 ∷ rest) (arr xs ∷ st))

  run-members_code :
      (m : Members) (rest : Bytes) (st : List Json)
      → run (members_code m ++ rest) st ≡ run rest (obj m ∷ st)
  run-members_code end rest st = refl
  run-members_code (member k v m) rest st = simp append_assoc (
      run-members_code m (text_code k ++ (code v ++ 21 ∷ 0 ∷ rest)) st
      ∙ run-text_code k (code v ++ 21 ∷ 0 ∷ rest) (obj m ∷ st)
      ∙ run-code v (21 ∷ 0 ∷ rest) (str k ∷ obj m ∷ st))

abbrev pub top : List Json → Option Json
top [] = none
top (j ∷ st) = some j

pub loads-dumps_toy : (j : Json) → top (run (code j) []) ≡ some j
unfolding run
loads-dumps_toy j = ap top (rw append-nil at (run-code j [] []))

unfoldable pub toy : Codec
unfolding run code
toy = record { dumps = code; loads = λ bs. top (run bs []); loads-dumps = λ j _. loads-dumps_toy j }
