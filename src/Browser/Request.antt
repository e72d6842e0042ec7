-- ===== src/Browser/Request.antt =====
-- The text of an HTTP request: printed, and taken apart by `handle_browser`.
use custom_vpn_implementatio.Common.{
  ℕ, ◌≡◌, refl, ap, ap₂, ◌∙◌, Option, some, List, [], ◌∷◌, ◌++◌, Text, codes, map, append_assoc,
  All, arith,
}
use custom_vpn_implementatio.Common.Strings.{
  is_space, lstrip, strip, split, split_crlf, join_crlf, is_prefix, cut,
}
use custom_vpn_implementatio.Json.{Members, end, str, assign}
use custom_vpn_implementatio.Browser.{
  crlf, add_header, add_headers, split_colon, parse_headers, first_line, but_first, method_target,
  request_line, header_body, head_and_body,
}
use custom_vpn_implementatio.Browser.Lines.{
  Free, IsLine, split-word, split-last, split_crlf-line, split_crlf-join_crlf, IsLine-Free,
  All-Free, cut_head,
}

-- A header, without a colon in its name, a carriage return, or space around its name or value.
pub record IsHeader (k v : Text) : Type 0 where
  pub no_colon : Free 58 k
  pub name_in_line : Free 13 k
  pub value_in_line : Free 13 v
  pub name_stripped : strip k ≡ k
  pub value_stripped : strip v ≡ v

abbrev pub header_line : Text × Text → Text
header_line (k, v) = k ++ (58 ∷ 32 ∷ v)

-- The dict that the headers make, in their order.
abbrev pub as_dict : List (Text × Text) → Members → Members
as_dict [] m = m
as_dict ((k, v) ∷ hs) m = as_dict hs (assign k (str v) m)

abbrev pub AreHeaders : List (Text × Text) → Type 0
AreHeaders hs = All (λ h. IsHeader h.0 h.1) hs

cut_colon : (k v : Text) → Free 58 k → cut (58 ∷ []) (k ++ 58 ∷ v) ≡ some (k, v)
unfolding cut is_prefix
cut_colon [] v h = refl
cut_colon (c ∷ k) v h = ground (arith, cut_colon k v h.1)

strip-space : (v : Text) → strip (32 ∷ v) ≡ strip v
unfolding strip lstrip is_space
strip-space v = refl

add_header-header_line :
    (k v : Text) (m : Members)
    → IsHeader k v
    → add_header (split_colon (header_line (k, v))) m ≡ assign k (str v) m
add_header-header_line k v m h =
    ap (λ o. add_header o m) (cut_colon k (32 ∷ v) h.no_colon)
    ∙ ap₂ (λ a b. assign a (str b) m) h.name_stripped (strip-space v ∙ h.value_stripped)

add_headers-map :
    (hs : List (Text × Text)) (m : Members)
    → AreHeaders hs
    → add_headers (map header_line hs) m ≡ as_dict hs m
unfolding add_headers
add_headers-map [] m h = refl
add_headers-map ((k, v) ∷ hs) m h =
    ap (add_headers (map header_line hs)) (add_header-header_line k v m h.0)
    ∙ add_headers-map hs (assign k (str v) m) h.1

-- A request: its line, its headers, a blank line and its body.
abbrev pub request_text : (method target : Text) → List (Text × Text) → Text → Text
request_text method target headers body =
    join_crlf ((method ++ 32 ∷ (target ++ 32 ∷ codes "HTTP/1.1")) ∷ map header_line headers)
    ++ ((crlf ++ crlf) ++ body)

Free-append : (c : ℕ) (s t : Text) → Free c s → Free c t → Free c (s ++ t)
Free-append c [] t h k = k
Free-append c (d ∷ s) t h k = (h.0, Free-append c s t h.1 k)

header_line-IsLine : (k v : Text) → IsHeader k v → IsLine (header_line (k, v))
header_line-IsLine [] v h = (refl, (refl, h.value_in_line))
header_line-IsLine (c ∷ k) v h =
    Free-append 13 (c ∷ k) (58 ∷ 32 ∷ v) h.name_in_line (refl, (refl, h.value_in_line))

map-IsLine : (hs : List (Text × Text)) → AreHeaders hs → All IsLine (map header_line hs)
map-IsLine [] h = tt
map-IsLine ((k, v) ∷ hs) h = (header_line-IsLine k v h.0, map-IsLine hs h.1)

first_break :
    (l body : Text) (ls : List Text)
    → (rest : Text) × (join_crlf (l ∷ ls) ++ ((crlf ++ crlf) ++ body) ≡ l ++ 13 ∷ 10 ∷ rest)
unfolding join_crlf
first_break l body [] = (_, refl)
first_break l body (m ∷ ls) = (_, append_assoc l _ _)

pub parse_headers-join_crlf :
    (hs : List (Text × Text))
    → AreHeaders hs
    → parse_headers (join_crlf (map header_line hs)) ≡ as_dict hs end
unfolding parse_headers split_crlf join_crlf add_headers cut
parse_headers-join_crlf [] h = refl
parse_headers-join_crlf ((k, v) ∷ hs) h =
    let lines = map-IsLine ((k, v) ∷ hs) h in
    ap (λ ls. add_headers ls end)
      (split_crlf-join_crlf (header_line (k, v)) (map header_line hs)
        (IsLine-Free (header_line (k, v)) lines.0) (All-Free (map header_line hs) lines.1))
    ∙ add_headers-map ((k, v) ∷ hs) end h

-- What can be printed as a request: one word for the method and one for the target.
pub record IsRequest (method target : Text) (headers : List (Text × Text)) : Type 0 where
  pub method_in_line : IsLine method
  pub method_word : Free 32 method
  pub target_in_line : Free 13 target
  pub target_word : Free 32 target
  pub are_headers : AreHeaders headers

module _ (method target body : Text) (headers : List (Text × Text))
    (h : IsRequest method target headers) where
  header_body_of : Text → Option (Text × Text) → Text × Text
  header_body_of text o =
      let (head, body) = head_and_body text o in (join_crlf (but_first (split_crlf head)), body)

  line : Text
  line = method ++ 32 ∷ (target ++ 32 ∷ codes "HTTP/1.1")

  line-Free : Free 13 line
  unfolding line
  line-Free = Free-append 13 method _ (IsLine-Free method h.method_in_line) (
    refl,
    Free-append 13 target _ h.target_in_line
        (refl, (refl, (refl, (refl, (refl, (refl, (refl, (refl, (refl, tt))))))))),
  )

  append-IsLine :
      (method : Text)
      → IsLine method
      → Free 13 (method ++ 32 ∷ (target ++ 32 ∷ codes "HTTP/1.1"))
      → IsLine (method ++ 32 ∷ (target ++ 32 ∷ codes "HTTP/1.1"))
  append-IsLine [] h f = absurd h
  append-IsLine (c ∷ s) h f = f

  -- The request line gives the method and the target.
  pub request_line-request_text :
      request_line (request_text method target headers body) ≡ some (method, target)
  unfolding request_line line
  request_line-request_text =
      let (rest, e) = first_break line body (map header_line headers) in
      let broken = ap split_crlf e ∙ split_crlf-line line rest line-Free in
      let version =
        split-last 32 (codes "HTTP/1.1")
          (refl, (refl, (refl, (refl, (refl, (refl, (refl, (refl, tt)))))))) in
      let words : split 32 line ≡ method ∷ target ∷ codes "HTTP/1.1" ∷ [] =
        split-word 32 method _ h.method_word
        ∙ ap (λ ws. method ∷ ws)
            (split-word 32 target (codes "HTTP/1.1") h.target_word
              ∙ ap (λ ws. target ∷ ws) version) in
      ap (λ ls. method_target (split 32 (first_line ls))) broken ∙ ap method_target words

  -- The rest gives the headers and the body.
  pub header_body-request_text :
      header_body (request_text method target headers body)
      ≡ (join_crlf (map header_line headers), body)
  unfolding header_body header_body_of line
  header_body-request_text =
      let lines = map-IsLine headers h.are_headers in
      let parted =
        cut_head line (map header_line headers) body
          (append-IsLine method h.method_in_line line-Free) lines in
      let head =
        split_crlf-join_crlf line (map header_line headers) line-Free
          (All-Free (map header_line headers) lines) in
      ap (λ o. header_body_of (request_text method target headers body) o) parted
      ∙ ap (λ ls. (join_crlf (but_first ls), body)) head
