-- ===== src/Access.antt =====
-- server/access_control.py, with what it uses of the standard library's `ipaddress`. The text
-- syntax of IPv6 is a parameter: `V6` says what `ipaddress` reads from a text.
pub mod Policy
mod Tests
use custom_vpn_implementatio.Common.{
  ℕ, suc, zero, ◌+◌, ◌-◌, ◌*◌, ◌/◌, ◌^◌, Bool, true, false, Option, none, some, List, [], ◌∷◌, Text,
  length, leb, ltb, ◌==◌, ◌||◌, ◌&&◌, if◌then◌else◌,
}
use custom_vpn_implementatio.Common.Strings.{split, decimal, strip, starts_with, splitlines}

-- An address, and a network as its address and the length of its prefix.
pub data Address : Type 0 where
  v4 v6 : ℕ → Address

pub data Network : Type 0 where
  net4 net6 : ℕ → ℕ → Network

-- `IPv6Address(text)` and `IPv6Network(text, strict=False)`; `none` is `ValueError`.
pub record V6 : Type 0 where
  pub address : Text → Option ℕ
  pub network : Text → Option (ℕ × ℕ)

-- One part of a dotted address: one to three digits, no leading zero, at most 255.
abbrev in_byte : Option ℕ → Option ℕ
in_byte none = none
in_byte (some n) = if leb n 255 then some n else none

unfoldable pub octet : Text → Option ℕ
unfolding decimal
octet [] = none
octet (c ∷ []) = in_byte (decimal (c ∷ []))
octet (c ∷ d ∷ s) = if c == 48 || ltb 1 (length s) then none else in_byte (decimal (c ∷ d ∷ s))

abbrev pub join : ℕ → ℕ → ℕ → ℕ → ℕ
join a b c d = a * 16777216 + b * 65536 + c * 256 + d

abbrev join_octets : Option ℕ → Option ℕ → Option ℕ → Option ℕ → Option ℕ
join_octets (some a) (some b) (some c) (some d) = some (join a b c d)
join_octets _ _ _ _ = none

abbrev of_parts : List Text → Option ℕ
of_parts (a ∷ b ∷ c ∷ d ∷ []) = join_octets (octet a) (octet b) (octet c) (octet d)
of_parts _ = none

-- `IPv4Address(text)`
unfoldable pub ipv4 : Text → Option ℕ
unfolding octet split
ipv4 text = of_parts (split b'.' text)

-- A prefix length whose netmask, or else whose hostmask, is `mask`.
abbrev pub netmask : ℕ → ℕ
netmask p = 4294967296 - 2 ^ (32 - p)

abbrev pub hostmask : ℕ → ℕ
hostmask p = 2 ^ (32 - p) - 1

unfoldable pub search_mask : (ℕ → ℕ) → ℕ → ℕ → Option ℕ
search_mask f zero mask = if f zero == mask then some zero else none
search_mask f (suc p) mask =
    let rest = search_mask f p mask in if f (suc p) == mask then some (suc p) else rest

abbrev or_else : Option ℕ → Option ℕ → Option ℕ
or_else none o = o
or_else (some n) o = some n

abbrev of_mask : Option ℕ → Option ℕ
of_mask none = none
of_mask (some mask) = or_else (search_mask netmask 32 mask) (search_mask hostmask 32 mask)

-- The part behind the slash: a number up to 32, or a mask.
abbrev number_up_to_32 : Option ℕ → Option ℕ
number_up_to_32 none = none
number_up_to_32 (some n) = if leb n 32 then some n else none

unfoldable pub prefix : Text → Option ℕ
unfolding decimal ipv4 search_mask
prefix text = or_else (number_up_to_32 (decimal text)) (of_mask (ipv4 text))

-- `strict=False` clears the bits behind the prefix.
abbrev pub masked : ℕ → ℕ → ℕ
masked a p = a / 2 ^ (32 - p) * 2 ^ (32 - p)

abbrev net_of : Option ℕ → Option ℕ → Option Network
net_of (some a) (some p) = some (net4 (masked a p) p)
net_of _ _ = none

abbrev of_slashed : List Text → Option Network
of_slashed (a ∷ []) = net_of (ipv4 a) (some 32)
of_slashed (a ∷ p ∷ []) = net_of (ipv4 a) (prefix p)
of_slashed _ = none

-- `IPv4Network(text, strict=False)`
unfoldable pub ipv4_network : Text → Option Network
unfolding ipv4 prefix split
ipv4_network text = of_slashed (split b'/' text)

abbrev or_v6_network : Option Network → Option (ℕ × ℕ) → Option Network
or_v6_network (some n) o = some n
or_v6_network none none = none
or_v6_network none (some (a, p)) = some (net6 a p)

abbrev or_v6 : Option ℕ → Option ℕ → Option Address
or_v6 (some a) o = some (v4 a)
or_v6 none none = none
or_v6 none (some a) = some (v6 a)

-- `addr in net`: addresses of the other version are in no network.
unfoldable pub in_network : Address → Network → Bool
in_network (v4 a) (net4 n p) = a / 2 ^ (32 - p) == n / 2 ^ (32 - p)
in_network (v6 a) (net6 n p) = a / 2 ^ (128 - p) == n / 2 ^ (128 - p)
in_network _ _ = false

pub record AccessController : Type 0 where
  pub networks : List Network
  pub path : Option Text

abbrev pub append_entry : Option Network → List Network → List Network
append_entry none ns = ns
append_entry (some n) ns = n ∷ ns

abbrev pub is_entry : Text → Bool
is_entry [] = false
is_entry (c ∷ line) = if c == b'#' then false else true

module _ (v : V6) where
  -- `ipaddress.ip_address(text)` and `ipaddress.ip_network(text, strict=False)`
  unfoldable pub ip_address : Text → Option Address
  unfolding ipv4
  ip_address text = or_v6 (ipv4 text) (v.address text)

  unfoldable pub ip_network : Text → Option Network
  unfolding ipv4_network
  ip_network text = or_v6_network (ipv4_network text) (v.network text)

  -- The loop of `reload` over the lines of the file.
  unfoldable pub load_lines : List Text → List Network
  load_lines [] = []
  load_lines (raw ∷ rest) =
      let ns = load_lines rest in
      if is_entry (strip raw) then append_entry (ip_network (strip raw)) ns else ns

  -- `read` gives the text of a file, or `none` if there is no such file.
  abbrev pub load_file : Option Text → List Network
  load_file none = []
  load_file (some text) = load_lines (splitlines text)

  unfoldable pub reload : (read : Text → Option Text) → AccessController → AccessController
  unfolding load_lines
  reload read a = elim a.path [
    | none ↦ record a { networks = [] }
    | some file ↦ record a { networks = load_file (read file) }
  ]

  unfoldable pub any_network : Address → List Network → Bool
  any_network addr [] = false
  any_network addr (n ∷ ns) = in_network addr n || any_network addr ns

  abbrev addressed : Option Address → List Network → Bool
  addressed none ns = false
  addressed (some addr) ns = any_network addr ns

  unfoldable pub is_allowed : Text → AccessController → Bool
  unfolding any_network ip_address
  is_allowed ip a = elim a.networks [ [] ↦ true | n ∷ ns ↦ addressed (ip_address ip) (n ∷ ns) ]
