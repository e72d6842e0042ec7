-- ===== src/Rate/Caps.antt =====
-- The connection caps of `RateLimiter` against their specification: a plain list of the addresses
-- of the live connections.
use custom_vpn_implementatio.Common.{
  ℕ, suc, ◌+◌, ◌-◌, ◌≤◌, ◌≡◌, ◌≢◌, Bool, none, some, List, [], ◌∷◌, Text, length, arith, ltb, ◌&&◌,
  if◌then◌else◌, bytes_eq, bytes_eq_iff, bytes_eq_refl,
}
use custom_vpn_implementatio.Common.Dict
use custom_vpn_implementatio.Common.Dict.{Dict, get-put, get-pop}
use custom_vpn_implementatio.Rate.{
  RateLimiter, connections_for, try_add_connection, remove_connection, drop_zero, is_some_zero,
}

unfoldable pub count : Text → List Text → ℕ
count ip [] = 0
count ip (j ∷ live) = if bytes_eq j ip then suc (count ip live) else count ip live

-- Without one connection of `ip`, if there is one.
unfoldable pub close_one : Text → List Text → List Text
close_one ip [] = []
close_one ip (j ∷ live) = if bytes_eq j ip then live else j ∷ close_one ip live

pub record Represents (l : RateLimiter) (live : List Text) : Type 0 where
  pub counted : (ip : Text) → connections_for ip l ≡ count ip live
  pub totalled : l.total ≡ length live
  pub tidy : (ip : Text) → Dict.get l.connections ip ≢ some 0

pub count-close_one :
    (ip j : Text) (live : List Text)
    → count j (close_one ip live) ≡ (if bytes_eq ip j then count j live - 1 else count j live)
unfolding count close_one
count-close_one ip j [] = ground arith
count-close_one ip j (k ∷ live) =
    ground
      (arith, bytes_eq_iff k ip, bytes_eq_iff k j, bytes_eq_iff ip j, count-close_one ip j live)

pub count-le-length : (ip : Text) (live : List Text) → count ip live ≤ length live
unfolding count
count-le-length ip [] = omega arith
count-le-length ip (k ∷ live) = ground (arith, count-le-length ip live)

pub length-close_one :
    (ip : Text) (live : List Text)
    → length (close_one ip live) ≡ (if ltb 0 (count ip live) then length live - 1 else length live)
unfolding count close_one
length-close_one ip [] = ground arith
length-close_one ip (k ∷ live) = ground (arith, length-close_one ip live, count-le-length ip live)

-- The rule of admission, on the list.
abbrev pub admits : (max_total max_per_ip : ℕ) → List Text → Text → Bool
admits max_total max_per_ip live ip = ltb (length live) max_total && ltb (count ip live) max_per_ip

-- `try_add_connection` admits exactly what the two caps leave room for, and adds exactly it.
pub try_add_connection-Represents :
    (now : ℕ) (ip : Text) (l : RateLimiter) (live : List Text)
    → Represents l live
    → ((try_add_connection now ip l).0 ≡ admits l.max_total l.max_per_ip live ip)
      × Represents
          (try_add_connection now ip l).1
          (if admits l.max_total l.max_per_ip live ip then ip ∷ live else live)
unfolding try_add_connection connections_for count
try_add_connection-Represents now ip l live r =
    let entry = λ (j : Text). get-put l.connections ip j (connections_for ip l + 1) in
    (
      ground (arith, r.counted ip, r.totalled),
      record {
        counted =
            λ j. ground (arith, r.counted ip, r.counted j, r.totalled, entry j, bytes_eq_iff ip j);
        totalled = ground (arith, r.counted ip, r.totalled);
        tidy = λ j. ground (arith, r.counted ip, r.tidy j, r.totalled, entry j);
      },
    )

get-drop_zero :
    (ip j : Text) (d : Dict ℕ)
    → Dict.get (drop_zero ip d) j
      ≡ (if bytes_eq ip j && is_some_zero (Dict.get d ip) then none else Dict.get d j)
get-drop_zero ip j d = ground (arith, get-pop d ip j)

-- `remove_connection` closes one connection of the address, and none of any other.
pub remove_connection-Represents :
    (ip : Text) (l : RateLimiter) (live : List Text)
    → Represents l live
    → Represents (remove_connection ip l) (close_one ip live)
unfolding remove_connection connections_for
remove_connection-Represents ip l live r =
    let d = Dict.put l.connections ip (connections_for ip l - 1) in
    let entry = λ (j : Text). get-put l.connections ip j (connections_for ip l - 1) in
    record {
      counted = λ j. ground (
        arith,
        r.counted ip,
        r.counted j,
        entry j,
        entry ip,
        get-drop_zero ip j d,
        get-drop_zero ip j l.connections,
        count-close_one ip j live,
        bytes_eq_iff ip j,
        bytes_eq_refl ip,
      );
      totalled = ground (arith, r.counted ip, r.totalled, length-close_one ip live);
      tidy = λ j. ground (
        arith,
        r.counted ip,
        r.tidy j,
        entry j,
        entry ip,
        get-drop_zero ip j d,
        get-drop_zero ip j l.connections,
        bytes_eq_iff ip j,
        bytes_eq_refl ip,
      );
    }
