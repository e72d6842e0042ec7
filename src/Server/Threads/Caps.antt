-- ===== src/Server/Threads/Caps.antt =====
-- The limiter of the server beside the addresses that are being served.
use custom_vpn_implementatio.Common.{
  ℕ, ◌+◌, ◌≤◌, ◌≡◌, ◌∙◌, true, false, List, [], ◌∷◌, ◌++◌, Text, length, arith, bytes_eq_iff,
  bytes_eq_refl, length-append,
}
use custom_vpn_implementatio.Rate.{
  RateLimiter, connections_for, try_add_connection, remove_connection,
}
use custom_vpn_implementatio.Rate.Caps.{
  Represents, count, close_one, admits, count-close_one, length-close_one,
}

count-append : (ip : Text) (xs ys : List Text) → count ip (xs ++ ys) ≡ count ip xs + count ip ys
unfolding count
count-append ip [] ys = omega arith
count-append ip (x ∷ xs) ys = ground (arith, count-append ip xs ys)

-- The limiter counts the addresses that are being served, and they are within the caps.
pub record Inv (mt mi : ℕ) (l : RateLimiter) (live : List Text) : Type 0 where
  pub represents : Represents l live
  pub same_total : l.max_total ≡ mt
  pub same_per_ip : l.max_per_ip ≡ mi
  pub in_all : l.total ≤ mt
  pub by_ip : (ip : Text) → connections_for ip l ≤ mi

-- The caps that the limiter was made with stay.
pub try_add_connection-caps :
    (now : ℕ) (ip : Text) (l : RateLimiter)
    → let l' = (try_add_connection now ip l).1 in
      (l'.max_total ≡ l.max_total) × (l'.max_per_ip ≡ l.max_per_ip)
unfolding try_add_connection
try_add_connection-caps now ip l = (ground arith, ground arith)

pub try_add_connection-refused :
    (now : ℕ) (ip : Text) (l : RateLimiter)
    → (try_add_connection now ip l).0 ≡ false
    → (try_add_connection now ip l).1 ≡ l
unfolding try_add_connection
try_add_connection-refused now ip l h = ground (arith, h)

pub remove_connection-caps :
    (ip : Text) (l : RateLimiter)
    → let l' = remove_connection ip l in
      (l'.max_total ≡ l.max_total) × (l'.max_per_ip ≡ l.max_per_ip)
unfolding remove_connection
remove_connection-caps ip l = (ground arith, ground arith)

-- One more is served, where the caps admit it.
pub grown-Inv :
    (mt mi : ℕ) (l l' : RateLimiter) (ip : Text) (live : List Text)
    → Inv mt mi l live
    → admits l.max_total l.max_per_ip live ip ≡ true
    → Represents l' (ip ∷ live)
    → (l'.max_total ≡ l.max_total) × (l'.max_per_ip ≡ l.max_per_ip)
    → Inv mt mi l' (ip ∷ live)
unfolding count
grown-Inv mt mi l l' ip live h admitted grown (e1, e2) = record {
  represents = grown;
  same_total = e1 ∙ h.same_total;
  same_per_ip = e2 ∙ h.same_per_ip;
  in_all = ground (arith, admitted, grown.totalled, h.same_total);
  by_ip = λ j. ground (
    arith,
    admitted,
    grown.counted j,
    h.by_ip j,
    h.represents.counted j,
    bytes_eq_iff ip j,
    h.same_per_ip,
  );
}

-- One less is served.
pub shrunk-Inv :
    (mt mi : ℕ) (l l' : RateLimiter) (ip : Text) (live : List Text)
    → Inv mt mi l live
    → Represents l' (close_one ip live)
    → (l'.max_total ≡ l.max_total) × (l'.max_per_ip ≡ l.max_per_ip)
    → Inv mt mi l' (close_one ip live)
shrunk-Inv mt mi l l' ip live h less (e1, e2) = record {
  represents = less;
  same_total = e1 ∙ h.same_total;
  same_per_ip = e2 ∙ h.same_per_ip;
  in_all = ground (arith, less.totalled, h.represents.totalled, h.in_all, length-close_one ip live);
  by_ip = λ j.
      ground (arith, less.counted j, h.represents.counted j, h.by_ip j, count-close_one ip j live);
}

-- The order of the list does not matter.
Inv-same :
    (mt mi : ℕ) (l : RateLimiter) (live others : List Text)
    → ((ip : Text) → count ip live ≡ count ip others)
    → length live ≡ length others
    → Inv mt mi l live
    → Inv mt mi l others
Inv-same mt mi l live others counts lengths h = record {
  represents = record {
    counted = λ ip. h.represents.counted ip ∙ counts ip;
    totalled = h.represents.totalled ∙ lengths;
    tidy = h.represents.tidy;
  };
  same_total = h.same_total;
  same_per_ip = h.same_per_ip;
  in_all = h.in_all;
  by_ip = h.by_ip;
}

module _ (mt mi : ℕ) (l : RateLimiter) (ip : Text) (xs ys : List Text) where
  pub insert-Inv : Inv mt mi l (ip ∷ (xs ++ ys)) → Inv mt mi l (xs ++ ip ∷ ys)
  unfolding count
  insert-Inv =
      Inv-same mt mi l (ip ∷ (xs ++ ys)) (xs ++ ip ∷ ys)
        (λ j. ground (arith, count-append j xs ys, count-append j xs (ip ∷ ys)))
        (omega (arith, length-append xs ys, length-append xs (ip ∷ ys)))

  pub remove-Inv : Inv mt mi l (close_one ip (xs ++ ip ∷ ys)) → Inv mt mi l (xs ++ ys)
  unfolding count
  remove-Inv =
      Inv-same mt mi l (close_one ip (xs ++ ip ∷ ys)) (xs ++ ys)
        (λ j. ground (
          arith,
          count-append j xs ys,
          count-append j xs (ip ∷ ys),
          count-close_one ip j (xs ++ ip ∷ ys),
          bytes_eq_iff ip j,
        ))
        (ground (
          arith,
          length-append xs ys,
          length-append xs (ip ∷ ys),
          length-close_one ip (xs ++ ip ∷ ys),
          count-append ip xs (ip ∷ ys),
          bytes_eq_refl ip,
        ))
