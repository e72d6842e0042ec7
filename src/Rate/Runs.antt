-- ===== src/Rate/Runs.antt =====
-- Any sequence of calls, in whatever order the threads make them.
use custom_vpn_implementatio.Common.{
  ℕ, ◌≤◌, ◌≡◌, refl, List, [], ◌∷◌, Text, length, arith, if◌then◌else◌, bytes_eq_iff,
}
use custom_vpn_implementatio.Common.Dict
use custom_vpn_implementatio.Rate.{
  RateLimiter, new_limiter, connections_for, try_add_connection, remove_connection, touch,
  check_rate, Call, adds, removes, touches, checks, step, run,
}
use custom_vpn_implementatio.Rate.Caps.{
  Represents, count, close_one, admits, try_add_connection-Represents, remove_connection-Represents,
  count-close_one, length-close_one,
}

module _ (max_total max_per_ip : ℕ) where
  -- What a call does to the list of live connections.
  abbrev pub live_step : List Text → Call → List Text
  live_step live (adds now ip) = if admits max_total max_per_ip live ip then ip ∷ live else live
  live_step live (removes ip) = close_one ip live
  live_step live (touches now ip) = live
  live_step live (checks created now ip) = live

  unfoldable pub live_run : List Text → List Call → List Text
  live_run live [] = live
  live_run live (c ∷ cs) = live_run (live_step live c) cs

  pub record IsWithin (live : List Text) : Type 0 where
    pub in_all : length live ≤ max_total
    pub by_ip : (ip : Text) → count ip live ≤ max_per_ip

  live_step-IsWithin : (live : List Text) (c : Call) → IsWithin live → IsWithin (live_step live c)
  unfolding count
  live_step-IsWithin live (adds now ip) h = record {
    in_all = ground (arith, h.in_all);
    by_ip = λ j. ground (arith, h.by_ip ip, h.by_ip j, bytes_eq_iff ip j);
  }
  live_step-IsWithin live (removes ip) h = record {
    in_all = ground (arith, h.in_all, length-close_one ip live);
    by_ip = λ j. ground (arith, h.by_ip j, count-close_one ip j live);
  }
  live_step-IsWithin live (touches now ip) h = h
  live_step-IsWithin live (checks created now ip) h = h

  live_run-IsWithin :
      (live : List Text) (cs : List Call) → IsWithin live → IsWithin (live_run live cs)
  unfolding live_run
  live_run-IsWithin live [] h = h
  live_run-IsWithin live (c ∷ cs) h =
      live_run-IsWithin (live_step live c) cs (live_step-IsWithin live c h)

-- The limiter with its two caps, and the list that it stands for.
record Tracks (max_total max_per_ip : ℕ) (l : RateLimiter) (live : List Text) : Type 0 where
  represents : Represents l live
  same_total : l.max_total ≡ max_total
  same_per_ip : l.max_per_ip ≡ max_per_ip

step-Tracks :
    (second mt mi : ℕ) (l : RateLimiter) (live : List Text) (c : Call)
    → Tracks mt mi l live
    → Tracks mt mi (step second l c) (live_step mt mi live c)
unfolding step try_add_connection remove_connection connections_for touch check_rate
step-Tracks second mt mi l live (adds now ip) h = record {
  represents =
      rw (← h.same_total, ← h.same_per_ip)
        (try_add_connection-Represents now ip l live h.represents).1;
  same_total = ground (arith, h.same_total);
  same_per_ip = ground (arith, h.same_per_ip);
}
step-Tracks second mt mi l live (removes ip) h = record {
  represents = remove_connection-Represents ip l live h.represents;
  same_total = ground (arith, h.same_total);
  same_per_ip = ground (arith, h.same_per_ip);
}
step-Tracks second mt mi l live (touches now ip) h = record {
  represents = record {
    counted = h.represents.counted;
    totalled = h.represents.totalled;
    tidy = h.represents.tidy;
  };
  same_total = h.same_total;
  same_per_ip = h.same_per_ip;
}
step-Tracks second mt mi l live (checks created now ip) h = record {
  represents = record {
    counted = h.represents.counted;
    totalled = h.represents.totalled;
    tidy = h.represents.tidy;
  };
  same_total = h.same_total;
  same_per_ip = h.same_per_ip;
}

run-Tracks :
    (second mt mi : ℕ) (l : RateLimiter) (live : List Text) (cs : List Call)
    → Tracks mt mi l live
    → Tracks mt mi (run second l cs) (live_run mt mi live cs)
unfolding run live_run
run-Tracks second mt mi l live [] h = h
run-Tracks second mt mi l live (c ∷ cs) h =
    run-Tracks second mt mi (step second l c) (live_step mt mi live c) cs
      (step-Tracks second mt mi l live c h)

pub new_limiter-Represents :
    (rps burst mi mt idle : ℕ) → Represents (new_limiter rps burst mi mt idle) []
unfolding connections_for count Dict.get
new_limiter-Represents rps burst mi mt idle = record {
  counted = λ ip. refl;
  totalled = refl;
  tidy = λ ip. ground arith;
}

-- After any calls on a new limiter, its counts are those of the list of live connections that the
-- two caps admit, and the total and the count of every address are within the caps.
pub run-new_limiter :
    (second rps burst mi mt idle : ℕ) (cs : List Call)
    → let l = run second (new_limiter rps burst mi mt idle) cs in
      Represents l (live_run mt mi [] cs)
      × (l.total ≤ mt)
      × ((ip : Text) → connections_for ip l ≤ mi)
run-new_limiter second rps burst mi mt idle cs =
    let tracks = run-Tracks second mt mi (new_limiter rps burst mi mt idle) [] cs (record {
      represents = new_limiter-Represents rps burst mi mt idle;
      same_total = refl;
      same_per_ip = refl;
    }) in
    let within =
      live_run-IsWithin mt mi [] cs
        (record { in_all = omega arith; by_ip = λ ip. unfold count in omega arith }) in
    (
      tracks.represents,
      omega (arith, tracks.represents.totalled, within.in_all),
      λ ip. omega (arith, tracks.represents.counted ip, within.by_ip ip),
    )
