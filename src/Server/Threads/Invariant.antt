-- ===== src/Server/Threads/Invariant.antt =====
-- What every interleaving of the threads keeps.
use custom_vpn_implementatio.Common.{
  ℕ, some, ◌≢◌, ◌≤◌, ◌≡◌, refl, ap, sym, ◌∙◌, subst, true, List, [], ◌∷◌, ◌++◌, Text, length, arith,
  if◌then◌else◌,
}
use custom_vpn_implementatio.Common.Dict
use custom_vpn_implementatio.Common.Dict.{Dict}
use custom_vpn_implementatio.Rate.{
  RateLimiter, new_limiter, connections_for, try_add_connection, remove_connection, touch,
  check_rate,
}
use custom_vpn_implementatio.Rate.Caps.{
  Represents, count, close_one, try_add_connection-Represents, remove_connection-Represents,
}
use custom_vpn_implementatio.Rate.Runs.{new_limiter-Represents}
use custom_vpn_implementatio.Server.Threads.Caps.{
  Inv, try_add_connection-caps, try_add_connection-refused, remove_connection-caps, grown-Inv,
  shrunk-Inv, insert-Inv, remove-Inv,
}
use custom_vpn_implementatio.Server.Threads.{
  Phase, arrived, serving, ended, Thread, System, Moves, Step, accepts, denied_by_whitelist,
  denied_by_cap, is_admitted, touches, checks, leaves, Steps, none_more, one_more, served, started,
}

served-append : (ts us : List Thread) → served (ts ++ us) ≡ served ts ++ served us
served-append [] us = refl
served-append ((ip, arrived) ∷ ts) us = served-append ts us
served-append ((ip, serving) ∷ ts) us = ap (λ l. ip ∷ l) (served-append ts us)
served-append ((ip, ended) ∷ ts) us = served-append ts us

module _ (mt mi : ℕ) (s s' : System) (h : Inv mt mi s.limiter (served s.threads)) where
  -- A step that changes neither the counts nor who is served.
  same_counts :
      s'.limiter.connections ≡ s.limiter.connections
      → s'.limiter.total ≡ s.limiter.total
      → s'.limiter.max_total ≡ s.limiter.max_total
      → s'.limiter.max_per_ip ≡ s.limiter.max_per_ip
      → served s'.threads ≡ served s.threads
      → Inv mt mi s'.limiter (served s'.threads)
  unfolding connections_for
  same_counts e1 e2 e3 e4 f =
      let counts = λ (ip : Text). ap (λ (d : Dict ℕ). Dict.get_or d ip 0) e1 in
      record {
        represents = record {
          counted = λ ip. counts ip ∙ h.represents.counted ip ∙ ap (count ip) (sym f);
          totalled = e2 ∙ h.represents.totalled ∙ ap length (sym f);
          tidy = λ ip. subst (λ d. Dict.get d ip ≢ some 0) (sym e1) (h.represents.tidy ip);
        };
        same_total = e3 ∙ h.same_total;
        same_per_ip = e4 ∙ h.same_per_ip;
        in_all = omega (arith, e2, h.in_all);
        by_ip = λ ip. omega (arith, counts ip, h.by_ip ip);
      }

  same_as :
      (l : RateLimiter)
      → s'.limiter ≡ l
      → l.connections ≡ s.limiter.connections
      → l.total ≡ s.limiter.total
      → l.max_total ≡ s.limiter.max_total
      → l.max_per_ip ≡ s.limiter.max_per_ip
      → served s'.threads ≡ served s.threads
      → Inv mt mi s'.limiter (served s'.threads)
  same_as l e e1 e2 e3 e4 f =
      same_counts (ap (λ r. r.connections) e ∙ e1) (ap (λ r. r.total) e ∙ e2)
        (ap (λ r. r.max_total) e ∙ e3) (ap (λ r. r.max_per_ip) e ∙ e4) f

  -- Who is served before and after a move.
  moved :
      (ip : Text) (from to : Phase)
      → Moves ip from to s s'
      → (xs : List Text) × (ys : List Text) × (served s.threads
          ≡ xs ++ (served ((ip, from) ∷ []) ++ ys))
        × (served s'.threads ≡ xs ++ (served ((ip, to) ∷ []) ++ ys))
  moved ip from to (before, after, e, f) =
      let split = λ (phase : Phase).
        served-append before ((ip, phase) ∷ after)
        ∙ ap (λ l. served before ++ l) (served-append ((ip, phase) ∷ []) after) in
      (served before, served after, ap served e ∙ split from, ap served f ∙ split to)

  stays_served : (ip : Text) → Moves ip serving serving s s' → served s'.threads ≡ served s.threads
  stays_served ip m = let (xs, ys, e, f) = moved ip serving serving m in f ∙ sym e

  stays_out : (ip : Text) → Moves ip arrived ended s s' → served s'.threads ≡ served s.threads
  stays_out ip m = let (xs, ys, e, f) = moved ip arrived ended m in f ∙ sym e

  -- One more is served, and the limiter has found room for it.
  joins :
      (ip : Text) (now : ℕ)
      → Moves ip arrived serving s s'
      → (try_add_connection now ip s.limiter).0 ≡ true
      → s'.limiter ≡ (try_add_connection now ip s.limiter).1
      → Inv mt mi s'.limiter (served s'.threads)
  joins ip now m allowed e =
      let live = served s.threads in
      let (xs, ys, was, is_now) = moved ip arrived serving m in
      let (rule, added) = try_add_connection-Represents now ip s.limiter live h.represents in
      let admitted = sym rule ∙ allowed in
      let l' = (try_add_connection now ip s.limiter).1 in
      let grown : Represents l' (ip ∷ live) =
        subst (λ b. Represents l' (if b then ip ∷ live else live)) admitted added in
      let inv =
        grown-Inv mt mi s.limiter l' ip live h admitted grown
          (try_add_connection-caps now ip s.limiter) in
      let placed = insert-Inv mt mi l' ip xs ys (subst (λ l. Inv mt mi l' (ip ∷ l)) was inv) in
      subst (λ l. Inv mt mi l (served s'.threads)) (sym e)
        (subst (Inv mt mi l') (sym is_now) placed)

  -- One less is served.
  goes :
      (ip : Text)
      → Moves ip serving ended s s'
      → s'.limiter ≡ remove_connection ip s.limiter
      → Inv mt mi s'.limiter (served s'.threads)
  goes ip m e =
      let live = served s.threads in
      let (xs, ys, was, is_now) = moved ip serving ended m in
      let l' = remove_connection ip s.limiter in
      let less = remove_connection-Represents ip s.limiter live h.represents in
      let inv =
        shrunk-Inv mt mi s.limiter l' ip live h less (remove_connection-caps ip s.limiter) in
      let placed =
        remove-Inv mt mi l' ip xs ys (subst (λ l. Inv mt mi l' (close_one ip l)) was inv) in
      subst (λ l. Inv mt mi l (served s'.threads)) (sym e)
        (subst (Inv mt mi l') (sym is_now) placed)

  -- Every step keeps the invariant.
  Step-Inv : (second : ℕ) → Step second s s' → Inv mt mi s'.limiter (served s'.threads)
  unfolding touch check_rate
  Step-Inv second (accepts ip e f) = same_as s.limiter e refl refl refl refl (ap served f)
  Step-Inv second (denied_by_whitelist ip m e) =
      same_as s.limiter e refl refl refl refl (stays_out ip m)
  Step-Inv second (denied_by_cap ip now m refused e) =
      same_as s.limiter (e ∙ try_add_connection-refused now ip s.limiter refused) refl refl refl
        refl (stays_out ip m)
  Step-Inv second (is_admitted ip now m allowed e) = joins ip now m allowed e
  Step-Inv second (touches ip now m e) =
      same_as (touch now ip s.limiter) e refl refl refl refl (stays_served ip m)
  Step-Inv second (checks ip created now m e) =
      same_as (check_rate second created now ip s.limiter).1 e refl refl refl refl
        (stays_served ip m)
  Step-Inv second (leaves ip m e) = goes ip m e

Steps-Inv :
    (mt mi second : ℕ) {s s' : System}
    → Inv mt mi s.limiter (served s.threads)
    → Steps second s s'
    → Inv mt mi s'.limiter (served s'.threads)
Steps-Inv mt mi second h none_more = h
Steps-Inv mt mi second {s} h (one_more {t = t} step more) =
    Steps-Inv mt mi second (Step-Inv mt mi s t h second step) more

-- However the server accepts connections and the threads of its clients interleave, the limiter
-- counts exactly the threads that are between their admission and their removal, in all and of each
-- address, and these are within the two caps.
pub served_within :
    (second rps burst mi mt idle : ℕ) (s : System)
    → Steps second (started (new_limiter rps burst mi mt idle)) s
    → (s.limiter.total ≡ length (served s.threads))
      × (length (served s.threads) ≤ mt)
      × ((ip : Text)
          → (connections_for ip s.limiter ≡ count ip (served s.threads))
            × (count ip (served s.threads) ≤ mi))
unfolding connections_for count Dict.get
served_within second rps burst mi mt idle s steps =
    let h =
      Steps-Inv mt mi second
        (record {
          represents = new_limiter-Represents rps burst mi mt idle;
          same_total = refl;
          same_per_ip = refl;
          in_all = omega arith;
          by_ip = λ ip. omega arith;
        })
        steps in
    (
      h.represents.totalled,
      omega (arith, h.represents.totalled, h.in_all),
      λ ip. (h.represents.counted ip, omega (arith, h.represents.counted ip, h.by_ip ip)),
    )
