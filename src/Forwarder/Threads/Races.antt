-- ===== src/Forwarder/Threads/Races.antt =====
-- What the end of one thread's RELAY does to another thread's CONNECT.
use custom_vpn_implementatio.Common.{
  ℕ, ◌≡◌, ◌≢◌, refl, ap, subst, true, none, [], Bytes, ◌++◌, Text, codes, arith, bytes_eq_refl,
}
use custom_vpn_implementatio.Common.Dict
use custom_vpn_implementatio.Common.Dict.{get-pop}
use custom_vpn_implementatio.Json.{Codec, end}
use custom_vpn_implementatio.Forwarder.{Platform, build_response, error_response, relay_response}
use custom_vpn_implementatio.Forwarder.Threads.{
  Socket, Shared, Task, storing, looking, closing, answered, lookup_task, go, System, turn,
  moves_on, Reach, later,
}

module _ (c : Codec) (os : Platform) where
  abbrev pub no_session : Text → Task
  no_session target =
      answered (error_response c os 502 (codes "502") (codes "No CONNECT session for " ++ target))

  get-popped : (target : Text) (s : Shared) → Dict.get (Dict.pop s.sessions target) target ≡ none
  get-popped target s = ground (arith, get-pop s.sessions target target, bytes_eq_refl target)

  -- One thread goes on, from a task that is known.
  moves :
      (sockets : ℕ → Socket) (s : System) (k : ℕ) (t : Task)
      → s.tasks k ≡ t
      → Reach c os sockets s
      → Reach c os sockets (turn k (go c os t s.shared) s)
  moves sockets s k t e r =
      subst (λ u. Reach c os sockets (turn k (go c os u s.shared) s)) e (later r (moves_on k))

  -- If one thread has read that its target closed the connection and another one is about to store a new
  -- connection to the same target, they can go on so that the new CONNECT is answered with 200, its
  -- socket is as it was, and the session is gone all the same: each RELAY for the target is then
  -- answered with 502.
  pub lost_session :
      (sockets : ℕ → Socket) (s : System) (k l i j : ℕ) (target : Text) (response_data : Bytes)
      → Reach c os sockets s
      → s.tasks k ≡ closing target i response_data
      → s.tasks l ≡ storing target j
      → k ≢ l
      → (s' : System) × Reach c os sockets s'
        × (s'.tasks k ≡ answered (relay_response c os response_data true))
        × (s'.tasks l ≡ answered (build_response c os 200 end []))
        × (Dict.get s'.shared.sessions target ≡ none)
        × (s'.shared.sockets j ≡ s.shared.sockets j)
        × ((data_out : Bytes) → (go c os (looking target data_out) s'.shared).0 ≡ no_session target)
  unfolding go
  lost_session sockets s k l i j target response_data r ek el differ =
      let s1 = turn l (go c os (storing target j) s.shared) s in
      let r1 = moves sockets s l (storing target j) el r in
      let still : s1.tasks k ≡ closing target i response_data = ground arith in
      let s2 = turn k (go c os (closing target i response_data) s1.shared) s1 in
      let gone = get-popped target s1.shared in
      (
        s2,
        moves sockets s1 k (closing target i response_data) still r1,
        ground arith,
        ground arith,
        gone,
        refl,
        λ data_out. ap (lookup_task c os target data_out) gone,
      )
