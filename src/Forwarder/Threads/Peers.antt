-- ===== src/Forwarder/Threads/Peers.antt =====
-- Whichever way the threads interleave, a session's socket is connected to the session's target.
use custom_vpn_implementatio.Common.{
  ℕ, suc, ◌<◌, ◌≡◌, refl, sym, ap, ◌∙◌, subst, true, Option, none, some, [], ◌∷◌, ◌++◌, Bytes, Text,
  ◌==◌, bytes_eq_iff, arith, length, ltb, Bool-cases, inl, inr,
}
use custom_vpn_implementatio.Common.Exec.{Result, ok, err}
use custom_vpn_implementatio.Common.Strings.{rsplit_colon}
use custom_vpn_implementatio.Common.Dict
use custom_vpn_implementatio.Common.Dict.{get-put, get-pop}
use custom_vpn_implementatio.World.{World, recv}
use custom_vpn_implementatio.Json.{Codec}
use custom_vpn_implementatio.Forwarder.{Platform, port_of}
use custom_vpn_implementatio.Forwarder.Threads.{
  Socket, Shared, Task, ready, connecting, storing, looking, sending, reading, closing, failing,
  discarding, answered, on_socket, send_on, change, put_world, host_port, dial_task, lookup_task,
  send_task, recv_task, go, System, turn, Step, calls_connect, calls_relay, moves_on, Reach, start,
  later,
}

-- The target that a host and a port come from.
unaddress : Text × Option Text → Text
unaddress (host, none) = host
unaddress (host, some port) = host ++ 58 ∷ port

module _ (c : Codec) (os : Platform) where
  unaddress-rsplit_colon :
      (target : Text) → unaddress (port_of c os target (rsplit_colon target)) ≡ target
  unfolding unaddress rsplit_colon
  unaddress-rsplit_colon [] = refl
  unaddress-rsplit_colon (x ∷ xs) = ground (arith, unaddress-rsplit_colon xs)

  address-injective : (t u : Text) → host_port c os t ≡ host_port c os u → t ≡ u
  address-injective t u e =
      sym (unaddress-rsplit_colon t) ∙ ap unaddress e ∙ unaddress-rsplit_colon u

  -- Socket i is there, and connected to the target.
  abbrev pub Serves : Text → ℕ → Shared → Type 0
  Serves target i s = (i < s.dialled) × ((s.sockets i).peer ≡ host_port c os target)

  -- What a thread holds.
  abbrev pub Holds : Task → Shared → Type 0
  Holds (storing target i) s = Serves target i s
  Holds (sending target i data_out) s = Serves target i s
  Holds (reading target i response_data) s = Serves target i s
  Holds (closing target i response_data) s = Serves target i s
  Holds (failing target i e) s = Serves target i s
  Holds (discarding target i e) s = Serves target i s
  Holds _ s = Unit

  abbrev pub Sessions : Shared → Type 0
  Sessions s = (target : Text) (i : ℕ) → Dict.get s.sessions target ≡ some i → Serves target i s

  -- From one state of what is shared to the next, no socket goes and none gets another peer.
  abbrev Grows : Shared → Shared → Type 0
  Grows s s' = (target : Text) (i : ℕ) → Serves target i s → Serves target i s'

  Holds-Grows : (t : Task) (s s' : Shared) → Grows s s' → Holds t s → Holds t s'
  Holds-Grows (storing target i) s s' g h = g target i h
  Holds-Grows (sending target i data_out) s s' g h = g target i h
  Holds-Grows (reading target i response_data) s s' g h = g target i h
  Holds-Grows (closing target i response_data) s s' g h = g target i h
  Holds-Grows (failing target i e) s s' g h = g target i h
  Holds-Grows (discarding target i e) s s' g h = g target i h
  Holds-Grows ready s s' g h = tt
  Holds-Grows (connecting target) s s' g h = tt
  Holds-Grows (looking target data_out) s s' g h = tt
  Holds-Grows (answered bytes) s s' g h = tt

  -- What one stretch of a thread does.
  abbrev Good : Shared → Task × Shared → Type 0
  Good s x = Sessions x.1 × Holds x.0 x.1 × Grows s x.1

  peer-change :
      (f : Socket → Socket) (i j : ℕ) (s : Shared)
      → ((k : Socket) → (f k).peer ≡ k.peer)
      → ((change f i s).sockets j).peer ≡ (s.sockets j).peer
  peer-change f i j s same = elim (Bool-cases (i == j)) [
    | inl e ↦ rw e (same (s.sockets j))
    | inr e ↦ rw e
  ]

  change-Grows :
      (f : Socket → Socket) (i : ℕ) (s : Shared)
      → ((k : Socket) → (f k).peer ≡ k.peer)
      → Grows s (change f i s)
  change-Grows f i s same target j (there, peer) = (there, peer-change f i j s same ∙ peer)

  connected-Good :
      (target : Text) (r : Result World) (s : Shared)
      → Sessions s
      → Good s (dial_task c os target r s)
  connected-Good target (err e) s h =
      let g : Grows s (record s { dialled = suc s.dialled }) = λ t i v. (omega arith, v.1) in
      (λ t i e. g t i (h t i e), tt, g)
  connected-Good target (ok w) s h =
      let s' = (dial_task c os target (ok w) s).1 in
      let g : Grows s s' = λ t i v. (omega arith, ground (arith, v)) in
      (λ t i e. g t i (h t i e), (omega arith, ground arith), g)

  found-Holds :
      (target : Text) (data_out : Bytes) (o : Option ℕ) (s : Shared)
      → Sessions s
      → Dict.get s.sessions target ≡ o
      → Holds (lookup_task c os target data_out o) s
  found-Holds target data_out none s h e = tt
  found-Holds target data_out (some i) s h e = h target i e

  sent-Holds :
      (target : Text) (i : ℕ) (r : Result (Unit {0})) (s : Shared)
      → Serves target i s
      → Holds (send_task c os target i r) s
  sent-Holds target i (ok u) s h = h
  sent-Holds target i (err e) s h = h

  read-Holds :
      (target : Text) (i : ℕ) (buf : Bytes) (r : Result Bytes) (s : Shared)
      → Serves target i s
      → Holds (recv_task c os target i buf r) s
  read-Holds target i buf (err e) s h = tt
  read-Holds target i buf (ok []) s h = h
  read-Holds target i buf (ok (b ∷ bs)) s h = elim (Bool-cases (ltb (length (b ∷ bs)) 65536)) [
    | inl e ↦ rw e tt
    | inr e ↦ rw e h
  ]

  pop-Sessions :
      (target : Text) (s : Shared)
      → Sessions s
      → Sessions (record s { sessions = Dict.pop s.sessions target })
  pop-Sessions target s h t i e =
      h t i (ground (arith, get-pop s.sessions target t, bytes_eq_iff target t))

  go-Good : (t : Task) (s : Shared) → Sessions s → Holds t s → Good s (go c os t s)
  unfolding go
  go-Good ready s h k = (h, tt, λ t i v. v)
  go-Good (answered bytes) s h k = (h, tt, λ t i v. v)
  go-Good (connecting target) s h k =
      let (host, port) = host_port c os target in
      connected-Good target (os.connect s.dialled host port) s h
  go-Good (storing target i) s h k = (
    λ t j e. ground (arith, get-put s.sessions target t i, bytes_eq_iff target t, h t j, k),
    tt,
    λ t i v. v,
  )
  go-Good (looking target data_out) s h k =
      (h, found-Holds target data_out (Dict.get s.sessions target) s h refl, λ t i v. v)
  go-Good (sending target i data_out) s h k =
      let (r, w) = send_on (s.sockets i).shut data_out (s.sockets i).world in
      let g = change-Grows (λ x. record x { world = w }) i s (λ x. refl) in
      (λ t j e. g t j (h t j e), sent-Holds target i r (put_world w i s) (g target i k), g)
  go-Good (reading target i buf) s h k =
      let (r, w) = on_socket (s.sockets i).shut (recv 65536) (s.sockets i).world in
      let g = change-Grows (λ x. record x { world = w }) i s (λ x. refl) in
      (λ t j e. g t j (h t j e), read-Holds target i buf r (put_world w i s) (g target i k), g)
  go-Good (closing target i buf) s h k = (pop-Sessions target s h, tt, λ t i v. v)
  go-Good (failing target i e) s h k = (pop-Sessions target s h, k, λ t i v. v)
  go-Good (discarding target i e) s h k =
      let g = change-Grows (λ x. record x { shut = true }) i s (λ x. refl) in
      (λ t j e. g t j (h t j e), tt, g)

  abbrev Inv : System → Type 0
  Inv s = Sessions s.shared × ((k : ℕ) → Holds (s.tasks k) s.shared)

  turn-Holds :
      (k j : ℕ) (x : Task × Shared) (s : System)
      → Holds x.0 x.1
      → Holds (s.tasks j) x.1
      → Holds ((turn k x s).tasks j) x.1
  turn-Holds k j x s new old = elim (Bool-cases (k == j)) [ inl e ↦ rw e new | inr e ↦ rw e old ]

  Step-Inv : {s s' : System} → Step c os s s' → Inv s → Inv s'
  Step-Inv {s} (calls_connect k target between) (h, all) =
      (h, λ j. turn-Holds k j (connecting target, s.shared) s tt (all j))
  Step-Inv {s} (calls_relay k target data_out between) (h, all) =
      (h, λ j. turn-Holds k j (looking target data_out, s.shared) s tt (all j))
  Step-Inv {s} (moves_on k) (h, all) =
      let x = go c os (s.tasks k) s.shared in
      let (h', own, g) = go-Good (s.tasks k) s.shared h (all k) in
      (h', λ j. turn-Holds k j x s own (Holds-Grows (s.tasks j) s.shared x.1 g (all j)))

  Reach-Inv : {sockets : ℕ → Socket} {s : System} → Reach c os sockets s → Inv s
  unfolding Dict.get
  Reach-Inv start = (λ t i e. absurd (cc e), λ k. tt)
  Reach-Inv (later r step) = Step-Inv step (Reach-Inv r)

  -- However the CONNECT and RELAY calls of any number of threads interleave: the socket of a
  -- session is one that was opened, and is connected to the host and the port of the session's
  -- target; a thread that is about to send a request's data for a target has a socket that is
  -- connected to that target; and two sessions never share a socket.
  pub sessions_keep_peers :
      (sockets : ℕ → Socket) (s : System)
      → Reach c os sockets s
      → ((target : Text) (i : ℕ)
          → Dict.get s.shared.sessions target ≡ some i
          → Serves target i s.shared)
        × ((k i : ℕ) (target : Text) (data_out : Bytes)
            → s.tasks k ≡ sending target i data_out
            → (s.shared.sockets i).peer ≡ host_port c os target)
        × ((t u : Text) (i : ℕ)
            → Dict.get s.shared.sessions t ≡ some i
            → Dict.get s.shared.sessions u ≡ some i
            → t ≡ u)
  sessions_keep_peers sockets s r =
      let (h, all) = Reach-Inv r in
      (
        h,
        λ k i target data_out e. (subst (λ t. Holds t s.shared) e (all k)).1,
        λ t u i p q. address-injective t u (sym (h t i p).1 ∙ (h u i q).1),
      )
