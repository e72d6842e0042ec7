-- ===== src/Forwarder/Threads/Opens.antt =====
-- `_handle_connect` in a thread that no other one interrupts, and the refinement of both calls.
use custom_vpn_implementatio.Common.{
  ℕ, suc, ◌<◌, ◌≡◌, refl, sym, ap, ◌∙◌, subst, Bool, true, false, Option, none, some, Bytes, Text,
  arith, if◌then◌else◌, bytes_eq, bytes_eq_iff,
}
use custom_vpn_implementatio.Common.Exec.{Result, ok, err}
use custom_vpn_implementatio.Common.Dict
use custom_vpn_implementatio.Common.Dict.{get-put}
use custom_vpn_implementatio.World.{World}
use custom_vpn_implementatio.Json.{Codec}
use custom_vpn_implementatio.Forwarder.{Platform, Forwarder, opened, handle_connect, handle_relay}
use custom_vpn_implementatio.Forwarder.Threads.{
  Shared, connecting, storing, looking, host_port, dial_task, go,
}
use custom_vpn_implementatio.Forwarder.Threads.Represents.{Represents, world_of}
use custom_vpn_implementatio.Forwarder.Threads.Alone.{Answers, Answers-first, relays}
use custom_vpn_implementatio.Forwarder.Threads.Reading.{done, first}

module _ (c : Codec) (os : Platform) (f : Forwarder) (s : Shared) (target : Text)
    (h : Represents f s) where
  abbrev dialled_more : Forwarder
  dialled_more = record f { dialled = suc f.dialled }

  Represents-failed : Represents dialled_more (record s { dialled = suc s.dialled })
  Represents-failed = record {
    dials = omega (arith, h.dials);
    worlds = h.worlds;
    live = λ t i e. let (there, open_) = h.live t i e in (omega arith, open_);
    apart = h.apart;
  }

  module _ (w : World) where
    abbrev socket_made : Shared
    socket_made = (dial_task c os target (ok w) s).1

    abbrev stored : Shared
    stored = record socket_made { sessions = Dict.put s.sessions target s.dialled }

    -- The new socket is no older one.
    old_socket :
        (o : Option ℕ) (t : Text)
        → Dict.get s.sessions t ≡ o
        → world_of s.sockets o ≡ world_of socket_made.sockets o
    old_socket none t e = refl
    old_socket (some i) t e = let (there, open_) = h.live t i e in ground arith

    stored_worlds :
        (t : Text) (b : Bool)
        → (if b then some w else Dict.get f.sessions t)
          ≡ world_of socket_made.sockets (if b then some s.dialled else Dict.get s.sessions t)
    stored_worlds t true = ground arith
    stored_worlds t false = h.worlds t ∙ old_socket (Dict.get s.sessions t) t refl

    abbrev Found : Text → ℕ → Type 0
    Found t i = Dict.get stored.sessions t ≡ some i

    stored_live :
        (t : Text) (i : ℕ) → Found t i → (i < suc s.dialled) × ((stored.sockets i).shut ≡ false)
    stored_live t i e = ground (arith, get-put s.sessions target t s.dialled, h.live t i)

    stored_apart : (t u : Text) (i : ℕ) → Found t i → Found u i → t ≡ u
    stored_apart t u i e k = ground (
      arith,
      get-put s.sessions target t s.dialled,
      get-put s.sessions target u s.dialled,
      h.live t i,
      h.live u i,
      h.apart t u i,
      bytes_eq_iff target t,
      bytes_eq_iff target u,
    )

    Represents-stored :
        Represents (record dialled_more { sessions = Dict.put f.sessions target w }) stored
    Represents-stored = record {
      dials = omega (arith, h.dials);
      worlds = λ t.
          get-put f.sessions target t w
          ∙ stored_worlds t (bytes_eq target t)
          ∙ ap (world_of socket_made.sockets) (sym (get-put s.sessions target t s.dialled));
      live = stored_live;
      apart = stored_apart;
    }

  opens :
      (r : Result World)
      → let (t, s') = dial_task c os target r s in
        Answers c os t s' (let (a, f') = opened c os target r dialled_more in (ok a, f'))
  unfolding go
  opens (err e) = (_, _, done c os _ _, refl, Represents-failed)
  opens (ok w) = (
    _,
    stored w,
    first c os (storing target s.dialled) _ (socket_made w) _ _ refl (done c os _ _),
    refl,
    Represents-stored w,
  )

  connects : Answers c os (connecting target) s (handle_connect c os target f)
  unfolding go handle_connect
  connects =
      let (host, port) = host_port c os target in
      let run = λ (n : ℕ).
        let (a, f') = opened c os target (os.connect n host port) dialled_more in
        let r : Result Bytes × Forwarder = (ok a, f') in r in
      let r = os.connect s.dialled host port in
      let (t, s') = dial_task c os target r s in
      Answers-first c os (connecting target) t s s' _ refl
        (subst (λ n. Answers c os t s' (run n)) (sym h.dials) (opens r))

  -- If the sessions and their sockets, which are open and distinct, stand for a state of the sequential model,
  -- a thread that begins a CONNECT or a RELAY call and is not interrupted comes to the end of the
  -- call; it has the answer of the sequential model's call, and leaves sessions and sockets that
  -- stand for the state that this leaves.
  pub calls-Answers :
      (data_out : Bytes)
      → Answers c os (connecting target) s (handle_connect c os target f)
        × Answers c os (looking target data_out) s (handle_relay c os target data_out f)
  calls-Answers data_out = (connects, relays c os f s target h data_out)
