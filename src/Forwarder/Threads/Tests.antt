-- ===== src/Forwarder/Threads/Tests.antt =====
-- Two threads with one target, whose peer closes every connection at once.
use custom_vpn_implementatio.Common.{
  ℕ, ◌≡◌, refl, true, false, none, some, [], Bytes, Text, codes, arith, bytes_eq,
}
use custom_vpn_implementatio.Common.Exec.{ok}
use custom_vpn_implementatio.Common.Dict
use custom_vpn_implementatio.World.{recv, sendall}
use custom_vpn_implementatio.World.Sample.{calm}
use custom_vpn_implementatio.Json.{end}
use custom_vpn_implementatio.Json.Toy.{toy}
use custom_vpn_implementatio.Forwarder.{
  Platform, Forwarder, unexpected, build_response, relay_response, handle_connect, handle_relay,
}
use custom_vpn_implementatio.Forwarder.Threads.{
  Socket, Shared, connecting, storing, looking, sending, closing, answered, host_port, go, System,
  calls_connect, calls_relay, moves_on, Reach, start, later,
}
use custom_vpn_implementatio.Forwarder.Threads.Peers.{Serves, sessions_keep_peers}
use custom_vpn_implementatio.Forwarder.Threads.Represents.{Represents}
use custom_vpn_implementatio.Forwarder.Threads.Alone.{Answers}
use custom_vpn_implementatio.Forwarder.Threads.Opens.{calls-Answers}
use custom_vpn_implementatio.Forwarder.Threads.Races.{no_session, lost_session}

abbrev closing_peer : Platform
closing_peer = record {
  request = λ method url headers body. unexpected [];
  connect = λ i host port. ok (calm []);
  describe = λ e. [];
  text_of = λ j. [];
  upper = λ t. t;
  utf8 = λ t. t;
}

abbrev target : Text
target = codes "a:1"

abbrev no_socket : ℕ → Socket
no_socket i = record { peer = ([], none); world = calm []; shut = false }

abbrev Reaches : System → Type 0
Reaches = Reach toy closing_peer no_socket

record Run : Type 0 where
  last : System
  reach : Reaches last

abbrev goes : ℕ → Run → Run
goes k r = record { last = _; reach = later r.reach (moves_on k) }

-- A session of thread 0, which has sent its data.
abbrev session : Run
session = goes 0 (goes 0 (record { last = _; reach = later start (calls_connect 0 target refl) }))

sessions_keep_peers_example :
    let shared = session.last.shared in
    ((t : Text) (i : ℕ) → Dict.get shared.sessions t ≡ some i → Serves toy closing_peer t i shared)
    × ((k i : ℕ) (t : Text) (data_out : Bytes)
        → session.last.tasks k ≡ sending t i data_out
        → (shared.sockets i).peer ≡ host_port toy closing_peer t)
    × ((t u : Text) (i : ℕ)
        → Dict.get shared.sessions t ≡ some i
        → Dict.get shared.sessions u ≡ some i
        → t ≡ u)
sessions_keep_peers_example =
    sessions_keep_peers toy closing_peer no_socket session.last session.reach

-- Thread 0 finds its connection closed, while thread 1 has made one.
abbrev race : Run
unfolding go
race = goes 1 (record {
  last = _;
  reach =
      later
        (goes 0 (
          goes 0 (
            goes 0 (record {
              last = _;
              reach = later session.reach (calls_relay 0 target (codes "x") refl);
            })))).reach
        (calls_connect 1 target refl);
})

race_closing : race.last.tasks 0 ≡ closing target 0 []
unfolding race Dict.get Dict.put bytes_eq sendall recv
race_closing = refl

race_storing : race.last.tasks 1 ≡ storing target 1
unfolding race Dict.get Dict.put bytes_eq sendall
race_storing = refl

lost_session_example :
    (s' : System) × Reaches s'
    × (s'.tasks 0 ≡ answered (relay_response toy closing_peer [] true))
    × (s'.tasks 1 ≡ answered (build_response toy closing_peer 200 end []))
    × (Dict.get s'.shared.sessions target ≡ none)
    × (s'.shared.sockets 1 ≡ race.last.shared.sockets 1)
    × ((data_out : Bytes)
        → (go toy closing_peer (looking target data_out) s'.shared).0
          ≡ no_session toy closing_peer target)
lost_session_example =
    lost_session toy closing_peer no_socket race.last 0 1 0 1 target [] race.reach race_closing
      race_storing (λ e. absurd (omega arith))

abbrev unused : Forwarder
unused = record { sessions = []; dialled = 0 }

abbrev unshared : Shared
unshared = record { sessions = []; sockets = no_socket; dialled = 0 }

unused-Represents : Represents unused unshared
unfolding Dict.get
unused-Represents = record {
  dials = refl;
  worlds = λ t. refl;
  live = λ t i e. absurd (cc e);
  apart = λ t u i e k. absurd (cc e);
}

calls-Answers_example :
    Answers toy closing_peer
      (connecting target)
      unshared
      (handle_connect toy closing_peer target unused)
    × Answers toy closing_peer
        (looking target (codes "x"))
        unshared
        (handle_relay toy closing_peer target (codes "x") unused)
calls-Answers_example =
    calls-Answers toy closing_peer unused unshared target unused-Represents (codes "x")
