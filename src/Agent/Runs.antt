-- ===== src/Agent/Runs.antt =====
-- Runs of the bridges and of the reconnection, which the theorems on agent/src/main.rs are applied
-- to.
use any_kvm.Common.{ℕ, ◌≡◌, refl, true, false, none, some, List, [], ◌∷◌, ◌++◌, arith, All, map}
use any_kvm.Common.Outcome.{ok}
use any_kvm.Webrtc.{Flags, established, event, timeout}
use any_kvm.Webrtc.Media.{TryRecv}
use any_kvm.Webrtc.Events.{handle_event}
use any_kvm.Webrtc.Offer.{exchange, run}
use any_kvm.Webrtc.Session.{Round, run_loop, pass, poll, media, prepare, receive, after_poll}
use any_kvm.Agent.Sessions.{
  Connection, connect, main_loop, before_ctrl_c, IsQuiet, main_loop-IsQuiet,
}
use any_kvm.Agent.{
  after_session, Turn, bridge, from_secs, delays, SessionEnd, webrtc_ended, signal_ended, ctrl_c,
}
use any_kvm.Agent.Bridge.{bridge-IsIdle}
use any_kvm.Agent.Reconnect.{delays-IsShort}

abbrev idle_turn : Turn
idle_turn = record { connected = false; arrived = (1 ∷ []) ∷ []; awaited = none }

abbrev serving_turn : Turn
serving_turn = record { connected = true; arrived = (2 ∷ []) ∷ []; awaited = some (3 ∷ []) }

-- The frame that was stale is dropped, the awaited one sent, and then the next in the channel.
bridge_test :
    bridge false ((0 ∷ []) ∷ []) (idle_turn ∷ serving_turn ∷ serving_turn ∷ [])
    ≡ (3 ∷ []) ∷ (2 ∷ []) ∷ []
unfolding bridge
bridge_test = refl

bridge-IsIdle_example :
    bridge false
      ((0 ∷ []) ∷ [])
      (idle_turn ∷ ((idle_turn ∷ []) ++ (serving_turn ∷ serving_turn ∷ [])))
    ≡ bridge true [] (record serving_turn { arrived = [] } ∷ serving_turn ∷ [])
bridge-IsIdle_example =
    bridge-IsIdle false ((0 ∷ []) ∷ []) idle_turn (idle_turn ∷ []) serving_turn (serving_turn ∷ [])
      refl (refl, tt) refl

delays-IsShort_example :
    (late : List ℕ) × (delays (from_secs 3) (1 ∷ 2 ∷ 3 ∷ 4 ∷ 5 ∷ 6 ∷ [])
      ≡ 4500000000 ∷ 6750000000 ∷ 10125000000 ∷ 15187500000 ∷ 22781250000 ∷ late)
    × All (λ d. d ≡ from_secs 30) late
delays-IsShort_example =
    delays-IsShort 1 2 3 4 5 (6 ∷ [])
      (omega arith, (omega arith, (omega arith, (omega arith, (omega arith, (omega arith, tt))))))

-- A browser answers and connects, and then signalling is lost.
abbrev connecting : Round
connecting = record {
  alive = true;
  candidates = [];
  now = 3;
  video = TryRecv.nothing;
  audio = TryRecv.nothing;
  video_writer = none;
  audio_writer = none;
  env = record {
    relay = record { relay_addr = none; turn_state = none };
    hid_status = 3;
    channel_ready = true;
    nanos = 5;
  };
  outputs = event established ∷ timeout 50 ∷ [];
  incoming = none;
  input_ok = true;
}

abbrev connection : SessionEnd → Connection
connection ends = record {
  gathered =
      ok (record { candidates = []; relay = record { relay_addr = none; turn_state = none } });
  sdp = record {
    applied = some (1 ∷ []);
    offer_taken = true;
    answer = some (2 ∷ []);
    parses = λ a. true;
    accepts = λ a. true;
  };
  accepts = λ i. true;
  local_addrs = [];
  rounds = connecting ∷ [];
  now = 0;
  late = [];
  ends = ends;
  elapsed = 2000000000;
}

abbrev flags : Flags
flags = record { ice_connected = false; keyframe_flag = false; peer_connected = false }

-- A session that is aborted after it has connected, and one that connects only then.
connect_test :
    connect (connection signal_ended) flags
    ≡ some (record flags { ice_connected = true; keyframe_flag = true })
unfolding connect run exchange run_loop pass poll media prepare receive after_poll handle_event
    after_session
connect_test = refl

late_test :
    connect (record (connection signal_ended) { rounds = []; late = connecting ∷ [] }) flags
    ≡ some (record { ice_connected = true; keyframe_flag = true; peer_connected = true })
unfolding connect run exchange run_loop pass poll media prepare receive after_poll handle_event
    after_session
late_test = refl

main_loop-IsQuiet_example :
    let cs = connection signal_ended ∷ connection webrtc_ended ∷ connection ctrl_c ∷ [] in
    (map (λ s. s.length) (main_loop (from_secs 3) flags cs)
      ≡ delays (from_secs 3) (before_ctrl_c cs))
    × All IsQuiet (main_loop (from_secs 3) flags cs)
main_loop-IsQuiet_example =
    main_loop-IsQuiet (from_secs 3) flags
      (connection signal_ended ∷ connection webrtc_ended ∷ connection ctrl_c ∷ [])
      (omega arith, omega arith) ((tt, refl), ((tt, refl), ((tt, refl), tt)))
