-- ===== src/Webrtc/Runs.antt =====
-- Sessions that the theorems on `run` of agent/src/webrtc.rs are applied to.
use any_kvm.Common.{◌++◌, ◌≡◌, ◌≢◌, refl, true, false, none, some, [], ◌∷◌}
use any_kvm.Video.Decimal.{format_digits, parse_digits}
use any_kvm.Video.Restart.{split}
use any_kvm.Common.Bytes.{Bytes, codes}
use any_kvm.Common.Outcome.{ok, Ensures, at}
use any_kvm.Stun.{v4}
use any_kvm.Webrtc.{completed, disconnected, established, ice_state_change, timeout, event}
use any_kvm.Webrtc.Events.{IsAnnounced}
use any_kvm.Webrtc.Transport.{Accepts}
use any_kvm.Webrtc.Media.{received}
use any_kvm.Webrtc.Session.{Session, left, Round, run_loop}
use any_kvm.Stun.Network.{Resolver, failure}
use any_kvm.Turn.Client.{Exchange}
use any_kvm.Webrtc.Nals.{describe_h264_nals}
use any_kvm.Webrtc.LocalAddrs.{get_local_ips, IsUsable, get_local_ips-IsUsable}
use any_kvm.Webrtc.Offer.{Sdp, stopped, new_session, run, run_unanswered}
use any_kvm.Webrtc.Gather.{no_relay, Builds, Network, TurnConfig, gather}
use any_kvm.Webrtc.Gathering.{IsPaired, gather-IsPaired}
use any_kvm.Webrtc.Invariant.{run_loop-media}
use any_kvm.Webrtc.Announced.{run_loop-Tells}

abbrev fresh : Session
fresh = record {
  flags = record { ice_connected = false; keyframe_flag = false; peer_connected = false };
  turn_perms = [];
  turn_refresh_at = 240;
  counts = record { video_frame_count = 0; video_write_count = 0; video_drop_count = 0 };
  transmit_count = 0;
  dc_channel_id = none;
}

-- A video frame waits, and str0m has a writer for H.264.
abbrev checking_round : Round
checking_round = record {
  alive = true;
  candidates = [];
  now = 3;
  video = received (0 ∷ 0 ∷ 1 ∷ 0x65 ∷ []);
  audio = received (1 ∷ []);
  video_writer = some (record { pt = 96; is_h264 = true; packetization_mode = some 1 } ∷ []);
  audio_writer = some (record { pt = 111; is_h264 = false; packetization_mode = none } ∷ []);
  env = record {
    relay = record { relay_addr = none; turn_state = none };
    hid_status = 3;
    channel_ready = true;
    nanos = 5;
  };
  outputs = event (ice_state_change completed) ∷ timeout 50 ∷ [];
  incoming = none;
  input_ok = true;
}

abbrev connecting : Round
connecting = record checking_round { outputs = event established ∷ timeout 50 ∷ [] }

abbrev losing : Round
losing = record checking_round { outputs = event (ice_state_change disconnected) ∷ timeout 50 ∷ [] }

abbrev accepts_all : Accepts
accepts_all input = true

not_established : ice_state_change completed ≢ established
not_established e = cc

run_loop-media_example :
    let o = run_loop accepts_all [] (checking_round ∷ checking_round ∷ []) fresh in
    (o.session.flags.ice_connected ≡ false) × (o.trace.media ≡ [])
run_loop-media_example =
    run_loop-media accepts_all [] (checking_round ∷ checking_round ∷ []) fresh refl
      ((not_established, tt), ((not_established, tt), tt))

run_loop-Tells_example :
    let o = run_loop accepts_all [] (connecting ∷ losing ∷ []) fresh in
    (o.end ≢ left → IsAnnounced o.session.flags)
    × (o.end ≡ left → o.session.flags.peer_connected ≡ false)
run_loop-Tells_example = run_loop-Tells accepts_all [] (connecting ∷ losing ∷ []) fresh (λ e. cc)

-- SPS and an IDR slice, the second behind a start code of four bytes, and one that is cut off.
abbrev frame : Bytes
frame = 0 ∷ 0 ∷ 1 ∷ 0x67 ∷ 0 ∷ 0 ∷ 0 ∷ 1 ∷ 0x65 ∷ 9 ∷ 0 ∷ 0 ∷ 1 ∷ []

describe_h264_nals_test : describe_h264_nals frame ≡ ok (codes "SPS(7), IDR(5)")
unfolding describe_h264_nals at format_digits
describe_h264_nals_test = refl

-- 127.0.0.1, 192.168.1.7 twice, and an address of a network.
abbrev fib_trie : Bytes
fib_trie =
    codes "  |-- 127.0.0.1"
    ++ (10 ∷ codes "    /32 host LOCAL")
    ++ (10 ∷ codes "  |-- 192.168.1.7")
    ++ (10 ∷ codes "    /32 host LOCAL")
    ++ (10 ∷ codes "  |-- 192.168.1.0")
    ++ (10 ∷ codes "    /24 link UNICAST")
    ++ (10 ∷ codes "  |-- 192.168.1.7")
    ++ (10 ∷ codes "    /32 host LOCAL")

get_local_ips_test : get_local_ips none (some fib_trie) ≡ v4 0xc0a80107 ∷ []
unfolding get_local_ips split parse_digits
get_local_ips_test = refl

get_local_ips-IsUsable_example : IsUsable (get_local_ips (some (v4 0x0a000001)) (some fib_trie))
get_local_ips-IsUsable_example = get_local_ips-IsUsable (some (v4 0x0a000001)) (some fib_trie)

abbrev builds_all : Builds
builds_all c = true

abbrev lookup_host : Resolver
lookup_host name = some (record { ip = v4 0xc0000201; port = 3478 } ∷ [])

abbrev silent_net : Network
silent_net url = (5, λ address bytes. some [])

abbrev no_reply : Exchange
no_reply = record {
  sent_1 = true;
  arriving_1 = failure ∷ [];
  sent_2 = true;
  arriving_2 = failure ∷ [];
}

abbrev turn_config : TurnConfig
turn_config = record {
  turn_url = some (codes "turn:relay");
  turn_username = some (codes "user");
  turn_password = some (codes "pass");
}

gather-IsPaired_example :
    Ensures
      (gather builds_all lookup_host silent_net no_reply
        (v4 0x0a000001 ∷ [])
        5000
        (codes "stun:example.org" ∷ [])
        turn_config)
      IsPaired
gather-IsPaired_example =
    gather-IsPaired builds_all lookup_host silent_net no_reply (v4 0x0a000001 ∷ []) 5000
      (codes "stun:example.org" ∷ []) turn_config (tt, tt)

-- The answer that arrives is no SDP.
abbrev unreadable : Sdp
unreadable = record {
  applied = some (1 ∷ []);
  offer_taken = true;
  answer = some (2 ∷ []);
  parses = λ a. false;
  accepts = λ a. true;
}

run_unanswered_example :
    run (ok (no_relay [])) unreadable accepts_all [] (connecting ∷ []) 0 fresh.flags
    ≡ some (stopped (new_session 0 fresh.flags))
run_unanswered_example =
    run_unanswered (ok (no_relay [])) unreadable accepts_all [] (connecting ∷ []) 0 fresh.flags tt
      (λ a. let (b, c, d) = a in let (answer, e, p, q) = d in cc)
