-- ===== src/Webrtc/Session.antt =====
-- The main loop of `run` in agent/src/webrtc.rs. A `Round` is what one pass of the loop meets.
use any_kvm.Common.{ℕ, ◌+◌, Bool, false, Option, none, some, List, [], ◌∷◌, ◌++◌, if◌then◌else◌}
use any_kvm.Common.Bytes.{Bytes}
use any_kvm.Common.Outcome.{Outcome, ok, err, panicked, out_of_fuel}
use any_kvm.Stun.{IpAddr, SocketAddr, StunError}
use any_kvm.Webrtc.{
  type_hid_status, Event, established, channel_open, channel_data, ice_state_change,
  keyframe_request, other_event, Output, timeout, transmit, event, poll_error, Flags,
}
use any_kvm.Webrtc.Events.{handle_event}
use any_kvm.Webrtc.Media.{PayloadParams, Counts, Written, TryRecv, on_video, on_audio}
use any_kvm.Webrtc.Transport.{
  Relay, on_transmit, Input, Accepts, on_datagram, RemoteCandidate, on_candidates, refresh_at,
}

pub record Session : Type 0 where
  pub flags : Flags
  pub turn_perms : List IpAddr
  pub turn_refresh_at : ℕ
  pub counts : Counts
  pub transmit_count : ℕ
  pub dc_channel_id : Option ℕ

-- What the session does to the outside.
pub record Trace : Type 0 where
  pub media : List Written
  pub datagrams : List (SocketAddr × Bytes)
  pub hid : List Bytes
  pub status : List Bytes
  pub inputs : List Input

abbrev pub silent : Trace
silent = record { media = []; datagrams = []; hid = []; status = []; inputs = [] }

abbrev pub join : Trace → Trace → Trace
join a b = record {
  media = a.media ++ b.media;
  datagrams = a.datagrams ++ b.datagrams;
  hid = a.hid ++ b.hid;
  status = a.status ++ b.status;
  inputs = a.inputs ++ b.inputs;
}

-- `left` and `dead` are the two `return Ok(())`, `failed` is a `?`, and `go_on` is none of these.
pub data End : Type 0 where
  go_on left dead failed : End

pub record SessionOutcome : Type 0 where
  pub end : End
  pub session : Session
  pub trace : Trace

-- The second of two outcomes once the function has returned, the first before.
abbrev pub proceed : End → SessionOutcome → SessionOutcome → SessionOutcome
proceed go_on further stopped = further
proceed left further stopped = stopped
proceed dead further stopped = stopped
proceed failed further stopped = stopped

-- The HID status for a channel that has just opened, if str0m has that channel.
unfoldable pub status_message : Bool → ℕ → List Bytes
status_message ready status =
    if ready then (type_hid_status ∷ status ∷ 0 ∷ 0 ∷ 0 ∷ 0 ∷ 0 ∷ 0 ∷ []) ∷ [] else []

unfoldable pub opened : Event → Session → Session
opened (channel_open id) s = record s { dc_channel_id = some id }
opened established s = s
opened (channel_data bytes) s = s
opened (ice_state_change state) s = s
opened keyframe_request s = s
opened other_event s = s

unfoldable pub opened_status : Event → Bool → ℕ → List Bytes
unfolding status_message
opened_status (channel_open id) ready status = status_message ready status
opened_status established ready status = []
opened_status (channel_data bytes) ready status = []
opened_status (ice_state_change state) ready status = []
opened_status keyframe_request ready status = []
opened_status other_event ready status = []

-- The surroundings of the polling loop.
pub record Env : Type 0 where
  pub relay : Relay
  pub hid_status : ℕ
  pub channel_ready : Bool
  pub nanos : ℕ

-- The polling loop, over the outputs that str0m gives until the first timeout.
unfoldable pub poll : Env → List Output → Session → SessionOutcome
unfolding handle_event opened opened_status on_transmit
poll env [] s = record { end = go_on; session = s; trace = silent }
poll env (timeout t ∷ rest) s = record { end = go_on; session = s; trace = silent }
poll env (poll_error ∷ rest) s = record { end = failed; session = s; trace = silent }
poll env (transmit source destination contents ∷ rest) s =
    let sent = on_transmit env.relay env.nanos source destination contents in
    let more = poll env rest (record s { transmit_count = s.transmit_count + 1 }) in
    record more { trace = join (record silent { datagrams = sent ∷ [] }) more.trace }
poll env (event e ∷ rest) s =
    let h = handle_event e s.flags in
    let s' = record (opened e s) { flags = h.flags } in
    let here = record silent {
      hid = h.hid;
      status = opened_status e env.channel_ready env.hid_status;
    } in
    let more = poll env rest s' in
    if h.leave
    then record {
      end = left;
      session = record s' { flags = record h.flags { peer_connected = false } };
      trace = here;
    }
    else record more { trace = join here more.trace }

pub record Round : Type 0 where
  pub alive : Bool
  pub candidates : List RemoteCandidate
  pub now : ℕ
  pub video : TryRecv
  pub audio : TryRecv
  pub video_writer : Option (List PayloadParams)
  pub audio_writer : Option (List PayloadParams)
  pub env : Env
  pub outputs : List Output
  pub incoming : Option (SocketAddr × Bytes)
  pub input_ok : Bool

-- Candidates, permissions and the refresh.
unfoldable pub prepare : Round → Session → Session
prepare r s = record s {
  turn_perms = on_candidates r.env.relay.turn_state r.candidates s.turn_perms;
  turn_refresh_at = refresh_at r.env.relay.turn_state r.now s.turn_refresh_at;
}

-- Media goes out only when the session is connected; otherwise the waiting frames are thrown away.
unfoldable pub media : Round → Session → Session × List Written
unfolding on_video on_audio
media r s =
    if s.flags.ice_connected
    then (let (counts, video) = on_video r.video_writer r.video s.counts in
        (record s { counts = counts }, video ++ on_audio r.audio_writer r.audio))
    else (s, [])

-- An input that str0m refuses ends the session. A panic cannot come of it.
unfoldable pub take_input :
    Outcome StunError (Option Input) → Bool → Session → Trace → SessionOutcome
take_input (ok none) fine s t = record { end = go_on; session = s; trace = t }
take_input (ok (some i)) fine s t = record {
  end = if fine then go_on else failed;
  session = s;
  trace = join t (record silent { inputs = i ∷ [] });
}
take_input (err e) fine s t = record { end = failed; session = s; trace = t }
take_input panicked fine s t = record { end = failed; session = s; trace = t }
take_input out_of_fuel fine s t = record { end = failed; session = s; trace = t }

-- The sleep, with the timeout for str0m, or a datagram.
unfoldable pub receive : Accepts → List SocketAddr → Round → Session → Trace → SessionOutcome
unfolding on_datagram take_input
receive accepts local_addrs r s t = elim r.incoming [
  | none ↦ record { end = if r.input_ok then go_on else failed; session = s; trace = t }
  | some (sender, bytes) ↦
      take_input (on_datagram accepts r.env.relay local_addrs sender bytes) r.input_ok s t
]

unfoldable pub after_poll :
    Accepts → List SocketAddr → Round → SessionOutcome → List Written → SessionOutcome
after_poll accepts local_addrs r polled written =
    let t = join (record silent { media = written }) polled.trace in
    proceed polled.end (receive accepts local_addrs r polled.session t)
      (record polled { trace = t })

-- One pass of the loop.
unfoldable pub pass : Accepts → List SocketAddr → Round → Session → SessionOutcome
pass accepts local_addrs r s =
    if r.alive
    then (let (s', written) = media r (prepare r s) in
        after_poll accepts local_addrs r (poll r.env r.outputs s') written)
    else record { end = dead; session = s; trace = silent }

unfoldable pub run_loop : Accepts → List SocketAddr → List Round → Session → SessionOutcome
run_loop accepts local_addrs [] s = record { end = go_on; session = s; trace = silent }
run_loop accepts local_addrs (r ∷ rounds) s =
    let o = pass accepts local_addrs r s in
    let more = run_loop accepts local_addrs rounds o.session in
    proceed o.end (record more { trace = join o.trace more.trace }) o
