-- ===== src/Webrtc.antt =====
-- agent/src/webrtc.rs, lines 31 to 451: one WebRTC session. The library str0m is not modelled: what
-- it reports (events, packets to send, whether it is alive) and what it accepts are arguments, as
-- are the sockets, the channels and the clock.
pub mod Events
pub mod Transport
pub mod Media
pub mod Session
pub mod Invariant
pub mod Announced
pub mod Nals
pub mod LocalAddrs
pub mod Gather
pub mod Gathering
pub mod Offer
mod Runs
use any_kvm.Common.{ℕ, Bool, Option}
use any_kvm.Common.Bytes.{Bytes}
use any_kvm.Stun.{SocketAddr}

abbrev pub type_hid_status : ℕ
type_hid_status = 0x11

pub data IceState : Type 0 where
  new checking connected completed disconnected : IceState

pub data Event : Type 0 where
  established : Event
  channel_open : ℕ → Event
  channel_data : Bytes → Event
  ice_state_change : IceState → Event
  keyframe_request : Event
  other_event : Event

-- What `rtc.poll_output()` gives; `poll_error` is its error.
pub data Output : Type 0 where
  timeout : ℕ → Output
  transmit : SocketAddr → SocketAddr → Bytes → Output
  event : Event → Output
  poll_error : Output

-- The flags that the session shares with the rest of the agent, and its own `ice_connected`.
pub record Flags : Type 0 where
  pub ice_connected : Bool
  pub keyframe_flag : Bool
  pub peer_connected : Bool
