-- ===== src/Webrtc/Events.antt =====
-- `handle_event` of agent/src/webrtc.rs, with what goes to the HID module.
use any_kvm.Common.{◌≡◌, Bool, true, false, List, [], ◌∷◌, arith, if◌then◌else◌}
use any_kvm.Common.Bytes.{Bytes}
use any_kvm.Webrtc.{
  IceState, new, checking, connected, completed, disconnected, Event, established, channel_open,
  channel_data, ice_state_change, keyframe_request, other_event, Flags,
}

-- The flags, whether the main loop is to end, and the frames sent to the HID module.
pub record Handled : Type 0 where
  pub flags : Flags
  pub leave : Bool
  pub hid : List Bytes

abbrev stay : Flags → Handled
stay s = record { flags = s; leave = false; hid = [] }

unfoldable pub on_ice_state : IceState → Flags → Handled
on_ice_state connected s = stay (record s { keyframe_flag = true })
on_ice_state completed s = stay (record s { keyframe_flag = true })
on_ice_state disconnected s =
    if s.ice_connected
    then record { flags = record s { peer_connected = false }; leave = true; hid = [] }
    else stay s
on_ice_state new s = stay s
on_ice_state checking s = stay s

unfoldable pub handle_event : Event → Flags → Handled
unfolding on_ice_state
handle_event established s =
    stay (record { ice_connected = true; keyframe_flag = true; peer_connected = true })
handle_event (channel_data bytes) s = record { flags = s; leave = false; hid = bytes ∷ [] }
handle_event (ice_state_change state) s = on_ice_state state s
handle_event keyframe_request s = stay (record s { keyframe_flag = true })
handle_event (channel_open id) s = stay s
handle_event other_event s = stay s

-- A connected session is announced to the bridges.
abbrev pub IsAnnounced : Flags → Type 0
IsAnnounced s = s.ice_connected ≡ true → s.peer_connected ≡ true

-- `handle_event` keeps a connected session announced while it goes on; it makes a session connected
-- on `Event::Connected` only; and it ends the loop only on a disconnection of a connected session,
-- which it withdraws.
pub handle_event-IsAnnounced :
    (e : Event) (s : Flags)
    → IsAnnounced s
    → let r = handle_event e s in
      (r.leave ≡ false → IsAnnounced r.flags)
      × (s.ice_connected ≡ false → r.flags.ice_connected ≡ true → e ≡ established)
      × (r.leave ≡ true
          → (s.ice_connected ≡ true)
            × (e ≡ ice_state_change disconnected)
            × (r.flags.peer_connected ≡ false))
unfolding handle_event
handle_event-IsAnnounced established s h = ground arith
handle_event-IsAnnounced (channel_open id) s h = ground arith
handle_event-IsAnnounced (channel_data bytes) s h = ground arith
handle_event-IsAnnounced (ice_state_change new) s h = ground arith
handle_event-IsAnnounced (ice_state_change checking) s h = ground arith
handle_event-IsAnnounced (ice_state_change connected) s h = ground arith
handle_event-IsAnnounced (ice_state_change completed) s h = ground arith
handle_event-IsAnnounced (ice_state_change disconnected) s h = ground arith
handle_event-IsAnnounced keyframe_request s h = ground arith
handle_event-IsAnnounced other_event s h = ground arith
