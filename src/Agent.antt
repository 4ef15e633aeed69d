-- ===== src/Agent.antt =====
-- agent/src/main.rs: the bridges between the capture modules and the sessions, the fallback to
-- screen capture, and the time between sessions. What the clock and the channels give is an argument.
pub mod Bridge
pub mod Reconnect
pub mod Sessions
mod Runs
use text.Mathlib.Text.{◌==◌ as str_eq}
use any_kvm.Common.{
  ℕ, ◌+◌, ◌*◌, ◌/◌, Bool, true, false, not, Option, none, some, List, [], ◌∷◌, ◌++◌, ltb, min,
  if◌then◌else◌,
}
use any_kvm.Common.Bytes.{Bytes}
use any_kvm.Config.{VideoConfig}
use any_kvm.Video.Capture.{CaptureEnd, finished, running, crashed, failed}
use any_kvm.Webrtc.{Flags}

-- One turn of a bridge: whether a browser is connected, what the capture module has put into the
-- channel since the last turn, and what `recv` gets if it has to wait, `none` for a closed channel.
pub record Turn : Type 0 where
  pub connected : Bool
  pub arrived : List Bytes
  pub awaited : Option Bytes

-- What the bridge broadcasts. `was_idle` and the frames in the channel are its state; the frame of
-- a turn is the channel's first, or the awaited one.
unfoldable pub bridge : (was_idle : Bool) → (queue : List Bytes) → List Turn → List Bytes
bridge was_idle queue [] = []
bridge was_idle queue (t ∷ turns) =
    let idle = bridge true (queue ++ t.arrived) turns in
    let waited = bridge false [] turns in
    if not t.connected then idle else elim (if was_idle then [] else queue ++ t.arrived) [
      | [] ↦ elim t.awaited [ none ↦ [] | some frame ↦ frame ∷ waited ]
      | frame ∷ rest ↦ frame ∷ bridge false rest turns
    ]

-- The configuration of the second attempt, if there is one: screen capture in place of a source
-- that failed.
unfoldable pub fallback : CaptureEnd → VideoConfig → Option VideoConfig
fallback finished cfg = none
fallback running cfg = none
fallback crashed cfg = none
fallback (failed msg) cfg =
    if not (str_eq cfg.source "screen") then some (record cfg { source = "screen" }) else none

-- Seconds as a `Duration`, in nanoseconds.
abbrev pub from_secs : ℕ → ℕ
from_secs s = s * 1000000000

-- `reconnect_delay` after a session that lasted for a time.
unfoldable pub next_delay : ℕ → ℕ → ℕ
next_delay elapsed delay =
    if ltb (from_secs 10) elapsed then from_secs 3 else min (delay * 3 / 2) (from_secs 30)

-- The sleeps after sessions of given lengths.
unfoldable pub delays : ℕ → List ℕ → List ℕ
unfolding next_delay
delays delay [] = []
delays delay (elapsed ∷ rest) = next_delay elapsed delay ∷ delays (next_delay elapsed delay) rest

pub data SessionEnd : Type 0 where
  webrtc_ended signal_ended ctrl_c : SessionEnd

-- The flags after the `select!`; `none` ends the agent.
unfoldable pub after_session : SessionEnd → Flags → Option Flags
after_session webrtc_ended flags = some (record flags { peer_connected = false })
after_session signal_ended flags = some (record flags { peer_connected = false })
after_session ctrl_c flags = none
