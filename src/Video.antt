-- ===== src/Video.antt =====
-- agent/src/video.rs: video capture, the commands that change it, and the pixel formats.
pub mod Control
pub mod Decimal
pub mod Restart
pub mod Capture
pub mod Run
pub mod Restarts
pub mod Colour
pub mod Planes
pub mod Frames
pub mod Yuyv
pub mod Sources
pub mod Conversions
pub mod Screen
pub mod Devices
pub mod Pictures
pub mod Lost
pub mod Shots
mod Runs
mod DeviceRuns
use any_kvm.Common.{ℕ, Bool, true, false, ltb}

-- What `try_send` on the frame channel answers.
pub data TrySend : Type 0 where
  sent full closed : TrySend

-- False only if the receiver is gone; a frame for a full channel is dropped.
unfoldable pub try_send_frame : TrySend → Bool
try_send_frame sent = true
try_send_frame full = true
try_send_frame closed = false

unfoldable pub channel_has_capacity : ℕ → Bool
channel_has_capacity capacity = ltb 0 capacity
