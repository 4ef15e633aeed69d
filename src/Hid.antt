-- ===== src/Hid.antt =====
-- agent/src/hid.rs: control frames from the browser become HID reports and video commands.
-- A device that takes a report, or a channel that takes a command, is an `Effect` of the model: a
-- failed write is only logged, so the code goes on in the same state.
pub mod Gadget
pub mod Ch9329
pub mod Launch
pub mod Report
pub mod Frames
pub mod Modes
mod Runs
use any_kvm.Common.{
  ℕ, ◌+◌, ◌-◌, ◌*◌, ◌/◌, ◌%◌, ◌^◌, Bool, List, [], ◌∷◌, bit_and, ltb, ◌==◌, if◌then◌else◌,
}
use any_kvm.Common.Bytes.{Bytes, from_be_bytes_16}
use any_kvm.Common.Int.{ℤ, pos, negsuc}
use any_kvm.Common.Outcome.{Outcome, ok, err, panicked, out_of_fuel, ◌>>=◌, at}

abbrev pub hid_status_keyboard : ℕ
hid_status_keyboard = 0x01

abbrev pub hid_status_mouse : ℕ
hid_status_mouse = 0x02

abbrev pub type_keyboard : ℕ
type_keyboard = 0x01

abbrev pub type_mouse_move : ℕ
type_mouse_move = 0x02

abbrev pub type_mouse_btn : ℕ
type_mouse_btn = 0x03

abbrev pub type_mouse_wheel : ℕ
type_mouse_wheel = 0x04

abbrev pub type_control : ℕ
type_control = 0x10

pub data VideoControl : Type 0 where
  change_resolution : ℕ → ℕ → VideoControl
  change_fps : ℕ → VideoControl

pub data Effect : Type 0 where
  keyboard_write : Bytes → Effect
  mouse_write : Bytes → Effect
  serial_write : Bytes → Effect
  send_control : VideoControl → Effect

pub data HidError : Type 0 where
  unknown_mode not_compiled_in cannot_open_serial : HidError

-- `b as i8` and `n as u8`
abbrev pub as_i8 : ℕ → ℤ
as_i8 b = if ltb b 128 then pos b else negsuc (255 - b)

abbrev pub i8_as_u8 : ℤ → ℕ
i8_as_u8 (pos n) = n % 256
i8_as_u8 (negsuc n) = 255 - n % 256

unfoldable pub make_abs_mouse_report : ℕ → ℕ → ℕ → ℤ → Bytes
make_abs_mouse_report buttons x y wheel =
    buttons
    ∷ bit_and x 0xff % 256
    ∷ bit_and (x / 2 ^ 8) 0xff % 256
    ∷ bit_and y 0xff % 256
    ∷ bit_and (y / 2 ^ 8) 0xff % 256
    ∷ i8_as_u8 wheel
    ∷ []

-- The `match frame[1]` of the `TYPE_CONTROL` arm.
unfoldable pub control_command : ℕ → Bytes → Outcome HidError (List Effect)
control_command sub frame =
    if sub == 0x01
    then (do
      w1 ← at frame 2
      w0 ← at frame 3
      h1 ← at frame 4
      h0 ← at frame 5
      ok (send_control (change_resolution (from_be_bytes_16 w1 w0) (from_be_bytes_16 h1 h0)) ∷ []))
    else if sub == 0x02
    then (do fps ← at frame 2; ok (send_control (change_fps fps) ∷ []))
    else ok []

-- The `TYPE_CONTROL` arm of both modes; `has_tx` says that `video_ctrl_tx` is `Some`.
unfoldable pub control : Bool → Bytes → Outcome HidError (List Effect)
unfolding control_command
control has_tx frame = if has_tx then (do sub ← at frame 1; control_command sub frame) else ok []
