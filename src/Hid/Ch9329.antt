-- ===== src/Hid/Ch9329.antt =====
-- `run_ch9329` of agent/src/hid.rs and the frames of the CH9329 serial protocol.
use any_kvm.Common.{
  ℕ, ◌+◌, ◌/◌, ◌%◌, ◌^◌, Bool, List, [], ◌∷◌, ◌++◌, bit_and, ltb, ◌==◌, if◌then◌else◌, length,
}
use any_kvm.Common.Bytes.{Bytes, from_be_bytes_16}
use any_kvm.Common.Outcome.{Outcome, ok, ◌>>=◌, at, slice}
use any_kvm.Hid.{
  type_keyboard, type_mouse_move, type_mouse_btn, type_mouse_wheel, type_control, Effect,
  serial_write, HidError, control,
}

-- The sum is a `u32` of fewer than 2 ^ 24 bytes, which cannot wrap.
unfoldable pub sum : Bytes → ℕ
sum [] = 0
sum (b ∷ bs) = b + sum bs

unfoldable pub ch9329_frame : ℕ → Bytes → Bytes
ch9329_frame cmd payload =
    let frame : Bytes = (0x57 ∷ 0xAB ∷ 0x00 ∷ cmd ∷ length payload % 256 ∷ []) ++ payload in
    frame ++ (bit_and (sum frame) 0xff % 256 ∷ [])

unfoldable pub ch9329_keyboard : ℕ → Bytes → Outcome HidError Bytes
ch9329_keyboard modifier keys = do
  k0 ← at keys 0
  k1 ← at keys 1
  k2 ← at keys 2
  k3 ← at keys 3
  k4 ← at keys 4
  k5 ← at keys 5
  ok (ch9329_frame 0x02 (modifier ∷ 0x00 ∷ k0 ∷ k1 ∷ k2 ∷ k3 ∷ k4 ∷ k5 ∷ []))

unfoldable pub ch9329_abs_mouse : ℕ → ℕ → ℕ → Bytes
ch9329_abs_mouse buttons x y = ch9329_frame 0x04 (
    buttons
    ∷ bit_and x 0xff % 256
    ∷ bit_and (x / 2 ^ 8) 0xff % 256
    ∷ bit_and y 0xff % 256
    ∷ bit_and (y / 2 ^ 8) 0xff % 256
    ∷ 0x00
    ∷ [])

pub record Serial : Type 0 where
  pub video_ctrl_tx : Bool
  pub last_x : ℕ  -- u16
  pub last_y : ℕ  -- u16

unfoldable pub start : Bool → Serial
start video_ctrl_tx = record { video_ctrl_tx = video_ctrl_tx; last_x = 0x3fff; last_y = 0x3fff }

abbrev pub Step : Type 0
Step = Outcome HidError (Serial × List Effect)

-- The `match ty` of the loop; where the code has `continue`, nothing is written to the port.
unfoldable pub dispatch : ℕ → Serial → Bytes → Step
unfolding ch9329_keyboard control
dispatch ty s frame =
    if ty == type_keyboard
    then (do
      b1 ← at frame 1
      keys ← slice frame 2 8
      packet ← ch9329_keyboard b1 keys
      ok (s, serial_write packet ∷ []))
    else if ty == type_mouse_move
    then (do
      x1 ← at frame 2
      x0 ← at frame 3
      y1 ← at frame 4
      y0 ← at frame 5
      b1 ← at frame 1
      let x = from_be_bytes_16 x1 x0
      let y = from_be_bytes_16 y1 y0
      ok (record s { last_x = x; last_y = y }, serial_write (ch9329_abs_mouse b1 x y) ∷ []))
    else if ty == type_mouse_btn
    then (do b1 ← at frame 1; ok (s, serial_write (ch9329_abs_mouse b1 s.last_x s.last_y) ∷ []))
    else if ty == type_mouse_wheel
    then ok (s, serial_write (ch9329_abs_mouse 0 s.last_x s.last_y) ∷ [])
    else if ty == type_control
    then (do out ← control s.video_ctrl_tx frame; ok (s, out))
    else ok (s, [])

-- The body of the loop.
unfoldable pub step : Serial → Bytes → Step
unfolding dispatch
step s frame = if ltb (length frame) 8 then ok (s, []) else do ty ← at frame 0; dispatch ty s frame

-- The loop over the frames that the channel delivers until it closes.
unfoldable pub run_ch9329 : Serial → List Bytes → Step
run_ch9329 s [] = ok (s, [])
run_ch9329 s (frame ∷ frames) = do
  (s', out) ← step s frame
  (s'', more) ← run_ch9329 s' frames
  ok (s'', out ++ more)
