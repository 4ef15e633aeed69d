-- ===== src/Hid/Gadget.antt =====
-- `run_gadget` of agent/src/hid.rs: reports to the two USB gadget devices.
use any_kvm.Common.{ℕ, Bool, List, [], ◌∷◌, ◌++◌, bit_or, ltb, ◌==◌, if◌then◌else◌, length}
use any_kvm.Common.Bytes.{Bytes, from_be_bytes_16}
use any_kvm.Common.Outcome.{Outcome, ok, ◌>>=◌, at}
use any_kvm.Hid.{
  hid_status_keyboard, hid_status_mouse, type_keyboard, type_mouse_move, type_mouse_btn,
  type_mouse_wheel, type_control, Effect, keyboard_write, mouse_write, HidError, as_i8,
  make_abs_mouse_report, control,
}

-- The local variables of the loop: which devices are open, whether there is a `video_ctrl_tx`, and
-- the last pointer position and buttons.
pub record Gadget : Type 0 where
  pub kbd : Bool
  pub mouse : Bool
  pub video_ctrl_tx : Bool
  pub last_x : ℕ  -- u16
  pub last_y : ℕ  -- u16
  pub last_buttons : ℕ  -- u8

-- The status byte that the opened devices are announced by.
unfoldable pub device_status : Bool → Bool → ℕ
device_status kbd mouse =
    let status : ℕ = if kbd then bit_or 0 hid_status_keyboard else 0 in
    if mouse then bit_or status hid_status_mouse else status

-- The variables before the first frame.
unfoldable pub start : Bool → Bool → Bool → Gadget
start kbd mouse video_ctrl_tx = record {
  kbd = kbd;
  mouse = mouse;
  video_ctrl_tx = video_ctrl_tx;
  last_x = 0x3fff;
  last_y = 0x3fff;
  last_buttons = 0;
}

abbrev pub Step : Type 0
Step = Outcome HidError (Gadget × List Effect)

unfoldable pub on_keyboard : Gadget → Bytes → Step
on_keyboard g frame =
    if g.kbd
    then (do
      b1 ← at frame 1
      b2 ← at frame 2
      b3 ← at frame 3
      b4 ← at frame 4
      b5 ← at frame 5
      b6 ← at frame 6
      b7 ← at frame 7
      ok (g, keyboard_write (b1 ∷ 0x00 ∷ b2 ∷ b3 ∷ b4 ∷ b5 ∷ b6 ∷ b7 ∷ []) ∷ []))
    else ok (g, [])

-- A report with the pointer's present state, if the mouse is open.
unfoldable pub report : Gadget → ℕ → List Effect
unfolding make_abs_mouse_report
report g wheel =
    if g.mouse
    then mouse_write (make_abs_mouse_report g.last_buttons g.last_x g.last_y (as_i8 wheel)) ∷ []
    else []

unfoldable pub on_mouse_move : Gadget → Bytes → Step
unfolding report
on_mouse_move g frame = do
  b1 ← at frame 1
  x1 ← at frame 2
  x0 ← at frame 3
  y1 ← at frame 4
  y0 ← at frame 5
  let g' = record g {
    last_buttons = b1;
    last_x = from_be_bytes_16 x1 x0;
    last_y = from_be_bytes_16 y1 y0;
  }
  ok (g', report g' 0)

unfoldable pub on_mouse_btn : Gadget → Bytes → Step
unfolding report
on_mouse_btn g frame = do
  b1 ← at frame 1
  let g' = record g { last_buttons = b1 }
  ok (g', report g' 0)

unfoldable pub on_mouse_wheel : Gadget → Bytes → Step
unfolding report
on_mouse_wheel g frame = do delta ← at frame 1; ok (g, report g delta)

-- The `match ty` of the loop.
unfoldable pub dispatch : ℕ → Gadget → Bytes → Step
unfolding on_keyboard on_mouse_move on_mouse_btn on_mouse_wheel control
dispatch ty g frame =
    if ty == type_keyboard
    then on_keyboard g frame
    else if ty == type_mouse_move
    then on_mouse_move g frame
    else if ty == type_mouse_btn
    then on_mouse_btn g frame
    else if ty == type_mouse_wheel
    then on_mouse_wheel g frame
    else if ty == type_control
    then (do out ← control g.video_ctrl_tx frame; ok (g, out))
    else ok (g, [])

-- The body of the loop.
unfoldable pub step : Gadget → Bytes → Step
unfolding dispatch
step g frame = if ltb (length frame) 8 then ok (g, []) else do ty ← at frame 0; dispatch ty g frame

-- The loop over the frames that the channel delivers until it closes.
unfoldable pub run_gadget : Gadget → List Bytes → Step
run_gadget g [] = ok (g, [])
run_gadget g (frame ∷ frames) = do
  (g', out) ← step g frame
  (g'', more) ← run_gadget g' frames
  ok (g'', out ++ more)
