-- ===== src/Hid/Runs.antt =====
-- Runs of the HID loops on a few frames, which the theorems on agent/src/hid.rs are applied to.
use any_kvm.Common.{◌≡◌, refl, true, false, List, [], ◌∷◌}
use any_kvm.Common.Bytes.{Bytes}
use any_kvm.Common.Outcome.{ok, Succeeds, at}
use any_kvm.Hid.{change_resolution, mouse_write, serial_write, send_control}
use any_kvm.Hid.Gadget
use any_kvm.Hid.Gadget.{Gadget, run_gadget}
use any_kvm.Hid.Ch9329
use any_kvm.Hid.Ch9329.{Serial, sum, ch9329_frame, run_ch9329}
use any_kvm.Hid.Frames.{Follows, run_gadget-Follows}
use any_kvm.Hid.Report.{Obeys, run_gadget-Obeys}
use any_kvm.Hid.Modes.{Agree, modes-Agree}

abbrev mouse_only : Gadget
mouse_only = record {
  kbd = false;
  mouse = true;
  video_ctrl_tx = true;
  last_x = 0x3fff;
  last_y = 0x3fff;
  last_buttons = 0;
}

abbrev serial : Serial
serial = record { video_ctrl_tx = true; last_x = 0x3fff; last_y = 0x3fff }

-- A move to (258, 772), a short frame, a press, a wheel step down, a key, a resolution.
abbrev frames : List Bytes
frames =
    (0x02 ∷ 0 ∷ 1 ∷ 2 ∷ 3 ∷ 4 ∷ 0 ∷ 0 ∷ [])
    ∷ (0x02 ∷ 9 ∷ 9 ∷ [])
    ∷ (0x03 ∷ 1 ∷ 0 ∷ 0 ∷ 0 ∷ 0 ∷ 0 ∷ 0 ∷ [])
    ∷ (0x04 ∷ 0xff ∷ 0 ∷ 0 ∷ 0 ∷ 0 ∷ 0 ∷ 0 ∷ [])
    ∷ (0x01 ∷ 2 ∷ 4 ∷ 0 ∷ 0 ∷ 0 ∷ 0 ∷ 0 ∷ [])
    ∷ (0x10 ∷ 1 ∷ 2 ∷ 0x80 ∷ 1 ∷ 0xe0 ∷ 0 ∷ 0 ∷ [])
    ∷ []

abbrev two_bytes : Bytes
two_bytes = 0xff ∷ 0xfe ∷ []

run_gadget_test :
    run_gadget mouse_only frames
    ≡ ok (
      record mouse_only { last_x = 258; last_y = 772; last_buttons = 1 },
      mouse_write (0 ∷ 2 ∷ 1 ∷ 4 ∷ 3 ∷ 0 ∷ [])
          ∷ mouse_write (1 ∷ 2 ∷ 1 ∷ 4 ∷ 3 ∷ 0 ∷ [])
          ∷ mouse_write (1 ∷ 2 ∷ 1 ∷ 4 ∷ 3 ∷ 0xff ∷ [])
          ∷ send_control (change_resolution 640 480)
          ∷ [],
    )
unfolding run_gadget Gadget.step at
run_gadget_test = refl

-- The wheel frame of the CH9329 mode says that no button is held.
run_ch9329_test :
    run_ch9329 serial
      ((0x03 ∷ 1 ∷ 0 ∷ 0 ∷ 0 ∷ 0 ∷ 0 ∷ 0 ∷ []) ∷ (0x04 ∷ 1 ∷ 0 ∷ 0 ∷ 0 ∷ 0 ∷ 0 ∷ 0 ∷ []) ∷ [])
    ≡ ok (
      serial,
      serial_write (0x57 ∷ 0xab ∷ 0 ∷ 4 ∷ 6 ∷ 1 ∷ 0xff ∷ 0x3f ∷ 0xff ∷ 0x3f ∷ 0 ∷ 0x89 ∷ [])
          ∷ serial_write (0x57 ∷ 0xab ∷ 0 ∷ 4 ∷ 6 ∷ 0 ∷ 0xff ∷ 0x3f ∷ 0xff ∷ 0x3f ∷ 0 ∷ 0x88 ∷ [])
          ∷ [],
    )
unfolding run_ch9329 Ch9329.ch9329_abs_mouse ch9329_frame sum Ch9329.step at
run_ch9329_test = refl

run_gadget-Follows_example :
    Succeeds (run_gadget mouse_only frames) (λ r. Follows mouse_only frames r.0)
run_gadget-Follows_example = run_gadget-Follows mouse_only frames

run_gadget-Obeys_example : Succeeds (run_gadget mouse_only frames) (Obeys mouse_only)
run_gadget-Obeys_example = run_gadget-Obeys mouse_only frames

modes-Agree_example :
    Succeeds (run_gadget mouse_only frames) (λ r. Succeeds (run_ch9329 serial frames) (Agree r))
modes-Agree_example =
    modes-Agree frames mouse_only serial (record { x = refl; y = refl; tx = refl })
