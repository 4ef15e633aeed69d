-- ===== src/Hid/Launch.antt =====
-- `run` of agent/src/hid.rs: the mode of the configuration chooses the loop. Which devices open,
-- and whether the CH9329 code is compiled in, are arguments.
use text.Mathlib.Text.{◌==◌ as str_eq}
use any_kvm.Common.{ℕ, Bool, List, bit_or, if◌then◌else◌}
use any_kvm.Common.Bytes.{Bytes}
use any_kvm.Common.Outcome.{Outcome, ok, err, ◌>>=◌}
use any_kvm.Config.{HidConfig}
use any_kvm.Hid.{
  hid_status_keyboard, hid_status_mouse, Effect, HidError, unknown_mode, not_compiled_in,
  cannot_open_serial,
}
use any_kvm.Hid.Gadget
use any_kvm.Hid.Ch9329

pub record Opens : Type 0 where
  pub kbd : Bool
  pub mouse : Bool
  pub serial : Bool

-- What is stored in `hid_status`, and all that was written.
pub record Session : Type 0 where
  pub hid_status : ℕ
  pub effects : List Effect

unfoldable pub run :
    (ch9329_feature : Bool)
    → HidConfig
    → Opens
    → (has_tx : Bool) → List Bytes
    → Outcome HidError Session
run ch9329_feature cfg opens has_tx frames =
    if str_eq cfg.mode "gadget"
    then (do
      (g, out) ← Gadget.run_gadget (Gadget.start opens.kbd opens.mouse has_tx) frames
      ok (record { hid_status = Gadget.device_status opens.kbd opens.mouse; effects = out }))
    else if str_eq cfg.mode "ch9329"
    then if ch9329_feature
      then if opens.serial
        then (do
          (s, out) ← Ch9329.run_ch9329 (Ch9329.start has_tx) frames
          ok (record { hid_status = bit_or hid_status_keyboard hid_status_mouse; effects = out }))
        else err cannot_open_serial
      else err not_compiled_in
    else err unknown_mode
