-- ===== src/Video/Run.antt =====
-- `run_with_ctrl` of agent/src/video.rs. A `Round` is what one pass of its loop meets: which device
-- opens, how each capture function ends on the configuration that it is given, and the commands
-- still in the channel when a restart begins.
use text.Mathlib.Text.{◌==◌ as str_eq}
use any_kvm.Common.{Bool, true, false, Option, none, some, List, [], ◌∷◌, if◌then◌else◌}
use any_kvm.Common.Bytes.{Bytes, codes}
use any_kvm.Config.{VideoConfig}
use any_kvm.Hid.{VideoControl}
use any_kvm.Video.Capture.{CaptureEnd, finished, running, crashed, failed}
use any_kvm.Video.Control.{drain}
use any_kvm.Video.Restart.{restart_config}

pub record Features : Type 0 where
  pub v4l2_capture : Bool
  pub screen_capture : Bool

pub record Round : Type 0 where
  pub opens : Bool
  pub screen : VideoConfig → CaptureEnd
  pub hw : VideoConfig → CaptureEnd
  pub sw : VideoConfig → CaptureEnd
  pub mjpeg : VideoConfig → CaptureEnd
  pub pending : List VideoControl

-- How a pass ends: `bailed` is a `return` from `run_with_ctrl` itself (`bail!` or `?`).
pub data Pass : Type 0 where
  ended : CaptureEnd → Pass
  bailed : Bytes → Pass

-- An error of the YUYV loop, whatever it is, leads on to MJPEG.
abbrev pub sw_or_mjpeg : CaptureEnd → CaptureEnd → CaptureEnd
sw_or_mjpeg (failed msg) mjpeg = mjpeg
sw_or_mjpeg finished mjpeg = finished
sw_or_mjpeg running mjpeg = running
sw_or_mjpeg crashed mjpeg = crashed

-- `cfg.hw_encode && try_hw_h264(…).is_ok()`; without hardware encoding the call is not made.
abbrev pub hw_or_sw : Bool → CaptureEnd → CaptureEnd → CaptureEnd
hw_or_sw false hw sw = sw
hw_or_sw true (failed msg) sw = sw
hw_or_sw true finished sw = finished
hw_or_sw true running sw = running
hw_or_sw true crashed sw = crashed

unfoldable pub pass : Features → Round → VideoConfig → Pass
pass feature r cfg =
    if str_eq cfg.source "screen"
    then if feature.screen_capture
      then ended (r.screen cfg)
      else bailed (codes "requires screen-capture")
    else if feature.v4l2_capture
    then if r.opens
      then ended (hw_or_sw cfg.hw_encode (r.hw cfg) (sw_or_mjpeg (r.sw cfg) (r.mjpeg cfg)))
      else bailed (codes "cannot open V4L2 device")
    else bailed (codes "requires v4l2-capture")

-- The `match result`: `none` goes on with the next pass, on the configuration given.
unfoldable pub after_pass : Pass → List VideoControl → VideoConfig → Option CaptureEnd × VideoConfig
after_pass (bailed msg) pending cfg = (some (failed msg), cfg)
after_pass (ended finished) pending cfg = (some finished, cfg)
after_pass (ended running) pending cfg = (some running, cfg)
after_pass (ended crashed) pending cfg = (some crashed, cfg)
after_pass (ended (failed msg)) pending cfg = elim (restart_config msg cfg) [
  | none ↦ (some (failed msg), cfg)
  | some cfg' ↦ (none, drain pending cfg')
]

-- The result, and the configuration of the last pass.
unfoldable pub run_with_ctrl : Features → List Round → VideoConfig → CaptureEnd × VideoConfig
run_with_ctrl feature [] cfg = (running, cfg)
run_with_ctrl feature (r ∷ rounds) cfg =
    let (out, cfg') = after_pass (pass feature r cfg) r.pending cfg in
    let rest = run_with_ctrl feature rounds cfg' in elim out [ some e ↦ (e, cfg') | none ↦ rest ]
