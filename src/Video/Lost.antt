-- ===== src/Video/Lost.antt =====
-- A change of the resolution on a device without MJPEG, in agent/src/video.rs.
use text.Mathlib.Text.{◌==◌ as str_eq}
use any_kvm.Common.{◌≡◌, refl, Bool, true, false, Option, none, some, List, ◌∷◌}
use any_kvm.Common.Bytes.{Bytes, codes}
use any_kvm.Common.Outcome.{ok, err}
use any_kvm.Config.{VideoConfig}
use any_kvm.Video.Capture.{Tick, CaptureEnd, failed, encode_loop}
use any_kvm.Video.Control.{check_video_ctrl}
use any_kvm.Video.Restart.{restart_message, restart_config, after_first, strip_prefix}
use any_kvm.Video.Run.{Features, Round, ended, pass, run_with_ctrl}
use any_kvm.Video.Restarts.{run_with_ctrl-restart_lost}
use any_kvm.Video.Sources.{Jpeg}
use any_kvm.Video.Devices.{
  Device, Encoder, Feed, Format, negotiate, sw_set_up, run_sw_h264, run_mjpeg_h264, device_round,
}

abbrev pub no_yuyv : Bytes
no_yuyv = codes "device does not support YUYV for software encoding"

abbrev pub no_mjpeg : Bytes
no_mjpeg = codes "device does not support MJPEG format"

no_mjpeg-restart_config : (cfg : VideoConfig) → restart_config no_mjpeg cfg ≡ none
unfolding restart_config after_first strip_prefix
no_mjpeg-restart_config cfg = refl

asks_restart :
    (dev : Device) (flag : Bool) (cfg new : VideoConfig) (t : Tick) (ticks : List Tick)
    {actual : Format} {encode : Encoder}
    → sw_set_up "YUYV" no_yuyv dev cfg ≡ ok (actual, encode)
    → check_video_ctrl (some t.pending) cfg ≡ (new, true)
    → (run_sw_h264 dev true flag cfg (t ∷ ticks)).0 ≡ failed (restart_message new)
unfolding run_sw_h264 encode_loop
asks_restart dev flag cfg new t ticks set asks = rw (set, asks) refl

refuses :
    (decode : Bytes → Option Jpeg) (dev : Device) (has_ctrl flag : Bool) (cfg : VideoConfig)
    (ticks : List Tick)
    → negotiate "MJPG" no_mjpeg dev cfg ≡ err no_mjpeg
    → (run_mjpeg_h264 decode dev has_ctrl flag cfg ticks).0 ≡ failed no_mjpeg
unfolding run_mjpeg_h264 sw_set_up
refuses decode dev has_ctrl flag cfg ticks e = rw e refl

-- On a V4L2 device that is set up for YUYV but has no MJPEG, without hardware encoding, commands that
-- ask for a restart end the video module: the MJPEG loop is started in place of the restart, and
-- `run_with_ctrl` returns its refusal, on the old configuration.
pub device_round-lost :
    (feature : Features) (decode : Bytes → Option Jpeg) (dev : Device) (f : Feed)
    (screen : VideoConfig → CaptureEnd) (t : Tick) (ticks : List Tick) (rounds : List Round)
    (cfg new : VideoConfig) (actual : Format) (encode : Encoder)
    → str_eq cfg.source "screen" ≡ false
    → feature.v4l2_capture ≡ true
    → cfg.hw_encode ≡ false
    → sw_set_up "YUYV" no_yuyv dev cfg ≡ ok (actual, encode)
    → negotiate "MJPG" no_mjpeg dev cfg ≡ err no_mjpeg
    → f.has_ctrl ≡ true
    → f.sw_ticks ≡ t ∷ ticks
    → check_video_ctrl (some t.pending) cfg ≡ (new, true)
    → let r = device_round decode dev f screen in
      (pass feature r cfg
        ≡ ended (run_mjpeg_h264 decode dev f.has_ctrl f.keyframe_flag cfg f.mjpeg_ticks).0)
      × (run_with_ctrl feature (r ∷ rounds) cfg ≡ (failed no_mjpeg, cfg))
unfolding device_round
device_round-lost feature decode dev f screen t ticks rounds cfg new actual encode source built soft
      set none_there ctrl first asks =
    let asked : (run_sw_h264 dev f.has_ctrl f.keyframe_flag cfg f.sw_ticks).0
        ≡ failed (restart_message new) =
      rw (ctrl, first) (asks_restart dev f.keyframe_flag cfg new t ticks set asks) in
    let (mjpeg, lost) =
      run_with_ctrl-restart_lost feature (device_round decode dev f screen) rounds cfg new no_mjpeg
        source built refl soft asked in
    (
      mjpeg,
      lost (refuses decode dev f.has_ctrl f.keyframe_flag cfg f.mjpeg_ticks none_there)
          (no_mjpeg-restart_config cfg),
    )
