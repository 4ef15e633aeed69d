-- ===== src/Video/Restarts.antt =====
-- The restarts of `run_with_ctrl` in agent/src/video.rs.
use text.Mathlib.Text.{◌==◌ as str_eq}
use any_kvm.Common.{◌≡◌, true, false, none, some, List, ◌∷◌, arith}
use any_kvm.Common.Bytes.{Bytes}
use any_kvm.Config.{VideoConfig}
use any_kvm.Hid.{VideoControl}
use any_kvm.Video.Capture.{CaptureEnd, failed}
use any_kvm.Video.Control.{drain, requested, drain-requested}
use any_kvm.Video.Restart.{
  restart_message, restart_config, IsU32Config, restart_config-restart_message,
}
use any_kvm.Video.Run.{Features, Round, ended, pass, after_pass, run_with_ctrl}

run_on :
    (feature : Features) (r : Round) (rounds : List Round) (cfg : VideoConfig) {cfg' : VideoConfig}
    → after_pass (pass feature r cfg) r.pending cfg ≡ (none, cfg')
    → run_with_ctrl feature (r ∷ rounds) cfg ≡ run_with_ctrl feature rounds cfg'
unfolding run_with_ctrl
run_on feature r rounds cfg e = ground arith

run_stop :
    (feature : Features) (r : Round) (rounds : List Round) (cfg : VideoConfig) {cfg' : VideoConfig}
    {end : CaptureEnd}
    → after_pass (pass feature r cfg) r.pending cfg ≡ (some end, cfg')
    → run_with_ctrl feature (r ∷ rounds) cfg ≡ (end, cfg')
unfolding run_with_ctrl
run_stop feature r rounds cfg e = ground arith

restarted :
    (new cfg : VideoConfig) (cmds : List VideoControl) {cfg' cfg'' : VideoConfig}
    → IsU32Config new
    → restart_config (restart_message new) cfg ≡ some cfg'
    → drain cmds cfg' ≡ cfg''
    → after_pass (ended (failed (restart_message new))) cmds cfg ≡ (none, cfg'')
unfolding after_pass
restarted new cfg cmds u e d = ground arith

not_restarted :
    (cmds : List VideoControl) (msg : Bytes) (cfg : VideoConfig)
    → restart_config msg cfg ≡ none
    → after_pass (ended (failed msg)) cmds cfg ≡ (some (failed msg), cfg)
unfolding after_pass
not_restarted cmds msg cfg e = ground arith

-- If a pass ends by a restart message, the next pass runs on the configuration with the message's
-- resolution and rate, changed by the commands that were still in the channel.
pub run_with_ctrl-restart :
    (feature : Features) (r : Round) (rounds : List Round) (cfg new : VideoConfig)
    → IsU32Config new
    → pass feature r cfg ≡ ended (failed (restart_message new))
    → run_with_ctrl feature (r ∷ rounds) cfg
      ≡ run_with_ctrl feature rounds (
          requested r.pending
            (record cfg { width = new.width; height = new.height; fps = new.fps }))
run_with_ctrl-restart feature r rounds cfg new u e = run_on feature r rounds cfg (
    rw e (
      restarted new cfg r.pending u (restart_config-restart_message new cfg u)
        (drain-requested r.pending _)))

lost_pass :
    (feature : Features) (r : Round) (cfg : VideoConfig) {msg : Bytes}
    → str_eq cfg.source "screen" ≡ false
    → feature.v4l2_capture ≡ true
    → r.opens ≡ true
    → cfg.hw_encode ≡ false
    → r.sw cfg ≡ failed msg
    → pass feature r cfg ≡ ended (r.mjpeg cfg)
unfolding pass
lost_pass feature r cfg source built opens soft lost = ground arith

-- On a V4L2 device without hardware encoding, a restart that the YUYV loop asks for is lost: it is
-- taken for a failure, and the MJPEG loop is started on the old configuration. If the device has no
-- MJPEG, `run_with_ctrl` returns that loop's error, and the video module ends.
pub run_with_ctrl-restart_lost :
    (feature : Features) (r : Round) (rounds : List Round) (cfg new : VideoConfig) (msg : Bytes)
    → str_eq cfg.source "screen" ≡ false
    → feature.v4l2_capture ≡ true
    → r.opens ≡ true
    → cfg.hw_encode ≡ false
    → r.sw cfg ≡ failed (restart_message new)
    → (pass feature r cfg ≡ ended (r.mjpeg cfg))
      × (r.mjpeg cfg ≡ failed msg
          → restart_config msg cfg ≡ none
          → run_with_ctrl feature (r ∷ rounds) cfg ≡ (failed msg, cfg))
run_with_ctrl-restart_lost feature r rounds cfg new msg source built opens soft lost =
    let first = lost_pass feature r cfg source built opens soft lost in
    (
      first,
      λ m n. run_stop feature r rounds cfg (rw (first, m) (not_restarted r.pending msg cfg n)),
    )
