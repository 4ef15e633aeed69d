-- ===== src/Video/DeviceRuns.antt =====
-- Runs of the capture functions on small devices, which the theorems on agent/src/video.rs are
-- applied to.
use any_kvm.Common.{
  ◌≢◌, ◌≡◌, refl, true, false, Option, none, some, [], ◌∷◌, arith, length, ap, sym,
}
use any_kvm.Common.Outcome.{ok, err, panicked, Succeeds}
use any_kvm.Common.Bytes.{Bytes, codes}
use any_kvm.Hid.{change_fps, send_control, control}
use any_kvm.Video.{sent}
use any_kvm.Video.Control.{check_video_ctrl}
use any_kvm.Video.Capture.{Tick, finished, failed}
use any_kvm.Video.Run.{ended, pass, run_with_ctrl}
use any_kvm.Video.Frames.{IsFrame}
use Prim.Native.String.{String}
use any_kvm.Video.Lost.{no_yuyv, no_mjpeg, device_round-lost}
use any_kvm.Video.Devices.{
  Device, Feed, device_round, Format, negotiate, sw_set_up, run_sw_h264, run_mjpeg_h264,
}
use any_kvm.Video.Pictures.{IsSafe, IsYuyv, run_sw_h264-IsSafe, run_mjpeg_h264-IsSafe}
use any_kvm.Video.Sources.{Jpeg, rgb24}
use any_kvm.Video.Conversions.{Decodes}
use any_kvm.Video.Shots.{IsShot, Shows, run_screen_capture-Shows}
use any_kvm.Video.Screen.{
  ready, would_block, grab_error, ScreenTick, Screen, run_screen_capture, control-panicked,
}
use any_kvm.Video.Runs.{
  old, wanted, commands, echo, waiting, delivering, both_built, yuyv, check_video_ctrl_test,
}

-- A decoder that takes three bytes for one pixel.
abbrev decode : Bytes → Option Jpeg
decode (r ∷ g ∷ b ∷ []) =
    some (record { pixels = r ∷ g ∷ b ∷ []; width = 1; height = 1; pixel_format = rgb24 })
decode _ = none

decode-Decodes : Decodes decode
decode-Decodes [] j e = absurd cc
decode-Decodes (r ∷ []) j e = absurd cc
decode-Decodes (r ∷ g ∷ []) j e = absurd cc
decode-Decodes (r ∷ g ∷ b ∷ []) j e =
    let w : j.width ≡ 1 = cc in let h : j.height ≡ 1 = cc in (omega arith, omega arith)
decode-Decodes (r ∷ g ∷ b ∷ a ∷ rest) j e = absurd cc

abbrev screen : Screen
screen = record { disp_w = 2; disp_h = 1; encode = echo }

thirty : old.fps ≢ 0
thirty e = omega arith

control-panicked_example :
    (control true (0x10 ∷ 0x02 ∷ 0 ∷ 0 ∷ 0 ∷ 0 ∷ 0 ∷ 0 ∷ [])
      ≡ ok (send_control (change_fps 0) ∷ []))
    × (check_video_ctrl (some (change_fps 0 ∷ [])) old ≡ (record old { fps = 0 }, true))
    × (run_screen_capture true screen none (record old { fps = 0 }) false [] ≡ panicked)
control-panicked_example = control-panicked 0 0 0 0 0 old true screen false [] thirty

-- A device of one picture size, which answers with the pixel format it is asked for.
abbrev small : Device
small = record {
  format = ok (record { width = 640; height = 480; fourcc = "YUYV" });
  set_format = λ fmt. ok (record fmt { width = 2; height = 2 });
  params = ok (record { interval = (1, 30) });
  set_params = λ params. ok params;
  stream = ok tt;
  encoder = λ bitrate_bps max_frame_rate. ok echo;
}

abbrev two_by_two : String → Format
two_by_two fourcc = record { width = 2; height = 2; fourcc = fourcc }

abbrev two_rows : Tick
two_rows = record delivering { buffer = some yuyv }

two_rows-IsYuyv : IsYuyv 2 2 two_rows
two_rows-IsYuyv buf e =
    let n : length buf ≡ 8 = ap (λ b. length (elim b [ none ↦ yuyv | some c ↦ c ])) (sym e) in
    omega arith

small-sw_set_up :
    sw_set_up "YUYV" (codes "device does not support YUYV for software encoding") small old
    ≡ ok (two_by_two "YUYV", echo)
unfolding sw_set_up negotiate
small-sw_set_up = refl

small-mjpeg_set_up :
    sw_set_up "MJPG" (codes "device does not support MJPEG format") small old
    ≡ ok (two_by_two "MJPG", echo)
unfolding sw_set_up negotiate
small-mjpeg_set_up = refl

run_sw_h264-IsSafe_example :
    IsSafe (IsFrame 2 2) (run_sw_h264 small true true old (waiting ∷ two_rows ∷ []))
run_sw_h264-IsSafe_example =
    run_sw_h264-IsSafe small true true old (waiting ∷ two_rows ∷ []) (two_by_two "YUYV") echo
      small-sw_set_up refl refl ((λ buf e. absurd cc), (two_rows-IsYuyv, tt))

run_mjpeg_h264-IsSafe_example :
    IsSafe (IsFrame 2 2) (run_mjpeg_h264 decode small true true old (delivering ∷ two_rows ∷ []))
run_mjpeg_h264-IsSafe_example =
    run_mjpeg_h264-IsSafe decode small true true old (delivering ∷ two_rows ∷ [])
      (two_by_two "MJPG") echo small-mjpeg_set_up decode-Decodes refl refl

-- A device that gives YUYV whatever it is asked for.
abbrev yuyv_only : Device
yuyv_only = record small { set_format = λ fmt. ok (two_by_two "YUYV") }

abbrev changed : Feed
changed = record {
  has_ctrl = true;
  keyframe_flag = false;
  hw_ticks = [];
  sw_ticks = record waiting { pending = commands } ∷ [];
  mjpeg_ticks = [];
  pending = [];
}

yuyv_only-sw_set_up : sw_set_up "YUYV" no_yuyv yuyv_only old ≡ ok (two_by_two "YUYV", echo)
unfolding sw_set_up negotiate
yuyv_only-sw_set_up = refl

yuyv_only-negotiate : negotiate "MJPG" no_mjpeg yuyv_only old ≡ err no_mjpeg
unfolding negotiate
yuyv_only-negotiate = refl

device_round-lost_example :
    let r = device_round decode yuyv_only changed (λ cfg. finished) in
    (pass both_built r old ≡ ended (run_mjpeg_h264 decode yuyv_only true false old []).0)
    × (run_with_ctrl both_built (r ∷ []) old ≡ (failed no_mjpeg, old))
device_round-lost_example =
    device_round-lost both_built decode yuyv_only changed (λ cfg. finished)
      (record waiting { pending = commands }) [] [] old wanted (two_by_two "YUYV") echo refl refl
      refl yuyv_only-sw_set_up yuyv_only-negotiate refl refl check_video_ctrl_test

-- A display of two pixels, and a picture of it.
abbrev shot : ScreenTick
shot = record {
  pending = [];
  keyframe_requested = true;
  grab = ready yuyv;
  capacity = 1;
  send = sent;
}

shot-IsShot : IsShot screen shot
shot-IsShot raw e =
    let n : length raw ≡ 8 =
      ap (λ g. length (elim g [ ready bytes ↦ bytes | would_block ↦ yuyv | grab_error ↦ yuyv ]))
        (sym e) in
    omega arith

run_screen_capture-Shows_example :
    Succeeds
      (run_screen_capture true screen none (record old { width = 2; height = 2 }) false (shot ∷ []))
      (Shows 2 2)
run_screen_capture-Shows_example =
    run_screen_capture-Shows true screen none (record old { width = 2; height = 2 }) false
      (shot ∷ []) thirty (omega arith) (omega arith) refl refl (shot-IsShot, tt)
