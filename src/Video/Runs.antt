-- ===== src/Video/Runs.antt =====
-- Runs of the video module on small inputs, which the theorems on agent/src/video.rs are applied to.
use any_kvm.Common.{
  ◌≤◌, ◌≡◌, refl, Bool, true, false, Option, none, some, List, [], ◌∷◌, ◌++◌, arith,
}
use any_kvm.Common.Outcome.{Outcome, at, ok}
use any_kvm.Common.Bytes.{Bytes, codes}
use any_kvm.Config.{VideoConfig}
use any_kvm.Hid.{VideoControl, change_resolution, change_fps}
use any_kvm.Video.{sent}
use any_kvm.Video.Control.{check_all, check_video_ctrl, requested, check_video_ctrl-requested}
use any_kvm.Video.Restart.{
  restart_message, restart_config, IsU32Config, restart_config-restart_message,
}
use any_kvm.Video.Capture.{Tick, finished, failed, Encoding, encode_loop, first_call, keyframe_kept}
use any_kvm.Video.Run.{Features, Round, ended, pass}
use any_kvm.Video.Yuyv.{yuyv_to_yuv420}
use any_kvm.Video.Colour.{luma, chroma_u, chroma_v, limited_range}

abbrev pub old : VideoConfig
old = record {
  source = "v4l2";
  device = "/dev/video0";
  width = 1920;
  height = 1080;
  fps = 30;
  bitrate_kbps = 4000;
  hw_encode = false;
}

abbrev pub wanted : VideoConfig
wanted = record old { width = 640; height = 480; fps = 15 }

abbrev pub commands : List VideoControl
commands = change_resolution 640 480 ∷ change_fps 60 ∷ change_fps 15 ∷ []

pub check_video_ctrl_test : check_video_ctrl (some commands) old ≡ (wanted, true)
unfolding check_video_ctrl check_all
check_video_ctrl_test = refl

check_video_ctrl-requested_example :
    let r = check_video_ctrl (some commands) old in
    (r.0 ≡ requested commands old) × (r.1 ≡ false → r.0 ≡ old)
check_video_ctrl-requested_example = check_video_ctrl-requested commands old

wanted-IsU32Config : IsU32Config wanted
wanted-IsU32Config = record { width = omega arith; height = omega arith; fps = omega arith }

restart_config-restart_message_example :
    restart_config (restart_message wanted) old
    ≡ some (record old { width = 640; height = 480; fps = 15 })
restart_config-restart_message_example =
    restart_config-restart_message wanted old wanted-IsU32Config

-- An encoder that answers with the frame, and a conversion that changes nothing.
abbrev pub echo : Bool → Bytes → Option Bytes
echo forced yuv = some yuv

abbrev plain : Bytes → Outcome ⊥ Bytes
plain buf = ok buf

abbrev requesting : Encoding
requesting = record { cfg = old; keyframe_flag = true; forced = false }

abbrev pub waiting : Tick
waiting = record {
  pending = [];
  keyframe_requested = false;
  capacity = 0;
  buffer = none;
  send = sent;
}

abbrev pub delivering : Tick
delivering = record waiting { capacity = 3; buffer = some (1 ∷ 2 ∷ []) }

keyframe_kept_example :
    first_call
      (encode_loop true plain echo requesting ((waiting ∷ waiting ∷ []) ++ (delivering ∷ []))).1
    ≡ some (true, 1 ∷ 2 ∷ [])
keyframe_kept_example =
    keyframe_kept true plain echo (waiting ∷ waiting ∷ []) requesting delivering [] {room = 2}
      {buf = 1 ∷ 2 ∷ []} {yuv = 1 ∷ 2 ∷ []} ((refl, refl), ((refl, refl), tt)) refl refl refl refl
      refl

abbrev pub both_built : Features
both_built = record { v4l2_capture = true; screen_capture = false }

-- The YUYV loop asks for a restart, and the device has no MJPEG.
abbrev restarting : Round
restarting = record {
  opens = true;
  screen = λ cfg. finished;
  hw = λ cfg. finished;
  sw = λ cfg. failed (restart_message wanted);
  mjpeg = λ cfg. failed (codes "format");
  pending = change_fps 25 ∷ [];
}

-- The MJPEG loop asks for it.
abbrev restarting_mjpeg : Round
restarting_mjpeg = record restarting { mjpeg = λ cfg. failed (restart_message wanted) }

mjpeg_pass : pass both_built restarting_mjpeg old ≡ ended (failed (restart_message wanted))
unfolding pass
mjpeg_pass = refl

limited_range_example :
    ((16 ≤ luma 255 0 128) × (luma 255 0 128 ≤ 235))
    × ((16 ≤ chroma_u 255 0 128) × (chroma_u 255 0 128 ≤ 240))
    × ((16 ≤ chroma_v 255 0 128) × (chroma_v 255 0 128 ≤ 240))
limited_range_example = limited_range 255 0 128 (omega arith) (omega arith) (omega arith)

-- Two rows of two pixels.
abbrev pub yuyv : Bytes
yuyv = 1 ∷ 2 ∷ 3 ∷ 4 ∷ 5 ∷ 6 ∷ 7 ∷ 8 ∷ []

yuyv_to_yuv420_test : yuyv_to_yuv420 yuyv 2 2 ≡ ok (1 ∷ 3 ∷ 5 ∷ 7 ∷ 2 ∷ 4 ∷ [])
unfolding yuyv_to_yuv420 at
yuyv_to_yuv420_test = refl
