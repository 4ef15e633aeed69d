-- ===== src/Video/Devices.antt =====
-- The capture functions of agent/src/video.rs as a whole: `try_hw_h264`, `run_sw_h264` and
-- `run_mjpeg_h264` set the device up, and go on with the loops of Video/Capture. The device (the
-- `v4l` crate) and the encoder (`openh264`) are arguments, and so is the JPEG decoder.
use text.Mathlib.Text.{◌==◌ as str_eq}
use Prim.Native.String.{String}
use any_kvm.Common.{ℕ, ◌*◌, ◌%◌, ◌^◌, Bool, true, false, Option, List, [], if◌then◌else◌}
use any_kvm.Common.Bytes.{Bytes, codes}
use any_kvm.Common.Outcome.{Outcome, ok, err, panicked, out_of_fuel, ◌>>=◌}
use any_kvm.Common.Errors.{context}
use any_kvm.Config.{VideoConfig}
use any_kvm.Video.Capture.{Tick, CaptureEnd, crashed, failed, hw_loop, encode_loop}
use any_kvm.Hid.{VideoControl}
use any_kvm.Video.Run.{Round}
use any_kvm.Video.Sources.{Jpeg, mjpeg_to_yuv420}
use any_kvm.Video.Yuyv.{yuyv_to_yuv420}

-- The fields of `v4l::Format` and `v4l::video::capture::Parameters` that the code touches.
pub record Format : Type 0 where
  pub width : ℕ
  pub height : ℕ
  pub fourcc : String

pub record Params : Type 0 where
  pub interval : ℕ × ℕ

-- An encoder, told whether its next frame has to be an IDR frame.
abbrev pub Encoder : Type 0
Encoder = Bool → Bytes → Option Bytes

-- What the calls answer. `encoder` is given the bit rate and the frame rate.
pub record Device : Type 0 where
  pub format : Outcome Bytes Format
  pub set_format : Format → Outcome Bytes Format
  pub params : Outcome Bytes Params
  pub set_params : Params → Outcome Bytes Params
  pub stream : Outcome Bytes (Unit {0})
  pub encoder : ℕ → ℕ → Outcome Bytes Encoder

-- Up to `dev.set_params(&params)?`: the same lines in the three functions, but for the pixel format
-- and the refusal.
unfoldable pub negotiate : String → Bytes → Device → VideoConfig → Outcome Bytes Format
negotiate fourcc refusal dev cfg = do
  fmt ← dev.format
  actual ← dev.set_format (record fmt { width = cfg.width; height = cfg.height; fourcc = fourcc })
  if str_eq actual.fourcc fourcc
      then (do
        params ← dev.params
        set ← dev.set_params (record params { interval = (1, cfg.fps) })
        ok actual)
      else err refusal

unfoldable pub hw_set_up : Device → VideoConfig → Outcome Bytes Format
unfolding negotiate
hw_set_up dev cfg = do
  actual ← negotiate "H264" (codes "device does not support H264 output format") dev cfg
  opened ← context dev.stream (codes "failed to create V4L2 mmap stream")
  ok actual

-- The encoder of the software functions. `cfg.bitrate_kbps * 1000` is a product of `u32`.
unfoldable pub sw_set_up : String → Bytes → Device → VideoConfig → Outcome Bytes (Format × Encoder)
unfolding negotiate
sw_set_up fourcc refusal dev cfg = do
  actual ← negotiate fourcc refusal dev cfg
  encode ←
      context (dev.encoder (cfg.bitrate_kbps * 1000 % 2 ^ 32) cfg.fps)
        (codes "failed to init openh264 encoder")
  opened ← dev.stream
  ok (actual, encode)

-- A set-up, and the loop after it.
abbrev pub then_loop :
    {A C : Type 0} → Outcome Bytes A → (A → CaptureEnd × List C) → CaptureEnd × List C
then_loop (ok a) loop = loop a
then_loop (err e) loop = (failed e, [])
then_loop panicked loop = (crashed, [])
then_loop out_of_fuel loop = (crashed, [])

unfoldable pub try_hw_h264 : Device → Bool → VideoConfig → List Tick → CaptureEnd × List Bytes
unfolding hw_set_up hw_loop
try_hw_h264 dev has_ctrl cfg ticks =
    then_loop (hw_set_up dev cfg) (λ fmt. hw_loop has_ctrl cfg ticks)

-- The third argument is the keyframe flag at the call.
unfoldable pub run_sw_h264 :
    Device → Bool → Bool → VideoConfig → List Tick → CaptureEnd × List (Bool × Bytes)
unfolding sw_set_up encode_loop yuyv_to_yuv420
run_sw_h264 dev has_ctrl flag cfg ticks =
    then_loop
      (sw_set_up "YUYV" (codes "device does not support YUYV for software encoding") dev cfg)
      (λ (actual, encode).
        encode_loop has_ctrl (λ buf. yuyv_to_yuv420 buf actual.width actual.height) encode
          (record { cfg = cfg; keyframe_flag = flag; forced = false }) ticks)

unfoldable pub run_mjpeg_h264 :
    (Bytes → Option Jpeg)
    → Device
    → Bool
    → Bool
    → VideoConfig
    → List Tick
    → CaptureEnd × List (Bool × Bytes)
unfolding sw_set_up encode_loop mjpeg_to_yuv420
run_mjpeg_h264 decode dev has_ctrl flag cfg ticks =
    then_loop (sw_set_up "MJPG" (codes "device does not support MJPEG format") dev cfg)
      (λ (actual, encode).
        encode_loop has_ctrl (λ buf. mjpeg_to_yuv420 decode buf actual.width actual.height) encode
          (record { cfg = cfg; keyframe_flag = flag; forced = false }) ticks)

-- What the loops meet in one pass of `run_with_ctrl`, and the commands still in the channel after it.
pub record Feed : Type 0 where
  pub has_ctrl : Bool
  pub keyframe_flag : Bool
  pub hw_ticks : List Tick
  pub sw_ticks : List Tick
  pub mjpeg_ticks : List Tick
  pub pending : List VideoControl

-- A pass of `run_with_ctrl` on a device that opens. The screen is an argument.
unfoldable pub device_round :
    (Bytes → Option Jpeg) → Device → Feed → (VideoConfig → CaptureEnd) → Round
unfolding try_hw_h264 run_sw_h264 run_mjpeg_h264
device_round decode dev f screen = record {
  opens = true;
  screen = screen;
  hw = λ cfg. (try_hw_h264 dev f.has_ctrl cfg f.hw_ticks).0;
  sw = λ cfg. (run_sw_h264 dev f.has_ctrl f.keyframe_flag cfg f.sw_ticks).0;
  mjpeg = λ cfg. (run_mjpeg_h264 decode dev f.has_ctrl f.keyframe_flag cfg f.mjpeg_ticks).0;
  pending = f.pending;
}
