-- ===== src/Video/Pictures.antt =====
-- What the software capture loops of agent/src/video.rs give to the encoder.
use any_kvm.Common.{
  ℕ, ◌*◌, ◌≤◌, ◌≡◌, ◌≢◌, refl, Bool, true, false, not, Option, none, some, List, [], ◌∷◌, arith,
  if◌then◌else◌, All, length,
}
use any_kvm.Common.Bytes.{Bytes, codes}
use any_kvm.Common.Outcome.{Outcome, ok, err, panicked, out_of_fuel, Ensures}
use any_kvm.Common.Errors.{Succeeds-Ensures}
use any_kvm.Video.{TrySend, try_send_frame, channel_has_capacity}
use any_kvm.Video.Capture.{
  Tick, CaptureEnd, finished, crashed, failed, Encoding, encode_loop, commands,
}
use any_kvm.Common.Members.{All-mono}
use any_kvm.Config.{VideoConfig}
use any_kvm.Video.Control.{check_video_ctrl}
use any_kvm.Video.Frames.{IsEven, IsFrame}
use any_kvm.Video.Yuyv.{yuyv_to_yuv420, yuyv_to_yuv420-IsFrame}
use any_kvm.Video.Sources.{Jpeg, mjpeg_to_yuv420}
use any_kvm.Video.Conversions.{Decodes, mjpeg_to_yuv420-Ensures}
use any_kvm.Video.Devices.{Device, Encoder, Format, sw_set_up, run_sw_h264, run_mjpeg_h264}

-- The result of a capture function: no panic, and everything that the encoder got satisfies `P`.
abbrev pub IsSafe : (Bytes → Type 0) → CaptureEnd × List (Bool × Bytes) → Type 0
IsSafe P r = (r.0 ≢ crashed) × All (λ c. P c.1) r.1

failed-IsSafe : (P : Bytes → Type 0) (msg : Bytes) → IsSafe P (failed msg, [])
failed-IsSafe P msg = (λ e. ground (arith, e), tt)

module _ {E : Type 0} (has_ctrl : Bool) (convert : Bytes → Outcome E Bytes)
    (encode : Bool → Bytes → Option Bytes) (P : Bytes → Type 0) where
  abbrev pub Converts : Tick → Type 0
  Converts t = (buf : Bytes) → t.buffer ≡ some buf → Ensures (convert buf) P

  encoded-IsSafe :
      (answer : Option Bytes) (call : Bool × Bytes) (tried : TrySend)
      (encoded : CaptureEnd × List (Bool × Bytes))
      → P call.1
      → IsSafe P encoded
      → IsSafe P (elim answer [
        | none ↦ (failed (codes "openh264 encode error"), call ∷ [])
        | some [] ↦ (encoded.0, call ∷ encoded.1)
        | some (b ∷ bytes) ↦
            if try_send_frame tried then (encoded.0, call ∷ encoded.1) else (finished, call ∷ [])
      ])
  encoded-IsSafe none call tried encoded p h = (λ e. ground (arith, e), (p, tt))
  encoded-IsSafe (some []) call tried encoded p h = (h.0, (p, h.1))
  encoded-IsSafe (some (b ∷ bytes)) call tried encoded p h =
      elim (try_send_frame tried)
        as (λ b. IsSafe P (if b then (encoded.0, call ∷ encoded.1) else (finished, call ∷ []))) [
          | true ↦ (h.0, (p, h.1))
          | false ↦ (λ e. ground (arith, e), (p, tt))
        ]

  converted-IsSafe :
      (m : Outcome E Bytes) (skipped : CaptureEnd × List (Bool × Bytes))
      (k : Bytes → CaptureEnd × List (Bool × Bytes))
      → Ensures m P
      → IsSafe P skipped
      → ((yuv : Bytes) → P yuv → IsSafe P (k yuv))
      → IsSafe P (elim m [
        | err e ↦ skipped
        | panicked ↦ (crashed, [])
        | out_of_fuel ↦ (crashed, [])
        | ok yuv ↦ k yuv
      ])
  converted-IsSafe (ok yuv) skipped k h s g = g yuv h
  converted-IsSafe (err e) skipped k h s g = s
  converted-IsSafe panicked skipped k h s g = absurd h
  converted-IsSafe out_of_fuel skipped k h s g = absurd h

  -- The branches of a round.
  round-IsSafe :
      (restart full : Bool) (buffer : Option Bytes) (msg : Bytes)
      (idle : CaptureEnd × List (Bool × Bytes)) (k : Bytes → CaptureEnd × List (Bool × Bytes))
      → IsSafe P idle
      → ((buf : Bytes) → buffer ≡ some buf → IsSafe P (k buf))
      → IsSafe P (
          if restart
          then (failed msg, [])
          else if full
          then idle
          else elim buffer [ none ↦ (failed (codes "stream"), []) | some buf ↦ k buf ])
  round-IsSafe true full buffer msg idle k i h = failed-IsSafe P msg
  round-IsSafe false true buffer msg idle k i h = i
  round-IsSafe false false none msg idle k i h = failed-IsSafe P (codes "stream")
  round-IsSafe false false (some buf) msg idle k i h = h buf refl

  -- If every buffer of the device converts to something that satisfies `P`, or by an error, the loop
  -- does not panic and gives the encoder only such things.
  pub encode_loop-IsSafe :
      (ticks : List Tick) (s : Encoding)
      → All Converts ticks
      → IsSafe P (encode_loop has_ctrl convert encode s ticks)
  unfolding encode_loop
  encode_loop-IsSafe [] s h = (λ e. ground (arith, e), tt)
  encode_loop-IsSafe (t ∷ ticks) s h =
      round-IsSafe (check_video_ctrl (commands has_ctrl t) s.cfg).1
        (not (channel_has_capacity t.capacity)) t.buffer _ _ _ (encode_loop-IsSafe ticks _ h.1)
        (λ buf e.
          converted-IsSafe (convert buf) _ _ (h.0 buf e) (encode_loop-IsSafe ticks _ h.1)
            (λ yuv p. encoded-IsSafe _ _ t.send _ p (encode_loop-IsSafe ticks _ h.1)))

-- A buffer of the device, if there is one, has two bytes for each pixel.
abbrev pub IsYuyv : ℕ → ℕ → Tick → Type 0
IsYuyv w h t = (buf : Bytes) → t.buffer ≡ some buf → w * h * 2 ≤ length buf

yuyv-Converts :
    (w h : ℕ) (ticks : List Tick) (ew : IsEven w) (eh : IsEven h) (encode : Encoder)
    → All (IsYuyv w h) ticks
    → All (Converts true (λ buf. yuyv_to_yuv420 buf w h) encode (IsFrame w h)) ticks
yuyv-Converts w h ticks ew eh encode enough =
    All-mono (IsYuyv w h) _ ticks
      (λ t long buf e.
        Succeeds-Ensures (IsFrame w h) (yuyv_to_yuv420 buf w h)
          (yuyv_to_yuv420-IsFrame buf w h (long buf e) ew eh))
      enough

-- If the device is set up with an even size, and its buffers have two bytes for each pixel of that
-- size, then `run_sw_h264` does not panic, and each picture that the encoder gets is a frame of full
-- length, of the size that the device answered with.
pub run_sw_h264-IsSafe :
    (dev : Device) (has_ctrl flag : Bool) (cfg : VideoConfig) (ticks : List Tick) (actual : Format)
    (encode : Encoder)
    → sw_set_up "YUYV" (codes "device does not support YUYV for software encoding") dev cfg
      ≡ ok (actual, encode)
    → IsEven actual.width
    → IsEven actual.height
    → All (IsYuyv actual.width actual.height) ticks
    → IsSafe (IsFrame actual.width actual.height) (run_sw_h264 dev has_ctrl flag cfg ticks)
unfolding run_sw_h264
run_sw_h264-IsSafe dev has_ctrl flag cfg ticks actual encode set ew eh enough = rw set (
    encode_loop-IsSafe has_ctrl (λ buf. yuyv_to_yuv420 buf actual.width actual.height) encode
      (IsFrame actual.width actual.height) ticks _
      (yuyv-Converts actual.width actual.height ticks ew eh encode enough))

mjpeg-Converts :
    (decode : Bytes → Option Jpeg) (w h : ℕ) (encode : Encoder) (ticks : List Tick)
    → Decodes decode
    → IsEven w
    → IsEven h
    → All (Converts true (λ buf. mjpeg_to_yuv420 decode buf w h) encode (IsFrame w h)) ticks
mjpeg-Converts decode w h encode [] d ew eh = tt
mjpeg-Converts decode w h encode (t ∷ ticks) d ew eh = (
  λ buf e. mjpeg_to_yuv420-Ensures decode buf w h d ew eh,
  mjpeg-Converts decode w h encode ticks d ew eh,
)

-- If the device is set up with an even size, and the decoder gives no empty picture, then
-- `run_mjpeg_h264` does not panic, whatever the buffers hold, and each picture that the encoder gets
-- is a frame of full length, of the size that the device answered with.
pub run_mjpeg_h264-IsSafe :
    (decode : Bytes → Option Jpeg) (dev : Device) (has_ctrl flag : Bool) (cfg : VideoConfig)
    (ticks : List Tick) (actual : Format) (encode : Encoder)
    → sw_set_up "MJPG" (codes "device does not support MJPEG format") dev cfg ≡ ok (actual, encode)
    → Decodes decode
    → IsEven actual.width
    → IsEven actual.height
    → IsSafe
        (IsFrame actual.width actual.height)
        (run_mjpeg_h264 decode dev has_ctrl flag cfg ticks)
unfolding run_mjpeg_h264
run_mjpeg_h264-IsSafe decode dev has_ctrl flag cfg ticks actual encode set d ew eh = rw set (
    encode_loop-IsSafe has_ctrl (λ buf. mjpeg_to_yuv420 decode buf actual.width actual.height)
      encode (IsFrame actual.width actual.height) ticks _
      (mjpeg-Converts decode actual.width actual.height encode ticks d ew eh))
