-- ===== src/Video/Capture.antt =====
-- The capture loops of agent/src/video.rs: `try_hw_h264`, `run_sw_h264` and `run_mjpeg_h264` from
-- their `loop` on. A `Tick` is what one round of the loop meets: the commands in the channel, a
-- keyframe request made meanwhile, the room in the frame channel, the buffer that the device
-- delivers, and what `try_send` answers. The encoder is an argument.
use any_kvm.Common.{
  ℕ, suc, ◌≡◌, Bool, true, false, not, ◌||◌, Option, none, some, List, [], ◌∷◌, ◌++◌, arith,
  if◌then◌else◌, All,
}
use any_kvm.Common.Bytes.{Bytes, codes}
use any_kvm.Common.Outcome.{Outcome, ok, err, panicked, out_of_fuel}
use any_kvm.Config.{VideoConfig}
use any_kvm.Hid.{VideoControl}
use any_kvm.Video.{TrySend, try_send_frame, channel_has_capacity}
use any_kvm.Video.Control.{check_video_ctrl}
use any_kvm.Video.Restart.{restart_message}

pub record Tick : Type 0 where
  pub pending : List VideoControl
  pub keyframe_requested : Bool
  pub capacity : ℕ
  pub buffer : Option Bytes
  pub send : TrySend

-- `running` is no end of the code: no further round was looked at. `crashed` is a panic.
pub data CaptureEnd : Type 0 where
  finished running crashed : CaptureEnd
  failed : Bytes → CaptureEnd

-- The pending commands, if there is a command channel.
abbrev pub commands : Bool → Tick → Option (List VideoControl)
commands has_ctrl t = if has_ctrl then some t.pending else none

module _ (has_ctrl : Bool) where
  -- The frames that were offered to the channel, in order.
  unfoldable pub hw_loop : VideoConfig → List Tick → CaptureEnd × List Bytes
  unfolding try_send_frame channel_has_capacity
  hw_loop cfg [] = (running, [])
  hw_loop cfg (t ∷ ticks) =
      let (cfg', restart) = check_video_ctrl (commands has_ctrl t) cfg in
      let rest = hw_loop cfg' ticks in
      if restart
      then (failed (restart_message cfg'), [])
      else if not (channel_has_capacity t.capacity)
      then rest
      else elim t.buffer [
        | none ↦ (failed (codes "stream"), [])
        | some buf ↦ if try_send_frame t.send then (rest.0, buf ∷ rest.1) else (finished, buf ∷ [])
      ]

-- The variables of the software loops, the shared keyframe flag, and whether the encoder was told
-- to make its next frame an IDR frame.
pub record Encoding : Type 0 where
  pub cfg : VideoConfig
  pub keyframe_flag : Bool
  pub forced : Bool

-- A round with nothing to do but wait for the frame channel.
abbrev pub IsIdle : Tick → Type 0
IsIdle t = (t.pending ≡ []) × (t.capacity ≡ 0)

-- The first thing that goes to the encoder.
abbrev pub first_call : List (Bool × Bytes) → Option (Bool × Bytes)
first_call [] = none
first_call (c ∷ cs) = some c

module _ {E : Type 0} (has_ctrl : Bool) (convert : Bytes → Outcome E Bytes)
    (encode : Bool → Bytes → Option Bytes) where
  -- `keyframe_flag.swap(false)` and `force_intra_frame`
  abbrev pub take_flag : Encoding → Encoding
  take_flag s = record s { keyframe_flag = false; forced = s.forced || s.keyframe_flag }

  -- What was given to the encoder, each with whether it had to be an IDR frame. A buffer that does
  -- not convert is skipped: only the MJPEG loop has such buffers.
  unfoldable pub encode_loop : Encoding → List Tick → CaptureEnd × List (Bool × Bytes)
  unfolding try_send_frame channel_has_capacity
  encode_loop s [] = (running, [])
  encode_loop s (t ∷ ticks) =
      let (cfg', restart) = check_video_ctrl (commands has_ctrl t) s.cfg in
      let s' = record s { cfg = cfg'; keyframe_flag = s.keyframe_flag || t.keyframe_requested } in
      let idle = encode_loop s' ticks in
      let skipped = encode_loop (take_flag s') ticks in
      let encoded = encode_loop (record (take_flag s') { forced = false }) ticks in
      if restart
      then (failed (restart_message cfg'), [])
      else if not (channel_has_capacity t.capacity)
      then idle
      else elim t.buffer [
        | none ↦ (failed (codes "stream"), [])
        | some buf ↦ elim (convert buf) [
          | err e ↦ skipped
          | panicked ↦ (crashed, [])
          | out_of_fuel ↦ (crashed, [])
          | ok yuv ↦
              let call : Bool × Bytes = ((take_flag s').forced, yuv) in
              elim (encode (take_flag s').forced yuv) [
                | none ↦ (failed (codes "openh264 encode error"), call ∷ [])
                | some [] ↦ (encoded.0, call ∷ encoded.1)
                | some (b ∷ bytes) ↦
                    if try_send_frame t.send
                    then (encoded.0, call ∷ encoded.1)
                    else (finished, call ∷ [])
              ]
        ]
      ]

  encode_loop_now :
      (s : Encoding) (t : Tick) (ticks : List Tick) {room : ℕ} {buf yuv : Bytes}
      → t.pending ≡ []
      → t.capacity ≡ suc room
      → t.buffer ≡ some buf
      → convert buf ≡ ok yuv
      → s.keyframe_flag ≡ true
      → first_call (encode_loop s (t ∷ ticks)).1 ≡ some (true, yuv)
  unfolding encode_loop check_video_ctrl
  encode_loop_now s t ticks p c b v k = ground arith

  encode_loop_idle :
      (s : Encoding) (t : Tick) (ticks : List Tick)
      → IsIdle t
      → encode_loop s (t ∷ ticks)
        ≡ encode_loop (record s { keyframe_flag = s.keyframe_flag || t.keyframe_requested }) ticks
  unfolding encode_loop check_video_ctrl
  encode_loop_idle s t ticks h = ground arith

  or_true : (b : Bool) {a : Bool} → a ≡ true → (a || b) ≡ true
  or_true b e = ground arith

  -- A keyframe request is not lost while the frame channel is full: after any number of such rounds
  -- the next buffer that converts is the first that the encoder gets, as an IDR frame.
  pub keyframe_kept :
      (idle : List Tick) (s : Encoding) (t : Tick) (ticks : List Tick) {room : ℕ} {buf yuv : Bytes}
      → All IsIdle idle
      → t.pending ≡ []
      → t.capacity ≡ suc room
      → t.buffer ≡ some buf
      → convert buf ≡ ok yuv
      → s.keyframe_flag ≡ true
      → first_call (encode_loop s (idle ++ (t ∷ ticks))).1 ≡ some (true, yuv)
  keyframe_kept [] s t ticks h p c b v k = encode_loop_now s t ticks p c b v k
  keyframe_kept (i ∷ idle) s t ticks h p c b v k =
      rw (encode_loop_idle s i (idle ++ (t ∷ ticks)) h.0) (
        keyframe_kept idle (record s { keyframe_flag = s.keyframe_flag || i.keyframe_requested }) t
          ticks h.1 p c b v (or_true i.keyframe_requested k))
