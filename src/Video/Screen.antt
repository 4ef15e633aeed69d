-- ===== src/Video/Screen.antt =====
-- `run_screen_capture` of agent/src/video.rs. A `ScreenTick` is what one round of its loop meets:
-- the commands in the channel, a keyframe request made meanwhile, what the capturer gives, the room
-- in the frame channel, and what `try_send` answers. The pacing of the frames is not modelled, but
-- for the division in it.
use any_kvm.Common.{
  ℕ, ◌/◌, ◌≡◌, ◌≢◌, refl, Bool, true, false, not, ◌||◌, Option, none, some, List, [], ◌∷◌, arith,
  ltb, ◌==◌, if◌then◌else◌, length,
}
use any_kvm.Common.Bytes.{Bytes, codes}
use any_kvm.Common.Outcome.{Outcome, ok, panicked, ◌>>=◌, at}
use any_kvm.Config.{VideoConfig}
use any_kvm.Hid.{VideoControl, change_fps, send_control, control}
use any_kvm.Video.{TrySend, try_send_frame, channel_has_capacity}
use any_kvm.Video.Capture.{CaptureEnd, finished, running, failed, Encoding}
use any_kvm.Video.Control.{check_video_ctrl, check_all}
use any_kvm.Video.Restart.{restart_message}
use any_kvm.Video.Sources.{bgra_to_yuv420}

pub data Grab : Type 0 where
  ready : Bytes → Grab
  would_block : Grab
  grab_error : Grab

pub record ScreenTick : Type 0 where
  pub pending : List VideoControl
  pub keyframe_requested : Bool
  pub grab : Grab
  pub capacity : ℕ
  pub send : TrySend

-- The display, and its encoder.
pub record Screen : Type 0 where
  pub disp_w : ℕ
  pub disp_h : ℕ
  pub encode : Bool → Bytes → Option Bytes

-- `if cfg.width > 0 { cfg.width } else { disp_w }`
abbrev pub or_native : ℕ → ℕ → ℕ
or_native size native = if ltb 0 size then size else native

-- `Duration::from_nanos(1_000_000_000 / cfg.fps as u64)`
unfoldable pub frame_interval : ℕ → Outcome ⊥ ℕ
frame_interval fps = if fps == 0 then panicked else ok (1000000000 / fps)

-- `let stride = raw.len() / disp_h;` and the conversion.
unfoldable pub to_yuv : Screen → ℕ → ℕ → Bytes → Outcome ⊥ Bytes
unfolding bgra_to_yuv420
to_yuv d enc_w enc_h raw =
    if d.disp_h == 0
    then panicked
    else bgra_to_yuv420 raw (length raw / d.disp_h) d.disp_w d.disp_h enc_w enc_h

-- What the encoder gives for a frame that is not empty is sent. `more` is the rest of the loop.
unfoldable pub deliver :
    TrySend
    → Option Bytes
    → (Bool × Bytes)
    → Outcome ⊥ (CaptureEnd × List (Bool × Bytes))
    → Outcome ⊥ (CaptureEnd × List (Bool × Bytes))
unfolding try_send_frame
deliver answer none call more = ok (failed (codes "openh264 encode error"), call ∷ [])
deliver answer (some []) call more = more >>= λ m. ok (m.0, call ∷ m.1)
deliver answer (some (b ∷ bytes)) call more =
    if try_send_frame answer then (more >>= λ m. ok (m.0, call ∷ m.1)) else ok (finished, call ∷ [])

module _ (has_ctrl : Bool) (d : Screen) (enc_w enc_h : ℕ) where
  -- What was given to the encoder, each with whether it had to be an IDR frame.
  unfoldable pub screen_loop :
      Encoding → List ScreenTick → Outcome ⊥ (CaptureEnd × List (Bool × Bytes))
  unfolding channel_has_capacity to_yuv deliver
  screen_loop s [] = ok (running, [])
  screen_loop s (t ∷ ticks) =
      let (cfg', restart) = check_video_ctrl (if has_ctrl then some t.pending else none) s.cfg in
      let s' = record s { cfg = cfg'; keyframe_flag = s.keyframe_flag || t.keyframe_requested } in
      let idle = screen_loop s' ticks in
      let forced = s'.forced || s'.keyframe_flag in
      let encoded = screen_loop (record s' { keyframe_flag = false; forced = false }) ticks in
      if restart then ok (failed (restart_message cfg'), []) else elim t.grab [
        | would_block ↦ idle
        | grab_error ↦ ok (failed (codes "capture"), [])
        | ready raw ↦
            if not (channel_has_capacity t.capacity)
            then idle
            else (to_yuv d enc_w enc_h raw >>= λ yuv.
                deliver t.send (d.encode forced yuv) (forced, yuv) encoded)
      ]

-- `opens` is the error of setting the display, the capturer or the encoder up, if there is one.
unfoldable pub run_screen_capture :
    Bool
    → Screen
    → (opens : Option Bytes) → VideoConfig
    → Bool
    → List ScreenTick
    → Outcome ⊥ (CaptureEnd × List (Bool × Bytes))
unfolding frame_interval screen_loop
run_screen_capture has_ctrl d (some msg) cfg keyframe_flag ticks = ok (failed msg, [])
run_screen_capture has_ctrl d none cfg keyframe_flag ticks = frame_interval cfg.fps >>= λ interval.
    screen_loop has_ctrl d (or_native cfg.width d.disp_w) (or_native cfg.height d.disp_h)
      (record { cfg = cfg; keyframe_flag = keyframe_flag; forced = false }) ticks

-- A browser can end the agent while it captures the screen: the control frame that asks for the rate
-- 0 is passed on as it is, `check_video_ctrl` takes it for a change that needs a restart, unless the
-- rate is 0 already, and screen capture on the new configuration divides by 0 once the capturer
-- and the encoder are set up.
pub control-panicked :
    (w h x y z : ℕ) (cfg : VideoConfig) (has_ctrl : Bool) (d : Screen) (flag : Bool)
    (ticks : List ScreenTick)
    → cfg.fps ≢ 0
    → (control true (0x10 ∷ 0x02 ∷ 0 ∷ w ∷ h ∷ x ∷ y ∷ z ∷ [])
        ≡ ok (send_control (change_fps 0) ∷ []))
      × (check_video_ctrl (some (change_fps 0 ∷ [])) cfg ≡ (record cfg { fps = 0 }, true))
      × (run_screen_capture has_ctrl d none (record cfg { fps = 0 }) flag ticks ≡ panicked)
unfolding control at check_video_ctrl check_all run_screen_capture
control-panicked w h x y z cfg has_ctrl d flag ticks n = (refl, ground arith, refl)
