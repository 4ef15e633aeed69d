-- ===== src/Video/Shots.antt =====
-- What the screen capture of agent/src/video.rs gives to the encoder.
use native.Mathlib.Nat.{div-mul-le_self, le-div_iff_mul-le}
use any_kvm.Common.{
  ℕ, ◌*◌, ◌/◌, ◌≤◌, ◌<◌, ◌≡◌, ◌≢◌, refl, Bool, true, false, not, Option, none, some, List, [], ◌∷◌,
  arith, ◌==◌, if◌then◌else◌, All, length, Bool-cases, inl, inr,
}
use any_kvm.Common.Bytes.{Bytes, codes}
use any_kvm.Common.Outcome.{Outcome, ok, Succeeds, Succeeds-bind}
use any_kvm.Config.{VideoConfig}
use any_kvm.Video.{TrySend, try_send_frame, channel_has_capacity}
use any_kvm.Video.Capture.{CaptureEnd, failed, Encoding}
use any_kvm.Video.Control.{check_video_ctrl}
use any_kvm.Video.Frames.{IsEven, IsFrame}
use any_kvm.Video.Conversions.{bgra_to_yuv420-IsFrame}
use any_kvm.Video.Screen.{
  Grab, ready, would_block, grab_error, ScreenTick, Screen, or_native, frame_interval, to_yuv,
  deliver, screen_loop, run_screen_capture,
}

-- Everything that the encoder got is a frame of the size.
abbrev pub Shows : ℕ → ℕ → CaptureEnd × List (Bool × Bytes) → Type 0
Shows w h r = All (λ c. IsFrame w h c.1) r.1

-- A picture of the display holds four bytes for each pixel.
abbrev pub IsShot : Screen → ScreenTick → Type 0
IsShot d t = (raw : Bytes) → t.grab ≡ ready raw → d.disp_w * 4 * d.disp_h ≤ length raw

to_yuv-IsFrame :
    (d : Screen) (w h : ℕ) (raw : Bytes)
    → 0 < d.disp_w
    → 0 < d.disp_h
    → IsEven w
    → IsEven h
    → d.disp_w * 4 * d.disp_h ≤ length raw
    → Succeeds (to_yuv d w h raw) (IsFrame w h)
unfolding to_yuv
to_yuv-IsFrame d w h raw pw ph ew eh enough =
    let some_rows : (d.disp_h == 0) ≡ false = ground arith in
    let wide : d.disp_w * 4 ≤ length raw / d.disp_h = (le-div_iff_mul-le ph).1 enough in
    rw some_rows (
      bgra_to_yuv420-IsFrame raw (length raw / d.disp_h) d.disp_w d.disp_h w h wide
        (div-mul-le_self (length raw) d.disp_h) pw ph ew eh)

deliver-Shows :
    (w h : ℕ) (answer : TrySend) (coded : Option Bytes) (forced : Bool) (yuv : Bytes)
    (more : Outcome ⊥ (CaptureEnd × List (Bool × Bytes)))
    → IsFrame w h yuv
    → Succeeds more (Shows w h)
    → Succeeds (deliver answer coded (forced, yuv) more) (Shows w h)
unfolding deliver
deliver-Shows w h answer none forced yuv more p m = (p, tt)
deliver-Shows w h answer (some []) forced yuv more p m =
    Succeeds-bind (Shows w h) (Shows w h) more _ m (λ r q. (p, q))
deliver-Shows w h answer (some (b ∷ bytes)) forced yuv more p m =
    elim (Bool-cases (try_send_frame answer)) [
      | inl e ↦ rw e (Succeeds-bind (Shows w h) (Shows w h) more _ m (λ r q. (p, q)))
      | inr e ↦ rw e (p, tt)
    ]

-- The branches of a round.
round-Shows :
    (w h : ℕ) (restart full : Bool) (grab : Grab) (msg : Bytes)
    (idle : Outcome ⊥ (CaptureEnd × List (Bool × Bytes)))
    (k : Bytes → Outcome ⊥ (CaptureEnd × List (Bool × Bytes)))
    → Succeeds idle (Shows w h)
    → ((raw : Bytes) → grab ≡ ready raw → Succeeds (k raw) (Shows w h))
    → Succeeds
        (if restart then ok (failed msg, []) else elim grab [
          | would_block ↦ idle
          | grab_error ↦ ok (failed (codes "capture"), [])
          | ready raw ↦ if full then idle else k raw
        ])
        (Shows w h)
round-Shows w h true full grab msg idle k i s = tt
round-Shows w h false full would_block msg idle k i s = i
round-Shows w h false full grab_error msg idle k i s = tt
round-Shows w h false true (ready raw) msg idle k i s = i
round-Shows w h false false (ready raw) msg idle k i s = s raw refl

screen_loop-Shows :
    (has_ctrl : Bool) (d : Screen) (w h : ℕ) (ticks : List ScreenTick) (s : Encoding)
    → 0 < d.disp_w
    → 0 < d.disp_h
    → IsEven w
    → IsEven h
    → All (IsShot d) ticks
    → Succeeds (screen_loop has_ctrl d w h s ticks) (Shows w h)
unfolding screen_loop
screen_loop-Shows has_ctrl d w h [] s pw ph ew eh a = tt
screen_loop-Shows has_ctrl d w h (t ∷ ticks) s pw ph ew eh a =
    round-Shows w h (check_video_ctrl (if has_ctrl then some t.pending else none) s.cfg).1
      (not (channel_has_capacity t.capacity)) t.grab _ _ _
      (screen_loop-Shows has_ctrl d w h ticks _ pw ph ew eh a.1)
      (λ raw e.
        Succeeds-bind (IsFrame w h) (Shows w h) (to_yuv d w h raw) _
          (to_yuv-IsFrame d w h raw pw ph ew eh (a.0 raw e))
          (λ yuv p.
            deliver-Shows w h t.send _ _ yuv _ p
              (screen_loop-Shows has_ctrl d w h ticks _ pw ph ew eh a.1)))

-- On a display that is not empty, with a rate that is not 0 and an even size, `run_screen_capture`
-- does not panic, and each picture that the encoder gets is a frame of full length, of the configured
-- size or, where that is 0, of the display's, if each picture of the display holds four bytes for
-- each pixel.
pub run_screen_capture-Shows :
    (has_ctrl : Bool) (d : Screen) (opens : Option Bytes) (cfg : VideoConfig) (flag : Bool)
    (ticks : List ScreenTick)
    → cfg.fps ≢ 0
    → 0 < d.disp_w
    → 0 < d.disp_h
    → IsEven (or_native cfg.width d.disp_w)
    → IsEven (or_native cfg.height d.disp_h)
    → All (IsShot d) ticks
    → Succeeds
        (run_screen_capture has_ctrl d opens cfg flag ticks)
        (Shows (or_native cfg.width d.disp_w) (or_native cfg.height d.disp_h))
unfolding run_screen_capture frame_interval
run_screen_capture-Shows has_ctrl d (some msg) cfg flag ticks n pw ph ew eh a = tt
run_screen_capture-Shows has_ctrl d none cfg flag ticks n pw ph ew eh a =
    let fast : (cfg.fps == 0) ≡ false = ground (arith, n) in
    rw fast (
      screen_loop-Shows has_ctrl d (or_native cfg.width d.disp_w) (or_native cfg.height d.disp_h)
        ticks _ pw ph ew eh a)
