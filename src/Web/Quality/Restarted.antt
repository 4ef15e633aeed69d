-- ===== src/Web/Quality/Restarted.antt =====
-- From the page's request to the next pass of the capture: web/app.js, agent/src/hid.rs and
-- agent/src/video.rs together.
use text.Mathlib.Text.{◌==◌ as str_eq}
use any_kvm.Common.{
  ℕ, ◌≡◌, ◌≢◌, sym, ap, ap₂, ◌∙◌, Bool, true, false, none, some, List, [], ◌∷◌, ◌++◌, ◌||◌, arith,
  All, Bool-cases, inl, inr,
}
use any_kvm.Common.Bytes.{Bytes}
use any_kvm.Common.Outcome.{Outcome, ok}
use any_kvm.Config.{VideoConfig}
use any_kvm.Hid.{VideoControl, change_resolution, change_fps, Effect, send_control}
use any_kvm.Hid.Gadget.{Gadget, run_gadget}
use any_kvm.Hid.Modes.{commands}
use any_kvm.Video.Capture.{failed, Encoding}
use any_kvm.Video.Control.{check_video_ctrl, check_video_ctrl-requested, requested}
use any_kvm.Video.Restart.{restart_message, IsU32Config}
use any_kvm.Video.Restarts.{run_with_ctrl-restart}
use any_kvm.Video.Run.{Features, Round, ended, pass, run_with_ctrl}
use any_kvm.Video.Screen.{
  Screen, ScreenTick, would_block, screen_loop, run_screen_capture, or_native, frame_interval,
}
use any_kvm.Web.Quality.{Profile, Quality, apply_profile}
use any_kvm.Web.Quality.Applied.{Fits, apply_profile-commands}

-- A round in which nothing was asked for and nothing was captured.
abbrev pub IsQuiet : ScreenTick → Type 0
IsQuiet t = (t.pending ≡ []) × (t.grab ≡ would_block)

abbrev pub with_profile : Profile → VideoConfig → VideoConfig
with_profile p cfg = record cfg { width = p.width; height = p.height; fps = p.fps }

module _ (d : Screen) (enc_w enc_h : ℕ) where
  screen_loop_quiet :
      (s : Encoding) (t : ScreenTick) (ticks : List ScreenTick)
      → IsQuiet t
      → screen_loop true d enc_w enc_h s (t ∷ ticks)
        ≡ screen_loop true d enc_w enc_h
            (record s { keyframe_flag = s.keyframe_flag || t.keyframe_requested })
            ticks
  unfolding screen_loop check_video_ctrl
  screen_loop_quiet s t ticks q = ground arith

  screen_loop_asked :
      (s : Encoding) (t : ScreenTick) (ticks : List ScreenTick) {cfg' : VideoConfig}
      → check_video_ctrl (some t.pending) s.cfg ≡ (cfg', true)
      → screen_loop true d enc_w enc_h s (t ∷ ticks) ≡ ok (failed (restart_message cfg'), [])
  unfolding screen_loop
  screen_loop_asked s t ticks e = ground arith

  screen_loop-restart :
      (quiet : List ScreenTick) (s : Encoding) (t : ScreenTick) (ticks : List ScreenTick)
      {cfg' : VideoConfig}
      → All IsQuiet quiet
      → check_video_ctrl (some t.pending) s.cfg ≡ (cfg', true)
      → screen_loop true d enc_w enc_h s (quiet ++ (t ∷ ticks))
        ≡ ok (failed (restart_message cfg'), [])
  screen_loop-restart [] s t ticks h e = screen_loop_asked s t ticks e
  screen_loop-restart (q ∷ quiet) s t ticks h e =
      screen_loop_quiet s q (quiet ++ (t ∷ ticks)) h.0
      ∙ screen_loop-restart quiet
          (record s { keyframe_flag = s.keyframe_flag || q.keyframe_requested }) t ticks h.1 e

run_screen_capture-restart :
    (d : Screen) (cfg cfg' : VideoConfig) (flag : Bool) (quiet : List ScreenTick) (t : ScreenTick)
    (ticks : List ScreenTick)
    → cfg.fps ≢ 0
    → All IsQuiet quiet
    → check_video_ctrl (some t.pending) cfg ≡ (cfg', true)
    → run_screen_capture true d none cfg flag (quiet ++ (t ∷ ticks))
      ≡ ok (failed (restart_message cfg'), [])
unfolding run_screen_capture frame_interval
run_screen_capture-restart d cfg cfg' flag quiet t ticks n h e =
    let s : Encoding = record { cfg = cfg; keyframe_flag = flag; forced = false } in
    ground (
      arith,
      screen_loop-restart d (or_native cfg.width d.disp_w) (or_native cfg.height d.disp_h) quiet s t
          ticks h e,
    )

Fits-IsU32Config : (p : Profile) (cfg : VideoConfig) → Fits p → IsU32Config (with_profile p cfg)
Fits-IsU32Config p cfg f = record {
  width = omega (arith, f.width.1);
  height = omega (arith, f.height.1);
  fps = omega (arith, f.fps.1);
}

-- A change to another configuration asks for a restart.
check_video_ctrl_changed :
    (cmds : List VideoControl) (cfg : VideoConfig)
    → requested cmds cfg ≢ cfg
    → check_video_ctrl (some cmds) cfg ≡ (requested cmds cfg, true)
check_video_ctrl_changed cmds cfg n =
    let (a, b) = check_video_ctrl-requested cmds cfg in
    elim (Bool-cases (check_video_ctrl (some cmds) cfg).1) [
      | inl e ↦ ap₂ (λ c x. (c, x)) a e
      | inr e ↦ absurd (n (sym a ∙ b e))
    ]

ok-pair :
    {E A B : Type 0} {a a' : A} {b b' : B}
    → ◌≡◌ {A = Outcome E (A × B)} (ok (a, b)) (ok (a', b'))
    → (a ≡ a') × (b ≡ b')
ok-pair e = (cc, cc)

pass_screen :
    (feature : Features) (r : Round) (cfg : VideoConfig)
    → feature.screen_capture ≡ true
    → str_eq cfg.source "screen" ≡ true
    → pass feature r cfg ≡ ended (r.screen cfg)
unfolding pass
pass_screen feature r cfg f e = ground arith

-- A request of the page takes effect. The agent captures its screen on a configuration with a rate
-- that is not 0, and the page applies a profile that the frames can carry and that differs from it.
-- Once the commands that `run_gadget` makes of the page's frames are in the channel, after any
-- number of rounds without a command and without a picture, the capture ends by a restart message,
-- and `run_with_ctrl` goes on with its next pass on the profile's width, height and rate, changed
-- only by what was asked for since.
pub run_with_ctrl-apply_profile :
    (p : Profile) (q : Quality) (g : Gadget) (cfg : VideoConfig) (feature : Features) (r : Round)
    (rounds : List Round) (d : Screen) (flag : Bool) (quiet : List ScreenTick) (t : ScreenTick)
    (ticks : List ScreenTick) {h : Gadget} {out : List Effect} {sent : List (Bool × Bytes)}
    → Fits p
    → with_profile p cfg ≢ cfg
    → g.video_ctrl_tx ≡ true
    → feature.screen_capture ≡ true
    → str_eq cfg.source "screen" ≡ true
    → cfg.fps ≢ 0
    → All IsQuiet quiet
    → run_gadget g (apply_profile true p q).1 ≡ ok (h, out)
    → t.pending ≡ commands out
    → run_screen_capture true d none cfg flag (quiet ++ (t ∷ ticks)) ≡ ok (r.screen cfg, sent)
    → run_with_ctrl feature (r ∷ rounds) cfg
      ≡ run_with_ctrl feature rounds (requested r.pending (with_profile p cfg))
run_with_ctrl-apply_profile p q g cfg feature r rounds d flag quiet t ticks {h} {out} {sent} fits
      new tx fe src n idle ran pending screen =
    let cmds = change_resolution p.width p.height ∷ change_fps p.fps ∷ [] in
    let made : out
        ≡ send_control (change_resolution p.width p.height) ∷ send_control (change_fps p.fps) ∷ [] =
      (ok-pair (sym ran ∙ apply_profile-commands g tx p q fits)).1 in
    let asked : check_video_ctrl (some t.pending) cfg ≡ (with_profile p cfg, true) =
      ap (λ c. check_video_ctrl (some c) cfg) (pending ∙ ap commands made)
      ∙ check_video_ctrl_changed cmds cfg new in
    let ended_by : r.screen cfg ≡ failed (restart_message (with_profile p cfg)) =
      (ok-pair (
        sym screen
        ∙ run_screen_capture-restart d cfg (with_profile p cfg) flag quiet t ticks n idle
            asked)).0 in
    run_with_ctrl-restart feature r rounds cfg (with_profile p cfg) (Fits-IsU32Config p cfg fits)
      (pass_screen feature r cfg fe src ∙ ap ended ended_by)
