-- ===== src/Web/Quality/Applied.antt =====
-- The requests of web/app.js through agent/src/hid.rs to the configuration of agent/src/video.rs.
use any_kvm.Common.{ℕ, ◌<◌, ◌≡◌, refl, ◌^◌, ◌/◌, ◌%◌, true, some, [], ◌∷◌, arith}
use any_kvm.Common.Bits.{bit_and_255}
use any_kvm.Common.Bytes.{Bytes}
use any_kvm.Common.Outcome.{ok, at, Succeeds}
use any_kvm.Config.{VideoConfig}
use any_kvm.Hid.{change_resolution, change_fps, send_control}
use any_kvm.Hid.Gadget.{Gadget, step, run_gadget}
use any_kvm.Hid.Modes.{commands}
use any_kvm.Video.Control.{check_video_ctrl, check_video_ctrl-requested}
use any_kvm.Web.Quality.{
  Profile, Quality, change_resolution_direct, change_fps_direct, apply_profile,
}

-- A profile that the frames can carry.
pub record Fits (p : Profile) : Type 0 where
  pub width : (0 < p.width) × (p.width < 2 ^ 16)
  pub height : (0 < p.height) × (p.height < 2 ^ 16)
  pub fps : (0 < p.fps) × (p.fps < 256)

abbrev resolution_frame : ℕ → ℕ → Bytes
resolution_frame w h = 0x10 ∷ 0x01 ∷ w / 256 % 256 ∷ w % 256 ∷ h / 256 % 256 ∷ h % 256 ∷ 0 ∷ 0 ∷ []

change_resolution_direct_lem :
    (w h : ℕ) → 0 < w → 0 < h → change_resolution_direct true w h ≡ resolution_frame w h ∷ []
unfolding change_resolution_direct
change_resolution_direct_lem w h p q =
    rw (bit_and_255, bit_and_255, bit_and_255, bit_and_255) (ground arith)

change_fps_direct_lem :
    (f : ℕ)
    → 0 < f
    → change_fps_direct true f ≡ (0x10 ∷ 0x02 ∷ f % 256 ∷ 0 ∷ 0 ∷ 0 ∷ 0 ∷ 0 ∷ []) ∷ []
unfolding change_fps_direct
change_fps_direct_lem f p = ground arith

module _ (g : Gadget) (tx : g.video_ctrl_tx ≡ true) where
  step_resolution :
      (w h : ℕ)
      → w < 2 ^ 16
      → h < 2 ^ 16
      → step g (resolution_frame w h) ≡ ok (g, send_control (change_resolution w h) ∷ [])
  unfolding step at
  step_resolution w h p q = ground arith

  step_fps :
      (f : ℕ)
      → f < 256
      → step g (0x10 ∷ 0x02 ∷ f % 256 ∷ 0 ∷ 0 ∷ 0 ∷ 0 ∷ 0 ∷ [])
        ≡ ok (g, send_control (change_fps f) ∷ [])
  unfolding step at
  step_fps f p = ground arith

  pub apply_profile-commands :
      (p : Profile) (q : Quality)
      → Fits p
      → run_gadget g (apply_profile true p q).1
        ≡ ok (
          g,
          send_control (change_resolution p.width p.height) ∷ send_control (change_fps p.fps) ∷ [],
        )
  unfolding apply_profile run_gadget
  apply_profile-commands p q f =
      rw
        (
          change_resolution_direct_lem p.width p.height f.width.0 f.height.0,
          change_fps_direct_lem p.fps f.fps.0,
          run_gadget,
          step_resolution p.width p.height f.width.1 f.height.1,
          step_fps p.fps f.fps.1,
        )
        refl

-- A quality profile reaches the capture: with the data channel open and the agent's channel for
-- video commands there, the frames that the page sends of a profile of 16-bit sizes and an 8-bit
-- rate, none of them 0, make `run_gadget` send commands and change nothing else, and
-- `check_video_ctrl` then has a configuration of the profile's width, height and rate, all else as
-- before.
pub check_video_ctrl-apply_profile :
    (p : Profile) (q : Quality) (g : Gadget) (cfg : VideoConfig)
    → Fits p
    → g.video_ctrl_tx ≡ true
    → Succeeds (run_gadget g (apply_profile true p q).1) (λ r.
      (r.0 ≡ g)
      × ((check_video_ctrl (some (commands r.1)) cfg).0
          ≡ record cfg { width = p.width; height = p.height; fps = p.fps }))
check_video_ctrl-apply_profile p q g cfg f tx =
    rw (apply_profile-commands g tx p q f) (refl, (check_video_ctrl-requested _ cfg).0)
