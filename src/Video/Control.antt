-- ===== src/Video/Control.antt =====
-- `check_video_ctrl` of agent/src/video.rs, and the loop that drains the commands before a restart.
-- The commands are those in the channel when the loop runs, in the order they were sent.
use any_kvm.Common.{
  ℕ, ◌≡◌, refl, Bool, true, false, not, ◌||◌, Option, none, some, List, [], ◌∷◌, arith, ◌==◌,
  if◌then◌else◌,
}
use any_kvm.Config.{VideoConfig}
use any_kvm.Hid.{VideoControl, change_resolution, change_fps}

-- One command: the configuration, and whether a restart is needed.
unfoldable pub check_command : VideoControl → VideoConfig × Bool → VideoConfig × Bool
check_command (change_resolution width height) (cfg, restart) =
    if not (width == cfg.width) || not (height == cfg.height)
    then (record cfg { width = width; height = height }, true)
    else (cfg, restart)
check_command (change_fps fps) (cfg, restart) =
    if not (fps == cfg.fps) then (record cfg { fps = fps }, true) else (cfg, restart)

unfoldable pub check_all : List VideoControl → VideoConfig × Bool → VideoConfig × Bool
unfolding check_command
check_all [] s = s
check_all (cmd ∷ cmds) s = check_all cmds (check_command cmd s)

unfoldable pub check_video_ctrl : Option (List VideoControl) → VideoConfig → VideoConfig × Bool
unfolding check_all
check_video_ctrl none cfg = (cfg, false)
check_video_ctrl (some cmds) cfg = check_all cmds (cfg, false)

-- The commands after a restart was asked for.
unfoldable pub drain : List VideoControl → VideoConfig → VideoConfig
drain [] cfg = cfg
drain (change_resolution width height ∷ cmds) cfg =
    drain cmds (record cfg { width = width; height = height })
drain (change_fps fps ∷ cmds) cfg = drain cmds (record cfg { fps = fps })

-- The last resolution and the last rate that were asked for.
abbrev pub last_resolution : List VideoControl → Option (ℕ × ℕ)
last_resolution [] = none
last_resolution (change_resolution w h ∷ cmds) = elim (last_resolution cmds) [
  | some r ↦ some r
  | none ↦ some (w, h)
]
last_resolution (change_fps f ∷ cmds) = last_resolution cmds

abbrev pub last_fps : List VideoControl → Option ℕ
last_fps [] = none
last_fps (change_resolution w h ∷ cmds) = last_fps cmds
last_fps (change_fps f ∷ cmds) = elim (last_fps cmds) [ some r ↦ some r | none ↦ some f ]

abbrev pub with_resolution : Option (ℕ × ℕ) → VideoConfig → VideoConfig
with_resolution none cfg = cfg
with_resolution (some (w, h)) cfg = record cfg { width = w; height = h }

abbrev pub with_fps : Option ℕ → VideoConfig → VideoConfig
with_fps none cfg = cfg
with_fps (some f) cfg = record cfg { fps = f }

-- The configuration that a list of commands asks for.
abbrev pub requested : List VideoControl → VideoConfig → VideoConfig
requested cmds cfg = with_fps (last_fps cmds) (with_resolution (last_resolution cmds) cfg)

check_all-requested :
    (cmds : List VideoControl) (cfg : VideoConfig) (restart : Bool)
    → (check_all cmds (cfg, restart)).0 ≡ requested cmds cfg
unfolding check_all
check_all-requested [] cfg restart = refl
check_all-requested (change_resolution w h ∷ cmds) cfg restart = ground (
  arith,
  check_all-requested cmds (record cfg { width = w; height = h }) true,
  check_all-requested cmds cfg restart,
)
check_all-requested (change_fps f ∷ cmds) cfg restart = ground (
  arith,
  check_all-requested cmds (record cfg { fps = f }) true,
  check_all-requested cmds cfg restart,
)

check_all_sticky :
    (cmds : List VideoControl) (cfg : VideoConfig) → (check_all cmds (cfg, true)).1 ≡ true
unfolding check_all
check_all_sticky [] cfg = refl
check_all_sticky (change_resolution w h ∷ cmds) cfg =
    ground (
      arith,
      check_all_sticky cmds (record cfg { width = w; height = h }),
      check_all_sticky cmds cfg,
    )
check_all_sticky (change_fps f ∷ cmds) cfg =
    ground (arith, check_all_sticky cmds (record cfg { fps = f }), check_all_sticky cmds cfg)

check_all_unchanged :
    (cmds : List VideoControl) (cfg : VideoConfig)
    → (check_all cmds (cfg, false)).1 ≡ false
    → (check_all cmds (cfg, false)).0 ≡ cfg
unfolding check_all
check_all_unchanged [] cfg h = refl
check_all_unchanged (change_resolution w hh ∷ cmds) cfg h = ground (
  arith,
  check_all_sticky cmds (record cfg { width = w; height = hh }),
  check_all_unchanged cmds cfg,
)
check_all_unchanged (change_fps f ∷ cmds) cfg h =
    ground (arith, check_all_sticky cmds (record cfg { fps = f }), check_all_unchanged cmds cfg)

-- After `check_video_ctrl` the configuration is the one that the pending commands ask for: the last
-- resolution and the last rate among them, and all else as before. If no restart is reported, it is
-- the configuration of before.
pub check_video_ctrl-requested :
    (cmds : List VideoControl) (cfg : VideoConfig)
    → let r = check_video_ctrl (some cmds) cfg in
      (r.0 ≡ requested cmds cfg) × (r.1 ≡ false → r.0 ≡ cfg)
unfolding check_video_ctrl
check_video_ctrl-requested cmds cfg =
    (check_all-requested cmds cfg false, check_all_unchanged cmds cfg)

-- Draining the commands gives the configuration that they ask for, too.
pub drain-requested :
    (cmds : List VideoControl) (cfg : VideoConfig) → drain cmds cfg ≡ requested cmds cfg
unfolding drain
drain-requested [] cfg = refl
drain-requested (change_resolution w h ∷ cmds) cfg =
    ground (arith, drain-requested cmds (record cfg { width = w; height = h }))
drain-requested (change_fps f ∷ cmds) cfg =
    ground (arith, drain-requested cmds (record cfg { fps = f }))
