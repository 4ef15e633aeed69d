-- ===== src/Web/Runs.antt =====
-- web/app.js: the page run on some events.
use any_kvm.Common.{ap, ◌++◌, ◌≡◌, refl, true, false, none, some, List, [], ◌∷◌, arith}
use any_kvm.Common.Int.{pos, negsuc}
use any_kvm.Common.Outcome.{ok, Succeeds}
use any_kvm.Config.{VideoConfig}
use any_kvm.Hid.Gadget.{Gadget, run_gadget}
use any_kvm.Hid.Modes.{commands}
use any_kvm.Video.Control.{check_video_ctrl, requested, check_all, check_command}
use any_kvm.Web.{
  Page, send_keyboard, send_mouse_move, send_mouse_buttons, send_mouse_wheel, Event, key_down,
  mouse_move, mouse_down, mouse_up, wheel, click, on_event, on_events,
}
use any_kvm.Web.Keys.{entry, modifier_bit, usage_of}
use any_kvm.Web.Mirror.{Mirrors, keyboard_after, keys_report, run_gadget-on_events}
use any_kvm.Web.Quality.{
  profile, Quality, p2p, rungs_from, lower_rung, apply_profile, force_minimum_usable,
}
use any_kvm.Web.Quality.Restarted.{with_profile, run_with_ctrl-apply_profile}
use any_kvm.Video.Restart.{restart_message}
use any_kvm.Video.Capture.{failed}
use any_kvm.Video.{TrySend}
use any_kvm.Video.Run.{Features, Round, run_with_ctrl}
use any_kvm.Video.Screen.{
  Screen, ScreenTick, would_block, screen_loop, run_screen_capture, frame_interval,
}
use any_kvm.Hid.{VideoControl, change_resolution, change_fps, Effect, send_control}
use any_kvm.Web.Quality.Applied.{apply_profile-commands, Fits}
use any_kvm.Web.Quality.Ladder.{IsLowest, forced, forced-IsLowest}

abbrev page : Page
page = record { modifier = 0; keys = []; buttons = 0; capture_active = false; dc_open = true }

-- Control and C pressed, a button pressed and lifted.
abbrev events : List Event
events =
    click
    ∷ key_down "ControlLeft"
    ∷ key_down "KeyC"
    ∷ mouse_move (pos 300) (negsuc 4)
    ∷ mouse_down 2
    ∷ wheel (pos 3)
    ∷ mouse_up 2
    ∷ []

events_frames :
    (on_events events page).1
    ≡ (1 ∷ 1 ∷ 0 ∷ 0 ∷ 0 ∷ 0 ∷ 0 ∷ 0 ∷ [])
      ∷ (1 ∷ 1 ∷ 6 ∷ 0 ∷ 0 ∷ 0 ∷ 0 ∷ 0 ∷ [])
      ∷ (2 ∷ 0 ∷ 1 ∷ 44 ∷ 0 ∷ 0 ∷ 0 ∷ 0 ∷ [])
      ∷ (3 ∷ 2 ∷ 0 ∷ 0 ∷ 0 ∷ 0 ∷ 0 ∷ 0 ∷ [])
      ∷ (4 ∷ 255 ∷ 0 ∷ 0 ∷ 0 ∷ 0 ∷ 0 ∷ 0 ∷ [])
      ∷ (3 ∷ 0 ∷ 0 ∷ 0 ∷ 0 ∷ 0 ∷ 0 ∷ 0 ∷ [])
      ∷ []
unfolding on_events on_event send_keyboard send_mouse_move send_mouse_buttons send_mouse_wheel entry
    modifier_bit usage_of
events_frames = refl

abbrev gadget : Gadget
gadget = record {
  kbd = true;
  mouse = true;
  video_ctrl_tx = true;
  last_x = 0x3fff;
  last_y = 0x3fff;
  last_buttons = 0;
}

-- The keyboard holds nothing before.
run_gadget-on_events_example :
    let (q, frames) = on_events events page in
    Succeeds (run_gadget gadget frames) (λ r. Mirrors q r.0 (keyboard_after (keys_report page) r.1))
run_gadget-on_events_example =
    run_gadget-on_events events page gadget (keys_report page)
      (record { kbd = refl; buttons = refl; keys = refl }) refl

abbrev quality : Quality
quality = record {
  adaptive_enabled = true;
  manual_override = false;
  current_profile = none;
  fps_check_count = 0;
  ring = [];
  guard_active = false;
}

abbrev config : VideoConfig
config = record {
  source = "v4l2";
  device = "/dev/video0";
  width = 1920;
  height = 1080;
  fps = 30;
  bitrate_kbps = 4000;
  hw_encode = true;
}

p2p-Fits : Fits p2p
p2p-Fits = record { width = omega arith; height = omega arith; fps = omega arith }

abbrev screen_config : VideoConfig
screen_config = record config { source = "screen" }

abbrev screen : Screen
screen = record { disp_w = 1920; disp_h = 1080; encode = λ forced yuv. none }

abbrev tick : List VideoControl → ScreenTick
tick cmds = record {
  pending = cmds;
  keyframe_requested = false;
  grab = would_block;
  capacity = 1;
  send = TrySend.sent;
}

abbrev asked : List Effect
asked = send_control (change_resolution 1280 720) ∷ send_control (change_fps 30) ∷ []

abbrev round : Round
round = record {
  opens = true;
  screen = λ cfg. failed (restart_message (with_profile p2p cfg));
  hw = λ cfg. failed [];
  sw = λ cfg. failed [];
  mjpeg = λ cfg. failed [];
  pending = [];
}

abbrev features : Features
features = record { v4l2_capture = true; screen_capture = true }

run_gadget-asked : run_gadget gadget (apply_profile true p2p quality).1 ≡ ok (gadget, asked)
run_gadget-asked = apply_profile-commands gadget refl p2p quality p2p-Fits

screen_ends :
    run_screen_capture true screen none screen_config false
      ((tick [] ∷ []) ++ (tick (commands asked) ∷ []))
    ≡ ok (round.screen screen_config, [])
unfolding run_screen_capture frame_interval screen_loop check_video_ctrl check_all check_command
screen_ends = refl

run_with_ctrl-apply_profile_example :
    run_with_ctrl features (round ∷ []) screen_config
    ≡ run_with_ctrl features [] (requested [] (with_profile p2p screen_config))
run_with_ctrl-apply_profile_example =
    run_with_ctrl-apply_profile p2p quality gadget screen_config features round [] screen false
      (tick [] ∷ []) (tick (commands asked)) [] p2p-Fits (λ e. omega (arith, ap (λ c. c.width) e))
      refl refl refl (λ e. omega (arith, e)) ((refl, refl), tt) run_gadget-asked refl screen_ends

forced-IsLowest_example : IsLowest true (forced 4 true (some (profile 1920 1080 30)))
forced-IsLowest_example = forced-IsLowest (profile 1920 1080 30) true (omega arith)

-- From 1024 by 768 the rung below is passed over.
forced_1024 : (force_minimum_usable true (some (profile 1024 768 30))).0 ≡ some (profile 640 480 30)
unfolding force_minimum_usable lower_rung rungs_from
forced_1024 = refl
