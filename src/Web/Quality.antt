-- ===== src/Web/Quality.antt =====
-- web/app.js: the requests for a resolution and a frame rate, and when the page makes them.
-- `adaptiveFpsCheck` compares two rates by a floating-point product: whether the actual rate is
-- too low is an argument.
pub mod Applied
pub mod Restarted
pub mod Ladder
use any_kvm.Common.{
  ℕ, zero, suc, ◌+◌, ◌*◌, ◌-◌, ◌/◌, ◌%◌, ◌^◌, Bool, true, false, not, ◌&&◌, ◌||◌, Option, none,
  some, List, [], ◌∷◌, ◌++◌, bit_and, ◌==◌, ltb, leb, length, if◌then◌else◌,
}
use any_kvm.Common.Bytes.{Bytes}
use any_kvm.Web.{uint8_array, rest}

pub record Profile : Type 0 where
  pub width : ℕ
  pub height : ℕ
  pub fps : ℕ

abbrev pub profile : ℕ → ℕ → ℕ → Profile
profile w h f = record { width = w; height = h; fps = f }

-- QUALITY_PROFILES.p2p and QUALITY_PROFILES.relay
abbrev pub p2p : Profile
p2p = profile 1280 720 30

abbrev pub relay : Profile
relay = profile 1280 720 15

-- RES_LADDER
abbrev pub ladder : List (ℕ × ℕ)
ladder = (1920, 1080) ∷ (1280, 720) ∷ (720, 480) ∷ (640, 480) ∷ []

-- The state of the page that bears on the quality. `ring` is `fpsRing`.
pub record Quality : Type 0 where
  pub adaptive_enabled : Bool
  pub manual_override : Bool
  pub current_profile : Option Profile
  pub fps_check_count : ℕ
  pub ring : List ℕ
  pub guard_active : Bool

-- Both take whether the data channel is open.
unfoldable pub change_resolution_direct : Bool → ℕ → ℕ → List Bytes
change_resolution_direct dc_open w h =
    if w == 0 || (h == 0 || not dc_open)
    then []
    else uint8_array (
        0x10
        ∷ 0x01
        ∷ bit_and (w / 2 ^ 8) 0xff
        ∷ bit_and w 0xff
        ∷ bit_and (h / 2 ^ 8) 0xff
        ∷ bit_and h 0xff
        ∷ 0
        ∷ 0
        ∷ [])
      ∷ []

unfoldable pub change_fps_direct : Bool → ℕ → List Bytes
change_fps_direct dc_open fps =
    if fps == 0 || not dc_open
    then []
    else uint8_array (0x10 ∷ 0x02 ∷ fps ∷ 0 ∷ 0 ∷ 0 ∷ 0 ∷ 0 ∷ []) ∷ []

unfoldable pub apply_profile : Bool → Profile → Quality → Quality × List Bytes
unfolding change_resolution_direct change_fps_direct
apply_profile dc_open p q = (
  record q { current_profile = some p },
  change_resolution_direct dc_open p.width p.height ++ change_fps_direct dc_open p.fps,
)

unfoldable pub apply_auto_quality : Bool → (is_p2p : Bool) → Quality → Quality × List Bytes
unfolding apply_profile
apply_auto_quality dc_open is_p2p = apply_profile dc_open (if is_p2p then p2p else relay)

-- The rung after the first that is no wider than a width; `findIndex` is -1 if there is none.
unfoldable pub rungs_from : ℕ → List (ℕ × ℕ) → Option (List (ℕ × ℕ))
rungs_from w [] = none
rungs_from w ((rw, rh) ∷ rungs) = if leb rw w then some ((rw, rh) ∷ rungs) else rungs_from w rungs

abbrev pub first_rung : List (ℕ × ℕ) → Option (ℕ × ℕ)
first_rung [] = none
first_rung (r ∷ rungs) = some r

abbrev pub second_rung : List (ℕ × ℕ) → Option (ℕ × ℕ)
second_rung [] = none
second_rung (r ∷ rungs) = first_rung rungs

-- `RES_LADDER[curIdx + 1]`, if there is one
abbrev pub next_rung : Option (List (ℕ × ℕ)) → Option (ℕ × ℕ)
next_rung none = first_rung ladder
next_rung (some rungs) = second_rung rungs

unfoldable pub lower_rung : ℕ → Option (ℕ × ℕ)
unfolding rungs_from
lower_rung w = next_rung (rungs_from w ladder)

abbrev pub apply_rung : Bool → Profile → Option (ℕ × ℕ) → Quality → Quality × List Bytes
apply_rung dc_open p none q = (q, [])
apply_rung dc_open p (some (w, h)) q = apply_profile dc_open (record p { width = w; height = h }) q

abbrev is_none : Option Profile → Bool
is_none none = true
is_none (some p) = false

-- `adaptiveFpsCheck` with a profile, in its fifth call
abbrev pub assess : Bool → (too_low : Bool) → Option Profile → Quality → Quality × List Bytes
assess dc_open too_low none q = (q, [])
assess dc_open too_low (some p) q =
    if too_low then apply_rung dc_open p (lower_rung p.width) q else (q, [])

unfoldable pub adaptive_fps_check : Bool → (too_low : Bool) → Quality → Quality × List Bytes
unfolding apply_profile lower_rung
adaptive_fps_check dc_open too_low q =
    if not q.adaptive_enabled || (q.manual_override || is_none q.current_profile)
    then (q, [])
    else if ltb (q.fps_check_count + 1) 5
    then (record q { fps_check_count = q.fps_check_count + 1 }, [])
    else assess dc_open too_low q.current_profile (record q { fps_check_count = 0 })

abbrev pub set_rung : ℕ × ℕ → Option Profile → Option Profile
set_rung (w, h) none = none
set_rung (w, h) (some p) = some (record p { width = w; height = h })

abbrev pub width_of : Option Profile → ℕ
width_of none = 1280
width_of (some p) = p.width

abbrev pub fps_of : Option Profile → ℕ
fps_of none = 15
fps_of (some p) = p.fps

abbrev pub set_fps : ℕ → Option Profile → Option Profile
set_fps f none = none
set_fps f (some p) = some (record p { fps = f })

abbrev pub force_rung : Bool → Option (ℕ × ℕ) → Option Profile → Option Profile × List Bytes
force_rung dc_open (some (w, h)) p = (set_rung (w, h) p, change_resolution_direct dc_open w h)
force_rung dc_open none p =
    if ltb 10 (fps_of p) then (set_fps 10 p, change_fps_direct dc_open 10) else (p, [])

-- `forceMinimumUsable`, less the ring
unfoldable pub force_minimum_usable : Bool → Option Profile → Option Profile × List Bytes
unfolding lower_rung change_resolution_direct change_fps_direct
force_minimum_usable dc_open p = force_rung dc_open (lower_rung (width_of p)) p

abbrev pub sum : List ℕ → ℕ
sum [] = 0
sum (n ∷ ns) = n + sum ns

abbrev pub push_ring : ℕ → List ℕ → List ℕ
push_ring fps ring = let r = ring ++ (fps ∷ []) in if ltb 15 (length r) then rest r else r

abbrev pub force : Bool → Quality → Quality × List Bytes
force dc_open q =
    let (p, frames) = force_minimum_usable dc_open q.current_profile in
    (record q { current_profile = p; ring = []; guard_active = true }, frames)

-- The average is compared by the sum: `avg < 10` and `avg >= 12`.
unfoldable pub fps_guard_check : Bool → ℕ → Quality → Quality × List Bytes
unfolding force_minimum_usable
fps_guard_check dc_open fps q =
    if fps == 0
    then (q, [])
    else let q' = record q { ring = push_ring fps q.ring } in
      if ltb (length q'.ring) 10
      then (q', [])
      else if ltb (sum q'.ring) (10 * length q'.ring) && not q'.guard_active
      then force dc_open q'
      else if leb (12 * length q'.ring) (sum q'.ring)
      then (record q' { guard_active = false }, [])
      else (q', [])
