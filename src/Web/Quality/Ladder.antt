-- ===== src/Web/Quality/Ladder.antt =====
-- web/app.js: how far the page lowers its requests.
use any_kvm.Common.{
  ℕ, zero, suc, ◌≤◌, ◌<◌, ◌≡◌, Bool, Option, none, some, [], arith, leb, ltb, if◌then◌else◌,
}
use any_kvm.Web.Quality.{Profile, rungs_from, lower_rung, force_minimum_usable}

lower_rung-lem :
    (w : ℕ)
    → lower_rung w ≡ (
        if leb 1920 w
        then some (1280, 720)
        else (if leb 1280 w
            then some (720, 480)
            else (if leb 720 w
                then some (640, 480)
                else (if leb 640 w then none else some (1920, 1080)))))
unfolding lower_rung rungs_from
lower_rung-lem w = ground arith

-- The request after a number of forced steps.
unfoldable pub forced : ℕ → Bool → Option Profile → Option Profile
unfolding force_minimum_usable
forced zero dc_open p = p
forced (suc n) dc_open p = forced n dc_open (force_minimum_usable dc_open p).0

-- How many forced steps are left.
abbrev steps_left : Profile → ℕ
steps_left p =
    if leb 1920 p.width
    then 4
    else (if leb 1280 p.width
        then 3
        else (if leb 720 p.width then 2 else (if ltb 10 p.fps then 1 else 0)))

abbrev Usable : Option Profile → Type 0
Usable none = ⊥
Usable (some p) = 640 ≤ p.width

abbrev left_of : Option Profile → ℕ
left_of none = 0
left_of (some p) = steps_left p

force-steps_left :
    (dc_open : Bool) (p : Profile) (n : ℕ)
    → 640 ≤ p.width
    → steps_left p ≤ suc n
    → let q = (force_minimum_usable dc_open (some p)).0 in Usable q × (left_of q ≤ n)
unfolding force_minimum_usable
force-steps_left dc_open p n h k = ground (arith, lower_rung-lem p.width)

-- Nothing is left to lower.
abbrev pub IsLowest : Bool → Option Profile → Type 0
IsLowest dc_open none = ⊥
IsLowest dc_open (some p) =
    (640 ≤ p.width)
    × (p.width < 720)
    × (p.fps ≤ 10)
    × (force_minimum_usable dc_open (some p) ≡ (some p, []))

none_left-IsLowest :
    (dc_open : Bool) (p : Profile) → 640 ≤ p.width → steps_left p ≤ 0 → IsLowest dc_open (some p)
unfolding force_minimum_usable
none_left-IsLowest dc_open p h k =
    (h, ground arith, ground arith, ground (arith, lower_rung-lem p.width))

forced-n :
    (n : ℕ) (dc_open : Bool) (o : Option Profile)
    → Usable o
    → left_of o ≤ n
    → IsLowest dc_open (forced n dc_open o)
unfolding forced
forced-n zero dc_open none h k = h
forced-n zero dc_open (some p) h k = none_left-IsLowest dc_open p h k
forced-n (suc n) dc_open none h k = absurd h
forced-n (suc n) dc_open (some p) h k =
    let (a, b) = force-steps_left dc_open p n h k in
    forced-n n dc_open (force_minimum_usable dc_open (some p)).0 a b

-- Lowering ends: from any profile at least 640 wide, four calls of `forceMinimumUsable` lead to a
-- request that is less than 720 wide with a rate of at most 10, at least 640 wide still, and from
-- there a further call sends nothing and leaves the request as it is.
pub forced-IsLowest :
    (p : Profile) (dc_open : Bool) → 640 ≤ p.width → IsLowest dc_open (forced 4 dc_open (some p))
forced-IsLowest p dc_open h = forced-n 4 dc_open (some p) h (ground arith)
