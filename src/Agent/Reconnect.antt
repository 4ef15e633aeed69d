-- ===== src/Agent/Reconnect.antt =====
-- The time between sessions, of agent/src/main.rs.
use any_kvm.Common.{ℕ, ◌*◌, ◌/◌, ◌≤◌, ◌≡◌, refl, List, [], ◌∷◌, arith, min, All}
use any_kvm.Agent.{from_secs, next_delay, delays}

-- At least three seconds, at most thirty.
abbrev pub InRange : ℕ → Type 0
InRange d = (from_secs 3 ≤ d) × (d ≤ from_secs 30)

pub next_delay-InRange : (elapsed delay : ℕ) → InRange delay → InRange (next_delay elapsed delay)
unfolding next_delay
next_delay-InRange elapsed delay h = ground arith

-- Every time between two sessions lies between three and thirty seconds, whatever the sessions last.
pub delays-InRange :
    (delay : ℕ) (sessions : List ℕ) → InRange delay → All InRange (delays delay sessions)
unfolding delays
delays-InRange delay [] h = tt
delays-InRange delay (elapsed ∷ rest) h =
    let k = next_delay-InRange elapsed delay h in
    (k, delays-InRange (next_delay elapsed delay) rest k)

-- A session of at most ten seconds.
abbrev pub IsShort : ℕ → Type 0
IsShort elapsed = elapsed ≤ from_secs 10

next_short :
    (elapsed delay : ℕ)
    → IsShort elapsed
    → next_delay elapsed delay ≡ min (delay * 3 / 2) (from_secs 30)
unfolding next_delay
next_short elapsed delay h = ground arith

capped :
    (delay : ℕ) (rest : List ℕ)
    → from_secs 20 ≤ delay
    → All IsShort rest
    → All (λ d. d ≡ from_secs 30) (delays delay rest)
unfolding delays
capped delay [] p h = tt
capped delay (e ∷ rest) p h =
    let n : next_delay e delay ≡ from_secs 30 = omega (arith, next_short e delay h.0) in
    rw n (refl, capped (from_secs 30) rest (omega arith) h.1)

-- Short sessions one after another are waited for longer and longer: from three seconds the times
-- are 4.5, 6.75, 10.125, 15.1875, 22.78125 seconds, and 30 seconds from the sixth on.
pub delays-IsShort :
    (e0 e1 e2 e3 e4 : ℕ) (rest : List ℕ)
    → All IsShort (e0 ∷ e1 ∷ e2 ∷ e3 ∷ e4 ∷ rest)
    → (late : List ℕ) × (delays (from_secs 3) (e0 ∷ e1 ∷ e2 ∷ e3 ∷ e4 ∷ rest)
        ≡ 4500000000 ∷ 6750000000 ∷ 10125000000 ∷ 15187500000 ∷ 22781250000 ∷ late)
      × All (λ d. d ≡ from_secs 30) late
unfolding delays
delays-IsShort e0 e1 e2 e3 e4 rest (h0, (h1, (h2, (h3, (h4, h))))) = (
  delays 22781250000 rest,
  rw (next_short e0 3000000000 h0) (
      rw (next_short e1 4500000000 h1) (
        rw (next_short e2 6750000000 h2)
          (rw (next_short e3 10125000000 h3) (rw (next_short e4 15187500000 h4) refl)))),
  capped 22781250000 rest (omega arith) h,
)
