-- ===== src/Signal/Runs.antt =====
-- Runs of the signalling client, which the theorems on agent/src/signal_client.rs are applied to.
-- A text of two bytes stands for a JSON message here: its type and its value.
use any_kvm.Common.{◌≡◌, refl, true, Option, none, some, List, [], ◌∷◌, ◌==◌, if◌then◌else◌}
use any_kvm.Common.Bytes.{Bytes, codes}
use any_kvm.Signal.{
  Arrival, read_error, text, ping, close, local_candidate, Attempt, connect_failed, connected,
  session, run,
}
use any_kvm.Signal.Delays.{delays, run-delays}

abbrev from_str : Bytes → Option (Bytes × Bytes)
from_str [] = none
from_str (b ∷ payload) =
    if b == 1 then some (codes "answer", payload) else some (codes "candidate", payload)

abbrev get_str : Bytes → Bytes → Option Bytes
get_str payload key = some payload

abbrev arrivals : List Arrival
arrivals =
    text (1 ∷ 7 ∷ [])
    ∷ ping (9 ∷ [])
    ∷ text []
    ∷ local_candidate (5 ∷ []) true
    ∷ text (2 ∷ 8 ∷ [])
    ∷ close
    ∷ text (1 ∷ [])
    ∷ []

-- Three failures to connect, a session that breaks off, a failure, a session that ends.
abbrev attempts : List Attempt
attempts =
    connect_failed
    ∷ connect_failed
    ∷ connect_failed
    ∷ connected true (read_error ∷ [])
    ∷ connect_failed
    ∷ connected true (close ∷ [])
    ∷ []

run_test : run Bytes from_str get_str [] attempts ≡ (1 ∷ 2 ∷ 4 ∷ 1 ∷ 2 ∷ [], true)
unfolding run session
run_test = refl

run-delays_example :
    (run Bytes from_str get_str [] attempts).0 ≡ delays Bytes from_str get_str [] 0 attempts
run-delays_example = run-delays Bytes from_str get_str [] attempts
