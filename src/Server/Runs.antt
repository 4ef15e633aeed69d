-- ===== src/Server/Runs.antt =====
-- signal/main.go: the server run on some connections.
use any_kvm.Common.{
  ℕ, ◌≡◌, ◌≢◌, refl, false, true, Option, none, some, List, [], ◌∷◌, ◌++◌, arith, All, ◌==◌,
  if◌then◌else◌,
}
use Prim.Native.String.{String}
use any_kvm.Common.Bytes.{Bytes}
use any_kvm.Common.Outcome.{Outcome, ok, err, panicked, out_of_fuel, Succeeds}
use any_kvm.Server.{Role, Stage, Server, forward, lookup, get_or_create, is_empty}
use any_kvm.Server.Handler.{
  Input, request, now, received, read_error, handle_at, handle, message, pump, start, Reach,
  started, handled, pumped,
}
use any_kvm.Server.Invariant.{slot, slot_of}
use any_kvm.Server.Pages.{AgentInfo, Visit, agent_info, agents_handler}
use any_kvm.Server.Safety.{handle-succeeds}
use any_kvm.Server.Steps.{other}
use any_kvm.Server.Origin.{From}
use any_kvm.Server.Origin.Reached.{Reach-From}
use any_kvm.Server.Standing.{standing, is_current, then_standing}
use any_kvm.Server.Standing.Kept.{handle-standing}
use any_kvm.Server.Standing.Lost.{leaving-lost, joined-stranded}

-- A message is JSON if it is not empty, and an offer if it starts with 1.
abbrev kind : Bytes → Option String
kind [] = none
kind (b ∷ m) = if b == 1 then some "offer" else some "candidate"

data Action : Type 0 where
  turn : ℕ → Input → Action
  write : ℕ → Action

record Run : Type 0 where
  last : Server
  reach : Reach kind last

advance :
    (r : Run) (input : Input) (i : ℕ) (o : Outcome ⊥ Server) → handle kind input i r.last ≡ o → Run
advance r input i (ok t) e = record { last = t; reach = handled input i r.reach e }
advance r input i (err x) e = r
advance r input i panicked e = r
advance r input i out_of_fuel e = r

act : Run → Action → Run
unfolding advance
act r (turn i input) = advance r input i (handle kind input i r.last) refl
act r (write i) = record {
  last = pump (message true) i r.last;
  reach = pumped (message true) i r.reach;
}

run_from : Run → List Action → Run
unfolding act
run_from r [] = r
run_from r (a ∷ actions) = run_from (act r a) actions

run : List Action → Run
unfolding run_from
run = run_from (record { last = start; reach = started })

abbrev visit : ℕ → String → List Action
visit i role =
    turn i (request (record { room = "kvm"; role = role; name = ""; upgrades = true }))
    ∷ turn i (now 5)
    ∷ turn i (now 5)
    ∷ turn i (now 5)
    ∷ turn i (now 5)
    ∷ []

abbrev offer : Bytes
offer = 1 ∷ 2 ∷ []

abbrev answer : Bytes
answer = 3 ∷ []

-- A device makes an offer, and a client that comes later gets it and answers.
abbrev exchange : List Action
exchange =
    visit 0 "device"
    ++ (turn 0 (received offer)
        ∷ (visit 1 "client" ++ (write 1 ∷ turn 1 (received answer) ∷ write 0 ∷ [])))

exchange_delivers :
    (((run exchange).last.conns 1).output ≡ offer ∷ [])
    × (((run exchange).last.conns 0).output ≡ answer ∷ [])
unfolding run handle handle_at get_or_create lookup forward pump
exchange_delivers = (refl, refl)

handle-succeeds_example :
    (t : Server) × (handle kind (received answer) 1 (run exchange).last ≡ ok t) × Reach kind t
handle-succeeds_example =
    handle-succeeds kind (run exchange).last (received answer) 1 (run exchange).reach

Reach-From_example :
    let s = (run exchange).last in
    All
      (From s (other (s.conns 1).role) (s.conns 1).room_id)
      ((s.conns 1).output ++ (s.conns 1).queue)
Reach-From_example = Reach-From kind (run exchange).last 1 (run exchange).reach

-- A device that has its room and is about to take its place.
abbrev arriving : List Action
arriving =
    turn 0 (request (record { room = "kvm"; role = "device"; name = ""; upgrades = true }))
    ∷ turn 0 (now 1)
    ∷ []

arriving_stage : ((run arriving).last.conns 0).stage ≡ Stage.found 0
unfolding run handle handle_at get_or_create lookup
arriving_stage = refl

handle-standing_example :
    let s = (run arriving).last in
    Succeeds (handle kind (now 1) 0 s) (λ t.
      let c = s.conns 0 in
      (key : String) (ro : Role)
      → standing t key ro
        ≡ then_standing c.stage
            (is_current s c.room_id c.stage)
            0
            c.room_id
            c.role
            (standing s)
            key
            ro)
handle-standing_example = handle-standing kind (run arriving).last (now 1) 0 (run arriving).reach

-- A device reconnects before the server has seen that its first connection is gone.
abbrev taken_over : List Action
taken_over = visit 0 "device" ++ (visit 2 "device" ++ (turn 0 read_error ∷ []))

taken_over_stage :
    (((run taken_over).last.conns 0).stage ≡ Stage.leaving 0)
    × (slot ((run taken_over).last.conns 0).role ((run taken_over).last.heap 0) ≡ some 2)
unfolding run handle handle_at get_or_create lookup
taken_over_stage = (refl, refl)

leaving-lost_example :
    let s = (run taken_over).last in
    (t : Server) × (handle kind (now 6) 0 s ≡ ok t)
    × (t.conns 2 ≡ s.conns 2)
    × (slot_of (t.conns 2).stage ≡ some 0)
    × ((u : Server) × (forward kind (other (s.conns 0).role) 0 answer t ≡ ok u)
        × (u.conns ≡ t.conns))
leaving-lost_example =
    leaving-lost kind (now 6) 0 2 0 (run taken_over).last answer (run taken_over).reach
      taken_over_stage.0 taken_over_stage.1 (λ e. omega (arith, e))

-- A device comes back while the room that it left is being deleted.
abbrev racing : List Action
racing =
    visit 0 "device"
    ++ (turn 0 read_error
        ∷ turn 0 (now 6)
        ∷ turn 0 (now 6)
        ∷ turn 1 (request (record { room = "kvm"; role = "device"; name = ""; upgrades = true }))
        ∷ turn 1 (now 6)
        ∷ [])

racing_stage :
    let s = (run racing).last in
    ((s.conns 1).stage ≡ Stage.found 0)
    × ((s.conns 0).stage ≡ Stage.closing)
    × ((s.conns 0).room_id ≡ (s.conns 1).room_id)
    × (lookup (s.conns 1).room_id s.rooms ≡ some 0)
    × (is_empty (s.heap 0) ≡ true)
unfolding run handle handle_at get_or_create lookup
racing_stage = (refl, refl, refl, refl, refl)

joined-stranded_example :
    let s = (run racing).last in
    (t : Server) × (u : Server) × (handle kind (now 7) 0 s ≡ ok t)
    × (handle kind (now 7) 1 t ≡ ok u)
    × (slot (s.conns 1).role (u.heap 0) ≡ some 1)
    × (lookup (s.conns 1).room_id u.rooms ≡ none)
    × ((get_or_create (s.conns 1).room_id u).1 ≢ 0)
joined-stranded_example =
    let f = racing_stage in
    joined-stranded kind (now 7) (now 7) 1 0 0 (run racing).last (run racing).reach f.0 f.1 f.2 f.3
      f.4

-- The device gave no name, so it is listed under that of the room. While the page is made, the
-- client's `writePump` takes a step.
abbrev later : Server
later = pump (message true) 1 (run exchange).last

abbrev listed : AgentInfo
listed = record { room_id = "kvm"; name = "kvm"; connected_at = 5 }

abbrev kvm_visit : Visit
kvm_visit = (later, ("kvm", 0))

agents_handler_test : agents_handler false (kvm_visit ∷ []) ≡ some (listed ∷ [])
unfolding agents_handler agent_info run handle handle_at get_or_create lookup forward pump
agents_handler_test = refl
