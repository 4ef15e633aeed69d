-- ===== src/Server/Pages.antt =====
-- signal/main.go: the two pages that read the registry, `healthHandler` and `agentsHandler`. The order
-- of the registry stands for any order in which Go walks the map; a time is not written out.
pub mod Locked
pub mod Listed
use Prim.Native.String.{String}
use text.Mathlib.Text.{◌==◌ as str_eq}
use text.Mathlib.TextEquality.{eq_iff}
use any_kvm.Common.{
  ℕ, ◌≡◌, refl, sym, subst, ◌∙◌, Bool, true, false, Option, none, some, List, [], ◌∷◌, arith, All,
  length, if◌then◌else◌, Bool-cases, inl, inr,
}
use any_kvm.Common.Members.{All-mono}
use any_kvm.Common.Bytes.{Bytes}
use any_kvm.Common.Outcome.{Outcome, ok, err, panicked, out_of_fuel, ◌>>=◌}
use any_kvm.Server.{
  Role, device, client, Room, Stage, Conn, Server, lookup, remove, create, enter, delete_at,
  try_delete, get_or_create, try_send, close_send, send_to, forward, update, target, cache_offer,
  is_empty,
}
use any_kvm.Server.Handler.{
  Input, Request, request, now, received, read_error, check_query, accept, upgrade, after_set,
  replay, serve, is_json, handle_at, handle, start, pump, pump_conn, put_conn, Tick, Reach, started,
  handled, pumped,
}
use any_kvm.Server.Invariant.{Inv, slot_of, room_of}
use any_kvm.Server.Registry.{lookup-remove}
use any_kvm.Server.Safety.{Reach-Inv}

pub record AgentInfo : Type 0 where
  pub room_id : String
  pub name : String
  pub connected_at : ℕ

-- The number of rooms.
unfoldable pub health_handler : Server → ℕ
health_handler s = length s.rooms

-- One turn of the loop of `agentsHandler`, which holds the lock of the room: the room is listed if a
-- device stands in it.
unfoldable pub agent_info : String → Room → Option AgentInfo
agent_info id room = elim room.device_peer [
  | none ↦ none
  | some p ↦
      some (record { room_id = id; name = room.device_name; connected_at = room.connected_at })
]

-- A room that was read, by its name and its pointer, with the state in which it was.
abbrev pub Visit : Type 0
Visit = Server × (String × ℕ)

abbrev pub visit_info : Visit → Option AgentInfo
visit_info v = agent_info v.1.0 (v.0.heap v.1.1)

abbrev pub list_agent : Option AgentInfo → List AgentInfo → List AgentInfo
list_agent none listing = listing
list_agent (some a) listing = a ∷ listing

-- What is listed of the rooms that were read.
abbrev pub listing_of : List Visit → List AgentInfo
listing_of [] = []
listing_of (v ∷ visits) = list_agent (visit_info v) (listing_of visits)

-- The steps that wait for `roomsMu`, which `agentsHandler` holds: `getOrCreate` and `tryDelete`.
abbrev pub takes_registry : Stage → Bool
takes_registry Stage.upgraded = true
takes_registry Stage.closing = true
takes_registry _ = false

-- The loop of `agentsHandler` from a state on, over the rooms still to be read. It locks one room
-- after another, and between two rooms the goroutines of the connections go on, but for the steps
-- that wait for the registry.
pub data Scan (kind : Bytes → Option String)
    : Server → List (String × ℕ) → List Visit → Type 0 where
  scanned : {s : Server} → Scan kind s [] []
  read_room :
      {s : Server} {rooms : List (String × ℕ)} {visits : List Visit} (id : String) (r : ℕ)
      → Scan kind s rooms visits
      → Scan kind s ((id, r) ∷ rooms) ((s, (id, r)) ∷ visits)
  meanwhile :
      {s t : Server} {rooms : List (String × ℕ)} {visits : List Visit} (input : Input) (i : ℕ)
      → takes_registry (s.conns i).stage ≡ false
      → handle kind input i s ≡ ok t
      → Scan kind t rooms visits
      → Scan kind s rooms visits
  written :
      {s : Server} {rooms : List (String × ℕ)} {visits : List Visit} (t : Tick) (i : ℕ)
      → Scan kind (pump t i s) rooms visits
      → Scan kind s rooms visits

-- The answer of `agentsHandler`, for the rooms that its loop has read: `none` to OPTIONS.
unfoldable pub agents_handler : (is_options : Bool) → List Visit → Option (List AgentInfo)
agents_handler is_options visits = if is_options then none else some (listing_of visits)

-- Every entry of the registry is the one that a lookup finds: no name is there twice.
abbrev pub IsMap : List (String × ℕ) → Type 0
IsMap rooms = All (λ e. lookup e.0 rooms ≡ some e.1) rooms

-- What the call gives satisfies `P`, if it returns.
abbrev pub Gives : {A : Type 0} → Outcome ⊥ A → (A → Type 0) → Type 0
Gives (ok a) P = P a
Gives _ P = Unit

pub Gives-bind :
    {A B : Type 0} (P : B → Type 0) (m : Outcome ⊥ A) (f : A → Outcome ⊥ B)
    → ((a : A) → Gives (f a) P)
    → Gives (m >>= f) P
Gives-bind P (ok a) f h = h a
Gives-bind P (err e) f h = tt
Gives-bind P panicked f h = tt
Gives-bind P out_of_fuel f h = tt

remove-IsMap :
    (id : String) (all rooms : List (String × ℕ))
    → All (λ e. lookup e.0 all ≡ some e.1) rooms
    → All (λ e. lookup e.0 (remove id all) ≡ some e.1) (remove id rooms)
unfolding remove
remove-IsMap id all [] h = tt
remove-IsMap id all ((k, r) ∷ rooms) h = elim (Bool-cases (str_eq k id)) [
  | inl e ↦ rw e (remove-IsMap id all rooms h.1)
  | inr e ↦ rw e (
    ground (arith, lookup-remove id k all, eq_iff k id, eq_iff id k, h.0, e),
    remove-IsMap id all rooms h.1,
  )
]

create-IsMap :
    (id : String) (r : ℕ) (rooms : List (String × ℕ))
    → lookup id rooms ≡ none
    → IsMap rooms
    → IsMap ((id, r) ∷ rooms)
unfolding lookup
create-IsMap id r rooms n h = (
  ground (arith, eq_iff id id),
  All-mono (λ e. lookup e.0 rooms ≡ some e.1) _ rooms (λ e f. ground (arith, eq_iff id e.0, n, f))
      h,
)

pub enter-IsMap :
    (id : String) (o : Option ℕ) (s : Server)
    → lookup id s.rooms ≡ o
    → IsMap s.rooms
    → IsMap (enter o id s).0.rooms
enter-IsMap id none s e h = create-IsMap id s.next s.rooms e h
enter-IsMap id (some r) s e h = h

pub delete-IsMap :
    (id : String) (o : Option ℕ) (s : Server) → IsMap s.rooms → IsMap (delete_at o id s).rooms
delete-IsMap id none s h = h
delete-IsMap id (some r) s h =
    elim (is_empty (s.heap r))
      as (λ b. IsMap (if b then (record s { rooms = remove id s.rooms }) else s).rooms) [
        | true ↦ remove-IsMap id s.rooms s.rooms h
        | false ↦ h
      ]
