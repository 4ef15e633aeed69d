-- ===== src/Server/Handler.antt =====
-- signal/main.go: `wsHandler` and `writePump`, a step for each access to what goroutines share.
use Prim.Native.String.{String}
use text.Mathlib.Text.{◌==◌ as str_eq}
use any_kvm.Common.{
  ℕ, ◌≡◌, Bool, true, false, Option, none, some, List, [], ◌∷◌, ◌++◌, if◌then◌else◌,
}
use any_kvm.Common.Bytes.{Bytes}
use any_kvm.Common.Outcome.{Outcome, ok, ◌>>=◌}
use any_kvm.Server.{
  Role, device, client, Room, new_room, Stage, Conn, Server, update, room_set, room_clear, try_send,
  close_send, forward, get_or_create, try_delete,
}

-- The query of a request, and whether `Upgrade` succeeds.
pub record Request : Type 0 where
  pub room : String
  pub role : String
  pub name : String
  pub upgrades : Bool

-- What a goroutine of `wsHandler` takes from outside: the request, the time when it sets the name
-- of a device, what `ReadMessage` gives.
pub data Input : Type 0 where
  request : Request → Input
  now : ℕ → Input
  received : Bytes → Input
  read_error : Input

-- The checks of the query: `none` for a bad request.
abbrev pub check_query : Request → Option Role
check_query q =
    if str_eq q.room ""
    then none
    else (if str_eq q.role "device"
        then some device
        else (if str_eq q.role "client" then some client else none))

abbrev pub put_conn : ℕ → Conn → Server → Server
put_conn i c s = record s { conns = update s.conns i c }

abbrev pub set_stage : ℕ → Stage → Server → Server
set_stage i g s = put_conn i (record (s.conns i) { stage = g }) s

abbrev pub put_room : ℕ → Room → Server → Server
put_room r room s = record s { heap = update s.heap r room }

abbrev pub upgrade : Bool → Role → Request → ℕ → Server → Server
upgrade false role q i s = set_stage i Stage.refused s
upgrade true role q i s =
    put_conn i
      (record (s.conns i) { room_id = q.room; role = role; name = q.name; stage = Stage.upgraded })
      s

abbrev pub accept : Option Role → Request → ℕ → Server → Server
accept none q i s = set_stage i Stage.refused s
accept (some role) q i s = upgrade q.upgrades role q i s

-- `rm.deviceName` and `rm.connectedAt`
abbrev pub name_room : Conn → ℕ → Room → Room
name_room c time room = record room {
  device_name = if str_eq c.name "" then c.room_id else c.name;
  connected_at = time;
}

abbrev pub start_pump : Conn → Stage → Conn
start_pump c g = record c { stage = g; pumping = true }

-- After `rm.set`: a device gives the room its name, a client reads the cached offer.
abbrev pub after_set : Role → ℕ → Input → ℕ → Server → Server
after_set device r (now time) i s =
    put_conn i (start_pump (s.conns i) (Stage.serving r))
      (put_room r (name_room (s.conns i) time (s.heap r)) s)
after_set device r _ i s = s
after_set client r _ i s =
    put_conn i (start_pump (s.conns i) (Stage.replaying r (s.heap r).offer_cache)) s

-- The cached offer is sent.
abbrev pub replay : ℕ → Option Bytes → ℕ → Server → Outcome ⊥ Server
replay r none i s = ok (set_stage i (Stage.serving r) s)
replay r (some offer) i s = do
  c ← try_send offer (s.conns i)
  ok (put_conn i (record c { stage = Stage.serving r }) s)

abbrev pub is_json : Option String → Bool
is_json none = false
is_json (some t) = true

-- A round of the loop.
abbrev pub serve : (Bytes → Option String) → ℕ → Input → ℕ → Server → Outcome ⊥ Server
serve kind r (received raw) i s =
    let c = s.conns i in
    let s' = put_conn i (record c { input = c.input ++ (raw ∷ []) }) s in
    if is_json (kind raw) then forward kind c.role r raw s' else ok s'
serve kind r read_error i s = ok (set_stage i (Stage.leaving r) s)
serve kind r _ i s = ok s

abbrev pub enter_room : Server × ℕ → ℕ → Server
enter_room (s, r) i = set_stage i (Stage.found r) s

-- The next step of a goroutine of `wsHandler`. An input that it does not wait for is left alone.
unfoldable pub handle_at : (Bytes → Option String) → Stage → Input → ℕ → Server → Outcome ⊥ Server
handle_at kind Stage.idle (request q) i s = ok (accept (check_query q) q i s)
handle_at kind Stage.idle _ i s = ok s
handle_at kind Stage.refused _ i s = ok s
handle_at kind Stage.upgraded _ i s = ok (enter_room (get_or_create (s.conns i).room_id s) i)
handle_at kind (Stage.found r) _ i s =
    ok (set_stage i (Stage.joined r) (put_room r (room_set (s.conns i).role i (s.heap r)) s))
handle_at kind (Stage.joined r) input i s = ok (after_set (s.conns i).role r input i s)
handle_at kind (Stage.replaying r cached) _ i s = replay r cached i s
handle_at kind (Stage.serving r) input i s = serve kind r input i s
handle_at kind (Stage.leaving r) _ i s =
    ok (set_stage i (Stage.cleared r) (put_room r (room_clear (s.conns i).role (s.heap r)) s))
handle_at kind (Stage.cleared r) _ i s = do
  c ← close_send (s.conns i)
  ok (put_conn i (record c { stage = Stage.closing }) s)
handle_at kind Stage.closing _ i s =
    ok (set_stage i Stage.finished (try_delete (s.conns i).room_id s))
handle_at kind Stage.finished _ i s = ok s

unfoldable pub handle : (Bytes → Option String) → Input → ℕ → Server → Outcome ⊥ Server
unfolding handle_at
handle kind input i s = handle_at kind (s.conns i).stage input i s

-- What `writePump` takes from outside: which case of the `select!` is taken, and whether the write
-- succeeds.
pub data Tick : Type 0 where
  message : Bool → Tick
  ping : Bool → Tick

abbrev pub drain : List Bytes → Bool → Conn → Conn
drain [] written c = if c.closed then (record c { pumping = false }) else c
drain (m ∷ queue) true c = record c { queue = queue; output = c.output ++ (m ∷ []) }
drain (m ∷ queue) false c = record c { queue = queue; pumping = false }

abbrev pub pump_conn : Tick → Conn → Conn
pump_conn (message written) c = drain c.queue written c
pump_conn (ping true) c = c
pump_conn (ping false) c = record c { pumping = false }

-- The next step of a goroutine of `writePump`.
unfoldable pub pump : Tick → ℕ → Server → Server
pump t i s = if (s.conns i).pumping then put_conn i (pump_conn t (s.conns i)) s else s

abbrev pub new_conn : Conn
new_conn = record {
  room_id = "";
  role = client;
  name = "";
  stage = Stage.idle;
  queue = [];
  closed = false;
  pumping = false;
  input = [];
  output = [];
}

abbrev pub start : Server
start = record { heap = λ _. new_room; next = 0; rooms = []; conns = λ _. new_conn }

-- The goroutines of all connections, interleaved in any order, from the start of the server.
pub data Reach (kind : Bytes → Option String) : Server → Type 0 where
  started : Reach kind start
  handled :
      {s t : Server} (input : Input) (i : ℕ)
      → Reach kind s
      → handle kind input i s ≡ ok t
      → Reach kind t
  pumped : {s : Server} (t : Tick) (i : ℕ) → Reach kind s → Reach kind (pump t i s)
