-- ===== src/Server.antt =====
-- signal/main.go: the signalling server. A pointer is a number: of a room in the heap, and of a
-- peer with the goroutine of its connection. The JSON library is an argument. A connection's two
-- streams, what the server has read from it and what it has written to it, are part of its state.
pub mod Handler
pub mod Invariant
pub mod Registry
pub mod Steps
pub mod Moves
pub mod Safety
pub mod Origin
pub mod Standing
pub mod Pages
mod Runs
use Prim.Native.String.{String}
use text.Mathlib.Text.{◌==◌ as str_eq}
use any_kvm.Common.{
  ℕ, suc, Bool, true, false, not, ◌&&◌, Option, none, some, List, [], ◌∷◌, ◌++◌, ◌==◌, ltb, length,
  if◌then◌else◌,
}
use any_kvm.Common.Bytes.{Bytes}
use any_kvm.Common.Outcome.{Outcome, ok, panicked, ◌>>=◌}

-- The two values of `role` that `wsHandler` lets through.
pub data Role : Type 0 where
  device client : Role

pub record Room : Type 0 where
  pub device_peer : Option ℕ
  pub client_peer : Option ℕ
  pub device_name : String
  pub connected_at : ℕ
  pub offer_cache : Option Bytes

abbrev pub new_room : Room
new_room = record {
  device_peer = none;
  client_peer = none;
  device_name = "";
  connected_at = 0;
  offer_cache = none;
}

-- Where the goroutine of a connection stands in `wsHandler`, with the room it has got.
pub data Stage : Type 0 where
  idle : Stage  -- not called yet
  refused : Stage  -- returned with no peer
  upgraded : Stage  -- before `getOrCreate`
  found : ℕ → Stage  -- before `rm.set`
  joined : ℕ → Stage  -- before the name is set, or the cached offer read
  replaying : ℕ → Option Bytes → Stage  -- before the cached offer is sent
  serving : ℕ → Stage  -- in the loop
  leaving : ℕ → Stage  -- before `rm.clear`
  cleared : ℕ → Stage  -- before `close(p.send)`
  closing : Stage  -- before `tryDelete`
  finished : Stage

-- A connection and its `peer`: `queue` and `closed` are the channel `send`.
pub record Conn : Type 0 where
  pub room_id : String
  pub role : Role
  pub name : String
  pub stage : Stage
  pub queue : List Bytes
  pub closed : Bool
  pub pumping : Bool
  pub input : List Bytes
  pub output : List Bytes

pub record Server : Type 0 where
  pub heap : ℕ → Room
  pub next : ℕ
  pub rooms : List (String × ℕ)
  pub conns : ℕ → Conn

-- A store with another value at one pointer.
abbrev pub update : {A : Type 0} → (ℕ → A) → ℕ → A → ℕ → A
update f i a j = if i == j then a else f j

abbrev pub room_set : Role → ℕ → Room → Room
room_set device p r = record r { device_peer = some p }
room_set client p r = record r { client_peer = some p }

abbrev pub room_clear : Role → Room → Room
room_clear device r = record r { device_peer = none; offer_cache = none }
room_clear client r = record r { client_peer = none }

abbrev is_nil : Option ℕ → Bool
is_nil none = true
is_nil (some p) = false

abbrev pub is_empty : Room → Bool
is_empty r = is_nil r.device_peer && is_nil r.client_peer

-- The peer that a message from a role goes to.
abbrev pub target : Role → Room → Option ℕ
target device r = r.client_peer
target client r = r.device_peer

-- `json.Unmarshal(msg, &m) == nil && m.Type == "offer"`, for what the JSON library makes of the
-- message: `none` for an error, or the type.
abbrev pub is_offer : Option String → Bool
is_offer none = false
is_offer (some t) = str_eq t "offer"

-- The first part of `forward`: an offer of the device is remembered.
abbrev pub cache_offer : (Bytes → Option String) → Role → Bytes → Room → Room
cache_offer kind device msg r =
    if is_offer (kind msg) then (record r { offer_cache = some msg }) else r
cache_offer kind client msg r = r

-- The capacity of `send`.
abbrev pub send_buffer : ℕ
send_buffer = 64

-- `select { case p.send <- msg: default: }`, which panics on a closed channel.
abbrev pub try_send : Bytes → Conn → Outcome ⊥ Conn
try_send msg c =
    if c.closed
    then panicked
    else ok (
        if ltb (length c.queue) send_buffer
        then (record c { queue = c.queue ++ (msg ∷ []) })
        else c)

-- `close(p.send)`, which panics the second time.
abbrev pub close_send : Conn → Outcome ⊥ Conn
close_send c = if c.closed then panicked else ok (record c { closed = true })

-- `target` in `forward`
abbrev pub send_to : Option ℕ → Bytes → Server → Outcome ⊥ Server
send_to none msg s = ok s
send_to (some q) msg s = do
  c ← try_send msg (s.conns q)
  ok (record s { conns = update s.conns q c })

-- `forward` on the room at a pointer
unfoldable pub forward : (Bytes → Option String) → Role → ℕ → Bytes → Server → Outcome ⊥ Server
forward kind role r msg s =
    let room = cache_offer kind role msg (s.heap r) in
    send_to (target role room) msg (record s { heap = update s.heap r room })

unfoldable pub lookup : String → List (String × ℕ) → Option ℕ
lookup id [] = none
lookup id ((k, r) ∷ rooms) = if str_eq k id then some r else lookup id rooms

unfoldable pub remove : String → List (String × ℕ) → List (String × ℕ)
remove id [] = []
remove id ((k, r) ∷ rooms) = if str_eq k id then remove id rooms else ((k, r) ∷ remove id rooms)

abbrev pub create : String → Server → Server
create id s = record s {
  heap = update s.heap s.next new_room;
  next = suc s.next;
  rooms = (id, s.next) ∷ s.rooms;
}

-- `getOrCreate`, for the connection that goes on with the room
abbrev pub enter : Option ℕ → String → Server → Server × ℕ
enter (some r) id s = (s, r)
enter none id s = (create id s, s.next)

unfoldable pub get_or_create : String → Server → Server × ℕ
get_or_create id s = enter (lookup id s.rooms) id s

abbrev pub delete_at : Option ℕ → String → Server → Server
delete_at none id s = s
delete_at (some r) id s =
    if is_empty (s.heap r) then (record s { rooms = remove id s.rooms }) else s

unfoldable pub try_delete : String → Server → Server
try_delete id s = delete_at (lookup id s.rooms) id s
