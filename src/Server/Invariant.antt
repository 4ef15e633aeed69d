-- ===== src/Server/Invariant.antt =====
-- signal/main.go: who stands in which room, in every reachable state of the server.
use Prim.Native.String.{String}
use any_kvm.Common.{
  ℕ, ◌≤◌, ◌<◌, ◌≡◌, ◌≢◌, Bool, true, false, Option, none, some, length, arith, ◌==◌, Bool-cases,
  inl, inr,
}
use any_kvm.Server.{Role, device, client, Room, Stage, Conn, Server, update, send_buffer, lookup}
use any_kvm.Server.Handler.{put_conn, put_room}

-- The room that a goroutine has got.
abbrev pub room_of : Stage → Option ℕ
room_of (Stage.found r) = some r
room_of (Stage.joined r) = some r
room_of (Stage.replaying r cached) = some r
room_of (Stage.serving r) = some r
room_of (Stage.leaving r) = some r
room_of (Stage.cleared r) = some r
room_of _ = none

-- The room that it may stand in.
abbrev pub slot_of : Stage → Option ℕ
slot_of (Stage.joined r) = some r
slot_of (Stage.replaying r cached) = some r
slot_of (Stage.serving r) = some r
slot_of (Stage.leaving r) = some r
slot_of _ = none

-- It has closed its channel.
abbrev pub has_closed : Stage → Bool
has_closed Stage.closing = true
has_closed Stage.finished = true
has_closed _ = false

abbrev pub slot : Role → Room → Option ℕ
slot device r = r.device_peer
slot client r = r.client_peer

-- A connection that may stand in a room, in a role.
abbrev pub Fits : Role → ℕ → Conn → Type 0
Fits role r c = (c.role ≡ role) × (slot_of c.stage ≡ some r)

pub record Inv (s : Server) : Type 0 where
  pub name : ℕ → String
  pub registered : (id : String) (r : ℕ) → lookup id s.rooms ≡ some r → (r < s.next) × (name r ≡ id)
  pub stands : (role : Role) (r p : ℕ) → slot role (s.heap r) ≡ some p → Fits role r (s.conns p)
  pub held :
      (p r : ℕ) → room_of (s.conns p).stage ≡ some r → (r < s.next) × (name r ≡ (s.conns p).room_id)
  pub open_until : (p : ℕ) → (s.conns p).closed ≡ true → has_closed (s.conns p).stage ≡ true
  pub bounded : (p : ℕ) → length (s.conns p).queue ≤ send_buffer

pub update-cases :
    {A : Type 0} (P : ℕ → A → Type 0) (f : ℕ → A) (i : ℕ) (a : A) (j : ℕ)
    → P i a
    → P j (f j)
    → P j (update f i a j)
update-cases P f i a j here there = elim (Bool-cases (i == j)) [
  | inl e ↦ ground (arith, here, there)
  | inr e ↦ rw e there
]

pub update_same : {A : Type 0} (f : ℕ → A) (i : ℕ) (a : A) → update f i a i ≡ a
update_same f i a = ground arith

pub update_other : {A : Type 0} (f : ℕ → A) (i : ℕ) (a : A) (j : ℕ) → i ≢ j → update f i a j ≡ f j
update_other f i a j h = ground arith

-- What a new value of a connection has to keep.
pub record Keeps (s : Server) (name : ℕ → String) (i : ℕ) (c : Conn) : Type 0 where
  pub fits : (role : Role) (r : ℕ) → slot role (s.heap r) ≡ some i → Fits role r c
  pub held_in : (r : ℕ) → room_of c.stage ≡ some r → (r < s.next) × (name r ≡ c.room_id)
  pub open_before : c.closed ≡ true → has_closed c.stage ≡ true
  pub bounded_queue : length c.queue ≤ send_buffer

module _ (s : Server) (inv : Inv s) where
  open inv use {name, registered, stands, held, open_until, bounded}

  pub put_conn-Inv : (i : ℕ) (c : Conn) → Keeps s name i c → Inv (put_conn i c s)
  put_conn-Inv i c k = record {
    name = name;
    registered = registered;
    stands = λ role r p e.
        update-cases (λ j d. slot role (s.heap r) ≡ some j → Fits role r d) s.conns i c p
          (k.fits role r) (stands role r p) e;
    held = λ p r.
        update-cases (λ j d. room_of d.stage ≡ some r → (r < s.next) × (name r ≡ d.room_id)) s.conns
          i c p (k.held_in r) (held p r);
    open_until = λ p.
        update-cases (λ j d. d.closed ≡ true → has_closed d.stage ≡ true) s.conns i c p
          k.open_before (open_until p);
    bounded = λ p.
        update-cases (λ j d. length d.queue ≤ send_buffer) s.conns i c p k.bounded_queue
          (bounded p);
  }

  pub put_room-Inv :
      (r : ℕ) (room : Room)
      → ((role : Role) (p : ℕ) → slot role room ≡ some p → Fits role r (s.conns p))
      → Inv (put_room r room s)
  put_room-Inv r room k = record {
    name = name;
    registered = registered;
    stands = λ role q p.
        update-cases (λ j t. slot role t ≡ some p → Fits role j (s.conns p)) s.heap r room q
          (k role p) (stands role q p);
    held = held;
    open_until = open_until;
    bounded = bounded;
  }
