-- ===== src/Server/Steps.antt =====
-- signal/main.go: the steps of `wsHandler` and `writePump`, taken one by one.
use Prim.Native.String.{String}
use any_kvm.Common.{
  ℕ, ◌≤◌, ◌<◌, ◌≡◌, refl, sym, ◌∙◌, Bool, true, false, Option, none, some, [], ◌∷◌, ◌++◌, arith,
  ltb, ltb→lt, length, ◌⊎◌, inl, inr, if◌then◌else◌, length-append,
}
use any_kvm.Common.Bytes.{Bytes}
use any_kvm.Common.Outcome.{ok, panicked, Succeeds, Succeeds-bind}
use any_kvm.Server.{
  Role, device, client, Room, Conn, Server, room_set, room_clear, target, send_buffer, cache_offer,
  try_send, close_send, send_to, forward,
}
use any_kvm.Server.Handler.{put_conn, put_room}
use any_kvm.Server.Invariant.{Inv, slot, slot_of, room_of, has_closed, put_conn-Inv, put_room-Inv}

abbrev pub other : Role → Role
other device = client
other client = device

pub other-other : (role : Role) → other (other role) ≡ role
other-other device = refl
other-other client = refl

pub target-slot : (role : Role) (room : Room) → target role room ≡ slot (other role) room
target-slot device room = refl
target-slot client room = refl

pub slot-room_set :
    (role role' : Role) (i p : ℕ) (room : Room)
    → slot role' (room_set role i room) ≡ some p
    → ((role ≡ role') × (i ≡ p)) ⊎ (slot role' room ≡ some p)
slot-room_set device device i p room e = inl (refl, cc)
slot-room_set device client i p room e = inr e
slot-room_set client device i p room e = inr e
slot-room_set client client i p room e = inl (refl, cc)

pub slot-room_clear :
    (role role' : Role) (p : ℕ) (room : Room)
    → slot role' (room_clear role room) ≡ some p
    → slot role' room ≡ some p
slot-room_clear device device p room e = cc
slot-room_clear device client p room e = e
slot-room_clear client device p room e = e
slot-room_clear client client p room e = cc

pub slot_cleared : (role : Role) (room : Room) → slot role (room_clear role room) ≡ none
slot_cleared device room = refl
slot_cleared client room = refl

pub slot-cache_offer :
    (kind : Bytes → Option String) (role role' : Role) (msg : Bytes) (room : Room)
    → slot role' (cache_offer kind role msg room) ≡ slot role' room
slot-cache_offer kind device device msg room = ground arith
slot-cache_offer kind device client msg room = ground arith
slot-cache_offer kind client role' msg room = refl

branch :
    {C : Type 0} (P : C → Type 0) (b t : Bool) (x y : C)
    → b ≡ false
    → P y
    → (t ≡ true → P x)
    → Succeeds {E = ⊥} (if b then panicked else ok (if t then x else y)) P
branch P true t x y e h k = absurd (cc)
branch P false true x y e h k = k refl
branch P false false x y e h k = h

unless :
    {C : Type 0} (P : C → Type 0) (b : Bool) (x : C)
    → b ≡ false
    → P x
    → Succeeds {E = ⊥} (if b then panicked else ok x) P
unless P true x e h = absurd (cc)
unless P false x e h = h

-- `select` on an open channel
pub try_send-ok :
    (P : Conn → Type 0) (msg : Bytes) (c : Conn)
    → c.closed ≡ false
    → P c
    → (length c.queue < send_buffer → P (record c { queue = c.queue ++ (msg ∷ []) }))
    → Succeeds (try_send msg c) P
try_send-ok P msg c e full room =
    branch P c.closed (ltb (length c.queue) send_buffer) _ c e full
      (λ t. room (ltb→lt (length c.queue) send_buffer t))

pub close_send-ok :
    (P : Conn → Type 0) (c : Conn)
    → c.closed ≡ false
    → P (record c { closed = true })
    → Succeeds (close_send c) P
close_send-ok P c e h = unless P c.closed _ e h

module _ (s : Server) (inv : Inv s) where
  open inv use {name, registered, stands, held, open_until, bounded}

  pub is_open : (i : ℕ) → has_closed (s.conns i).stage ≡ false → (s.conns i).closed ≡ false
  is_open i e = ground (arith, open_until i)

  -- A connection that goes on in its room, or takes no part.
  pub keep :
      (i : ℕ) (c : Conn)
      → c.role ≡ (s.conns i).role
      → c.room_id ≡ (s.conns i).room_id
      → c.closed ≡ (s.conns i).closed
      → ((r : ℕ) → slot_of (s.conns i).stage ≡ some r → slot_of c.stage ≡ some r)
      → ((r : ℕ) → room_of c.stage ≡ some r → room_of (s.conns i).stage ≡ some r)
      → (has_closed (s.conns i).stage ≡ true → has_closed c.stage ≡ true)
      → length c.queue ≤ send_buffer
      → Inv (put_conn i c s)
  keep i c e1 e2 e3 f g h b = put_conn-Inv s inv i c (record {
    fits = λ role r e. let (a, d) = stands role r i e in (e1 ∙ a, f r d);
    held_in = λ r e. let (a, d) = held i r (g r e) in (a, d ∙ sym e2);
    open_before = λ e. h (open_until i (sym e3 ∙ e));
    bounded_queue = b;
  })

  -- A connection that stands in no room.
  pub outside :
      (i : ℕ) (c : Conn)
      → slot_of (s.conns i).stage ≡ none
      → ((r : ℕ) → room_of c.stage ≡ some r → (r < s.next) × (name r ≡ c.room_id))
      → (c.closed ≡ true → has_closed c.stage ≡ true)
      → length c.queue ≤ send_buffer
      → Inv (put_conn i c s)
  outside i c e g h b = put_conn-Inv s inv i c (record {
    fits = λ role r d. absurd (ground (arith, stands role r i d));
    held_in = g;
    open_before = h;
    bounded_queue = b;
  })

  pub put_same_slots :
      (r : ℕ) (room : Room)
      → ((role : Role) → slot role room ≡ slot role (s.heap r))
      → Inv (put_room r room s)
  put_same_slots r room h =
      put_room-Inv s inv r room (λ role p e. stands role r p (sym (h role) ∙ e))

  pub send_to-Inv :
      (role : Role) (r : ℕ) (msg : Bytes) (o : Option ℕ)
      → slot role (s.heap r) ≡ o
      → Succeeds (send_to o msg s) Inv
  send_to-Inv role r msg none e = inv
  send_to-Inv role r msg (some q) e =
      Succeeds-bind (λ c. Inv (put_conn q c s)) Inv (try_send msg (s.conns q))
        (λ c. ok (put_conn q c s))
        (try_send-ok (λ c. Inv (put_conn q c s)) msg (s.conns q)
          (is_open q (ground (arith, stands role r q e)))
          (keep q (s.conns q) refl refl refl (λ r e. e) (λ r e. e) (λ e. e) (bounded q))
          (λ k.
            keep q _ refl refl refl (λ r e. e) (λ r e. e) (λ e. e)
              (omega (arith, length-append {A = Bytes} (s.conns q).queue (msg ∷ [])))))
        (λ c h. h)

pub forward-Inv :
    (kind : Bytes → Option String) (role : Role) (r : ℕ) (msg : Bytes) (s : Server)
    → Inv s
    → Succeeds (forward kind role r msg s) Inv
unfolding forward
forward-Inv kind role r msg s inv =
    send_to-Inv (put_room r room s)
      (put_same_slots s inv r room (λ role'. slot-cache_offer kind role role' msg (s.heap r)))
      (other role) r msg (target role room) (ground (arith, target-slot role room))
  where
    room : Room
    room = cache_offer kind role msg (s.heap r)
