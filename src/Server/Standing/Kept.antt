-- ===== src/Server/Standing/Kept.antt =====
-- signal/main.go: each step of the goroutines, and who stands where.
use Prim.Native.String.{String}
use any_kvm.Common.{
  ℕ, ◌≡◌, refl, ◌∙◌, Bool, true, false, Option, none, some, [], ◌∷◌, ◌++◌, arith, Bool-cases, inl,
  inr, if◌then◌else◌,
}
use any_kvm.Common.Bytes.{Bytes}
use any_kvm.Common.Outcome.{ok, ◌>>=◌, Succeeds, Succeeds-bind, Succeeds-mono}
use any_kvm.Server.{
  Role, device, client, Room, Stage, Conn, Server, room_set, room_clear, target, cache_offer,
  try_send, close_send, send_to, forward, enter, get_or_create, lookup, delete_at, try_delete,
  is_empty,
}
use any_kvm.Server.Handler.{
  Request, Input, request, now, received, read_error, upgrade, accept, check_query, put_conn,
  put_room, name_room, after_set, replay, is_json, serve, enter_room, handle_at, handle, Reach,
}
use any_kvm.Server.Invariant.{Inv, slot}
use any_kvm.Server.Safety.{Reach-Inv}
use any_kvm.Server.Steps.{
  keep, is_open, try_send-ok, close_send-ok, slot-cache_offer, put_same_slots, other, target-slot,
}
use any_kvm.Server.Standing.Refine.{
  put_room-standing, put_same-standing, send_to-standing, create-standing, delete-standing,
}
use any_kvm.Server.Standing.{standing, same_role, is_current, then_standing}

slot-room_set_if :
    (role ro : Role) (i : ℕ) (room : Room)
    → slot ro (room_set role i room) ≡ (if same_role role ro then some i else slot ro room)
slot-room_set_if device device i room = refl
slot-room_set_if device client i room = refl
slot-room_set_if client device i room = refl
slot-room_set_if client client i room = refl

slot-room_clear_if :
    (role ro : Role) (room : Room)
    → slot ro (room_clear role room) ≡ (if same_role role ro then none else slot ro room)
slot-room_clear_if device device room = refl
slot-room_clear_if device client room = refl
slot-room_clear_if client device room = refl
slot-room_clear_if client client room = refl

-- The same peers as in a state.
abbrev Same : Server → Server → Type 0
Same s t = (key : String) (ro : Role) → standing t key ro ≡ standing s key ro

accept-standing : (o : Option Role) (q : Request) (i : ℕ) (s : Server) → Same s (accept o q i s)
accept-standing none q i s key ro = refl
accept-standing (some role) q i s key ro = upgraded q.upgrades
  where
    upgraded : (b : Bool) → standing (upgrade b role q i s) key ro ≡ standing s key ro
    upgraded true = refl
    upgraded false = refl

module _ (i : ℕ) (s : Server) (inv : Inv s) where
  enter-standing :
      (o : Option ℕ)
      → lookup (s.conns i).room_id s.rooms ≡ o
      → Same s (enter_room (enter o (s.conns i).room_id s) i)
  enter-standing (some r) l = λ key ro. refl
  enter-standing none l = create-standing s inv (s.conns i).room_id l

  after_set-standing : (role : Role) (r : ℕ) (input : Input) → Same s (after_set role r input i s)
  after_set-standing device r (now time) =
      put_same-standing s inv r (name_room (s.conns i) time (s.heap r)) (λ ro. named ro)
    where
      named : (ro : Role) → slot ro (name_room (s.conns i) time (s.heap r)) ≡ slot ro (s.heap r)
      named device = refl
      named client = refl
  after_set-standing device r (request q) = λ key ro. refl
  after_set-standing device r (received m) = λ key ro. refl
  after_set-standing device r read_error = λ key ro. refl
  after_set-standing client r input = λ key ro. refl

  replay-standing :
      (r : ℕ) (cached : Option Bytes)
      → (s.conns i).stage ≡ Stage.replaying r cached
      → Succeeds (replay r cached i s) (Same s)
  replay-standing r none e = λ key ro. refl
  replay-standing r (some offer) e =
      let to = λ (c : Conn). put_conn i (record c { stage = Stage.serving r }) s in
      Succeeds-bind (λ c. Same s (to c)) (Same s) (try_send offer (s.conns i)) (λ c. ok (to c))
        (try_send-ok (λ c. Same s (to c)) offer (s.conns i) (is_open s inv i (ground (arith, e)))
          (λ key ro. refl) (λ k key ro. refl))
        (λ c h. h)

  close-standing :
      (r : ℕ)
      → (s.conns i).stage ≡ Stage.cleared r
      → Succeeds
          (do c ← close_send (s.conns i); ok (put_conn i (record c { stage = Stage.closing }) s))
          (Same s)
  close-standing r e =
      let to = λ (c : Conn). put_conn i (record c { stage = Stage.closing }) s in
      Succeeds-bind (λ c. Same s (to c)) (Same s) (close_send (s.conns i)) (λ c. ok (to c))
        (close_send-ok (λ c. Same s (to c)) (s.conns i) (is_open s inv i (ground (arith, e)))
          (λ key ro. refl))
        (λ c h. h)

  delete_at-standing :
      (id : String) (o : Option ℕ) → lookup id s.rooms ≡ o → Same s (delete_at o id s)
  delete_at-standing id none l = λ key ro. refl
  delete_at-standing id (some r) l = elim (Bool-cases (is_empty (s.heap r))) [
    | inl e ↦ λ key ro. rw e (delete-standing s inv id r l e key ro)
    | inr e ↦ λ key ro. rw e refl
  ]

forward-standing :
    (kind : Bytes → Option String) (role : Role) (r : ℕ) (msg : Bytes) (s : Server)
    → Inv s
    → Succeeds (forward kind role r msg s) (Same s)
unfolding forward
forward-standing kind role r msg s inv =
    Succeeds-mono (Same (put_room r room s)) (Same s)
      (send_to (target role room) msg (put_room r room s))
      (λ t h key ro. h key ro ∙ put_same-standing s inv r room same key ro)
      (send_to-standing (put_room r room s) (put_same_slots s inv r room same) (other role) r msg
        (target role room) (ground (arith, target-slot role room)))
  where
    room : Room
    room = cache_offer kind role msg (s.heap r)

    same : (ro : Role) → slot ro room ≡ slot ro (s.heap r)
    same ro = slot-cache_offer kind role ro msg (s.heap r)

serve-standing :
    (kind : Bytes → Option String) (r : ℕ) (input : Input) (i : ℕ) (s : Server)
    → Inv s
    → Succeeds (serve kind r input i s) (Same s)
serve-standing kind r (received raw) i s inv =
    elim (is_json (kind raw))
      as (λ b. Succeeds (if b then forward kind (s.conns i).role r raw s' else ok s') (Same s)) [
        | true ↦
            forward-standing kind (s.conns i).role r raw s'
              (keep s inv i _ refl refl refl (λ q k. k) (λ q k. k) (λ h. h) (inv.bounded i))
        | false ↦ λ key ro. refl
      ]
  where
    s' : Server
    s' = put_conn i (record (s.conns i) { input = (s.conns i).input ++ (raw ∷ []) }) s
serve-standing kind r read_error i s inv = λ key ro. refl
serve-standing kind r (request q) i s inv = λ key ro. refl
serve-standing kind r (now time) i s inv = λ key ro. refl

handle_at-standing :
    (kind : Bytes → Option String) (input : Input) (i : ℕ) (s : Server)
    → Inv s
    → (g : Stage) → (s.conns i).stage ≡ g
    → Succeeds (handle_at kind g input i s) (λ t.
      (key : String) (ro : Role)
      → standing t key ro
        ≡ then_standing g
            (is_current s (s.conns i).room_id g)
            i
            (s.conns i).room_id
            (s.conns i).role
            (standing s)
            key
            ro)
unfolding handle_at get_or_create try_delete
handle_at-standing kind (request q) i s inv Stage.idle e = accept-standing (check_query q) q i s
handle_at-standing kind (now time) i s inv Stage.idle e = λ key ro. refl
handle_at-standing kind (received raw) i s inv Stage.idle e = λ key ro. refl
handle_at-standing kind read_error i s inv Stage.idle e = λ key ro. refl
handle_at-standing kind input i s inv Stage.refused e = λ key ro. refl
handle_at-standing kind input i s inv Stage.upgraded e =
    enter-standing i s inv (lookup (s.conns i).room_id s.rooms) refl
handle_at-standing kind input i s inv (Stage.found r) e =
    let c = s.conns i in
    put_room-standing s inv r (room_set c.role i (s.heap r)) c.room_id c.role (some i)
      (inv.held i r (ground (arith, e))).1 (λ ro. slot-room_set_if c.role ro i (s.heap r))
handle_at-standing kind input i s inv (Stage.joined r) e =
    after_set-standing i s inv (s.conns i).role r input
handle_at-standing kind input i s inv (Stage.replaying r cached) e =
    replay-standing i s inv r cached e
handle_at-standing kind input i s inv (Stage.serving r) e = serve-standing kind r input i s inv
handle_at-standing kind input i s inv (Stage.leaving r) e =
    let c = s.conns i in
    put_room-standing s inv r (room_clear c.role (s.heap r)) c.room_id c.role none
      (inv.held i r (ground (arith, e))).1 (λ ro. slot-room_clear_if c.role ro (s.heap r))
handle_at-standing kind input i s inv (Stage.cleared r) e = close-standing i s inv r e
handle_at-standing kind input i s inv Stage.closing e =
    delete_at-standing i s inv (s.conns i).room_id (lookup (s.conns i).room_id s.rooms) refl
handle_at-standing kind input i s inv Stage.finished e = λ key ro. refl

-- In every reachable state the next step of a goroutine returns, and who stands where after it is
-- given by who stood where before, the connection's stage, room name and role, and one bit of the
-- registry: whether the room that it has got is still the one registered under its name. Only
-- `rm.set` and `rm.clear` change a place, that of the connection's own room name and role, and only
-- if the bit is set; making a room, deleting one, forwarding, and closing a channel change none.
pub handle-standing :
    (kind : Bytes → Option String) (s : Server) (input : Input) (i : ℕ)
    → Reach kind s
    → Succeeds (handle kind input i s) (λ t.
      let c = s.conns i in
      (key : String) (ro : Role)
      → standing t key ro
        ≡ then_standing c.stage
            (is_current s c.room_id c.stage)
            i
            c.room_id
            c.role
            (standing s)
            key
            ro)
unfolding handle
handle-standing kind s input i r =
    handle_at-standing kind input i s (Reach-Inv kind s r) (s.conns i).stage refl
