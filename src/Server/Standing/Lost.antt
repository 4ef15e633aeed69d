-- ===== src/Server/Standing/Lost.antt =====
-- signal/main.go: a connection that is served, and that no message reaches any more.
use Prim.Native.String.{String}
use text.Mathlib.TextEquality.{eq_iff}
use any_kvm.Common.{
  ℕ, ◌≡◌, ◌≢◌, refl, sym, ap, ◌∙◌, true, Option, none, some, List, arith, if◌then◌else◌,
}
use any_kvm.Common.Bytes.{Bytes}
use any_kvm.Common.Outcome.{ok}
use any_kvm.Server.{
  Role, device, client, Room, Stage, Conn, Server, room_set, room_clear, target, cache_offer,
  forward, enter, get_or_create, lookup, remove, delete_at, try_delete, is_empty,
}
use any_kvm.Server.Handler.{Input, put_room, set_stage, handle_at, handle, Reach}
use any_kvm.Server.Invariant.{slot, slot_of, update_same, update_other}
use any_kvm.Server.Registry.{lookup-remove}
use any_kvm.Server.Safety.{Reach-Inv}
use any_kvm.Server.Steps.{slot-cache_offer, other, target-slot, slot_cleared, other-other}

-- Nobody stands where a message is to go: nobody gets it.
forward_nowhere :
    (kind : Bytes → Option String) (role : Role) (r : ℕ) (msg : Bytes) (s : Server)
    → slot (other role) (s.heap r) ≡ none
    → (u : Server) × (forward kind role r msg s ≡ ok u) × (u.conns ≡ s.conns)
unfolding forward
forward_nowhere kind role r msg s e =
    let room = cache_offer kind role msg (s.heap r) in
    let nobody : target role room ≡ none =
      target-slot role room ∙ slot-cache_offer kind role (other role) msg (s.heap r) ∙ e in
    (put_room r room s, rw nobody refl, refl)

handle-leaving :
    (kind : Bytes → Option String) (input : Input) (i r : ℕ) (s : Server)
    → (s.conns i).stage ≡ Stage.leaving r
    → handle kind input i s
      ≡ ok (set_stage i (Stage.cleared r) (put_room r (room_clear (s.conns i).role (s.heap r)) s))
unfolding handle handle_at
handle-leaving kind input i r s e = ap (λ g. handle_at kind g input i s) e

-- A connection that is taken over and then leaves takes its successor's place away: if connection
-- `i` leaves while connection `j` stands in its place, as after a reload of the page or a
-- reconnection of the device, then after the step `j` is as before, still with the room, and what
-- the other side sends to that room reaches no connection.
pub leaving-lost :
    (kind : Bytes → Option String) (input : Input) (i j r : ℕ) (s : Server) (msg : Bytes)
    → Reach kind s
    → (s.conns i).stage ≡ Stage.leaving r
    → slot (s.conns i).role (s.heap r) ≡ some j
    → i ≢ j
    → (t : Server) × (handle kind input i s ≡ ok t)
      × (t.conns j ≡ s.conns j)
      × (slot_of (t.conns j).stage ≡ some r)
      × ((u : Server) × (forward kind (other (s.conns i).role) r msg t ≡ ok u)
          × (u.conns ≡ t.conns))
leaving-lost kind input i j r s msg reach e d ne =
    let role = (s.conns i).role in
    let room = room_clear role (s.heap r) in
    let t = set_stage i (Stage.cleared r) (put_room r room s) in
    let same : t.conns j ≡ s.conns j = ground arith in
    let empty : slot (other (other role)) (t.heap r) ≡ none =
      ap (λ (x : Role). slot x (t.heap r)) (other-other role)
      ∙ ap (slot role) (update_same s.heap r room)
      ∙ slot_cleared role (s.heap r) in
    (
      t,
      handle-leaving kind input i r s e,
      same,
      ap (λ (c : Conn). slot_of c.stage) same ∙ ((Reach-Inv kind s reach).stands role r j d).1,
      forward_nowhere kind (other role) r msg t empty,
    )

handle-found :
    (kind : Bytes → Option String) (input : Input) (i r : ℕ) (s : Server)
    → (s.conns i).stage ≡ Stage.found r
    → handle kind input i s
      ≡ ok (set_stage i (Stage.joined r) (put_room r (room_set (s.conns i).role i (s.heap r)) s))
unfolding handle handle_at
handle-found kind input i r s e = ap (λ g. handle_at kind g input i s) e

handle-closing :
    (kind : Bytes → Option String) (input : Input) (i r : ℕ) (s : Server)
    → (s.conns i).stage ≡ Stage.closing
    → lookup (s.conns i).room_id s.rooms ≡ some r
    → is_empty (s.heap r) ≡ true
    → handle kind input i s
      ≡ ok (set_stage i Stage.finished (record s { rooms = remove (s.conns i).room_id s.rooms }))
unfolding handle handle_at try_delete
handle-closing kind input i r s e l d =
    ap (λ g. handle_at kind g input i s) e
    ∙ ap (λ o. ok (set_stage i Stage.finished (delete_at o (s.conns i).room_id s))) l
    ∙ ap
        (λ b. ok (
          set_stage i Stage.finished
            (if b then (record s { rooms = remove (s.conns i).room_id s.rooms }) else s)))
        d

slot-room_set_self : (role : Role) (i : ℕ) (room : Room) → slot role (room_set role i room) ≡ some i
slot-room_set_self device i room = refl
slot-room_set_self client i room = refl

lookup-remove_self : (id : String) (rooms : List (String × ℕ)) → lookup id (remove id rooms) ≡ none
lookup-remove_self id rooms = ground (arith, lookup-remove id id rooms, eq_iff id id)

-- A connection can be stranded between `getOrCreate` and `rm.set`: if connection `i` has got the
-- room of its name and connection `j`, the last of that room to leave, deletes it before `i` sets
-- its place, then after the two steps `i` stands in a room that the registry does not have, and
-- the next connection of that name gets another room.
pub joined-stranded :
    (kind : Bytes → Option String) (input input' : Input) (i j r : ℕ) (s : Server)
    → Reach kind s
    → (s.conns i).stage ≡ Stage.found r
    → (s.conns j).stage ≡ Stage.closing
    → (s.conns j).room_id ≡ (s.conns i).room_id
    → lookup (s.conns i).room_id s.rooms ≡ some r
    → is_empty (s.heap r) ≡ true
    → (t : Server) × (u : Server) × (handle kind input j s ≡ ok t)
      × (handle kind input' i t ≡ ok u)
      × (slot (s.conns i).role (u.heap r) ≡ some i)
      × (lookup (s.conns i).room_id u.rooms ≡ none)
      × ((get_or_create (s.conns i).room_id u).1 ≢ r)
unfolding get_or_create
joined-stranded kind input input' i j r s reach e d same l empty =
    let id : String = (s.conns i).room_id in
    let t : Server =
      set_stage j Stage.finished (record s { rooms = remove (s.conns j).room_id s.rooms }) in
    let ne : i ≢ j = λ h.
      let x : Stage.found r ≡ Stage.closing = sym e ∙ ap (λ n. (s.conns n).stage) h ∙ d in cc in
    let here : t.conns i ≡ s.conns i = update_other s.conns j _ i (λ h. ne (sym h)) in
    let u : Server =
      set_stage i (Stage.joined r) (put_room r (room_set (t.conns i).role i (t.heap r)) t) in
    let gone : lookup id u.rooms ≡ none =
      ap (λ n. lookup id (remove n s.rooms)) same ∙ lookup-remove_self id s.rooms in
    (
      t,
      u,
      handle-closing kind input j r s d (ap (λ n. lookup n s.rooms) same ∙ l) empty,
      handle-found kind input' i r t (ap (λ (c : Conn). c.stage) here ∙ e),
      ap (slot (s.conns i).role) (update_same s.heap r (room_set (t.conns i).role i (s.heap r)))
          ∙ ap (λ (c : Conn). slot (s.conns i).role (room_set c.role i (s.heap r))) here
          ∙ slot-room_set_self (s.conns i).role i (s.heap r),
      gone,
      λ h.
          let next : s.next ≡ r = ap (λ (o : Option ℕ). (enter o id u).1) (sym gone) ∙ h in
          absurd (omega (arith, ((Reach-Inv kind s reach).registered id r l).0)),
    )
