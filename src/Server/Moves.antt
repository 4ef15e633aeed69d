-- ===== src/Server/Moves.antt =====
-- signal/main.go: each stage of `wsHandler`, and who stands in which room.
use Prim.Native.String.{String}
use any_kvm.Common.{
  ℕ, ◌≤◌, ◌<◌, ◌≡◌, refl, sym, ap, ◌∙◌, true, false, Option, none, some, [], ◌∷◌, ◌++◌, arith,
  length, inl, inr, if◌then◌else◌, length-append,
}
use any_kvm.Common.Bytes.{Bytes}
use any_kvm.Common.Outcome.{ok, ◌>>=◌, Succeeds, Succeeds-bind}
use any_kvm.Server.{
  Role, device, client, Stage, Conn, Server, room_set, room_clear, send_buffer, forward, enter,
  get_or_create, lookup, try_delete, try_send, close_send,
}
use any_kvm.Server.Handler.{
  Request, Input, request, now, received, read_error, upgrade, put_conn, put_room, set_stage,
  accept, name_room, start_pump, after_set, replay, is_json, serve, enter_room,
}
use any_kvm.Server.Invariant.{Inv, slot, slot_of, room_of, has_closed, put_conn-Inv, put_room-Inv}
use any_kvm.Server.Registry.{enter-Inv, try_delete-Inv, try_delete-conns}
use any_kvm.Server.Steps.{
  keep, outside, is_open, put_same_slots, forward-Inv, try_send-ok, close_send-ok, slot-room_set,
  slot-room_clear, slot_cleared,
}

module _ (i : ℕ) (s : Server) (inv : Inv s) where
  open inv use {name, registered, stands, held, open_until, bounded}

  pub aside :
      (c : Conn)
      → slot_of (s.conns i).stage ≡ none
      → room_of c.stage ≡ none
      → (c.closed ≡ true → has_closed c.stage ≡ true)
      → length c.queue ≤ send_buffer
      → Inv (put_conn i c s)
  aside c e n h b = outside s inv i c e (λ r k. ground (arith, n)) h b

  pub accept-Inv :
      (o : Option Role) (q : Request) → (s.conns i).stage ≡ Stage.idle → Inv (accept o q i s)
  accept-Inv none q e =
      aside _ (ground (arith, e)) refl (λ h. ground (arith, open_until i, e)) (bounded i)
  accept-Inv (some role) q e = elim q.upgrades as (λ b. Inv (upgrade b role q i s)) [
    | true ↦ aside _ (ground (arith, e)) refl (λ h. ground (arith, open_until i, e)) (bounded i)
    | false ↦ aside _ (ground (arith, e)) refl (λ h. ground (arith, open_until i, e)) (bounded i)
  ]

  pub set-Inv :
      (r : ℕ)
      → (s.conns i).stage ≡ Stage.found r
      → Inv (set_stage i (Stage.joined r) (put_room r (room_set (s.conns i).role i (s.heap r)) s))
  set-Inv r e =
      let inv' : Inv (set_stage i (Stage.joined r) s) =
        outside s inv i (record (s.conns i) { stage = Stage.joined r }) (ground (arith, e))
          (λ q k. held i q (ground (arith, e))) (λ h. ground (arith, open_until i, e))
          (bounded i) in
      put_room-Inv (set_stage i (Stage.joined r) s) inv' r (room_set (s.conns i).role i (s.heap r))
        (λ role p k. elim (slot-room_set (s.conns i).role role i p (s.heap r) k) [
          | inl me ↦ ground (arith, me)
          | inr old ↦ inv'.stands role r p old
        ])

  pub after_set-Inv :
      (role : Role) (r : ℕ) (input : Input)
      → (s.conns i).stage ≡ Stage.joined r
      → Inv (after_set role r input i s)
  after_set-Inv device r (now time) e =
      put_same_slots (put_conn i (start_pump (s.conns i) (Stage.serving r)) s)
        (keep s inv i _ refl refl refl (λ q k. ground (arith, e)) (λ q k. ground (arith, e))
          (λ h. ground (arith, e)) (bounded i))
        r (name_room (s.conns i) time (s.heap r)) (λ role. named role)
    where
      named :
          (role : Role) → slot role (name_room (s.conns i) time (s.heap r)) ≡ slot role (s.heap r)
      named device = refl
      named client = refl
  after_set-Inv device r (request q) e = inv
  after_set-Inv device r (received m) e = inv
  after_set-Inv device r read_error e = inv
  after_set-Inv client r input e =
      keep s inv i _ refl refl refl (λ q k. ground (arith, e)) (λ q k. ground (arith, e))
        (λ h. ground (arith, e)) (bounded i)

  pub replay-Inv :
      (r : ℕ) (cached : Option Bytes)
      → (s.conns i).stage ≡ Stage.replaying r cached
      → Succeeds (replay r cached i s) Inv
  replay-Inv r none e =
      keep s inv i _ refl refl refl (λ q k. ground (arith, e)) (λ q k. ground (arith, e))
        (λ h. ground (arith, e)) (bounded i)
  replay-Inv r (some offer) e =
      let to = λ (c : Conn). put_conn i (record c { stage = Stage.serving r }) s in
      Succeeds-bind (λ c. Inv (to c)) Inv (try_send offer (s.conns i)) (λ c. ok (to c))
        (try_send-ok (λ c. Inv (to c)) offer (s.conns i) (is_open s inv i (ground (arith, e)))
          (keep s inv i _ refl refl refl (λ q k. ground (arith, e)) (λ q k. ground (arith, e))
            (λ h. ground (arith, e)) (bounded i))
          (λ k.
            keep s inv i _ refl refl refl (λ q k. ground (arith, e)) (λ q k. ground (arith, e))
              (λ h. ground (arith, e))
              (omega (arith, length-append {A = Bytes} (s.conns i).queue (offer ∷ [])))))
        (λ c h. h)

  pub serve-Inv :
      (kind : Bytes → Option String) (r : ℕ) (input : Input)
      → (s.conns i).stage ≡ Stage.serving r
      → Succeeds (serve kind r input i s) Inv
  serve-Inv kind r (received raw) e =
      elim (is_json (kind raw))
        as (λ b. Succeeds (if b then forward kind (s.conns i).role r raw s' else ok s') Inv) [
          | true ↦ forward-Inv kind (s.conns i).role r raw s' inv'
          | false ↦ inv'
        ]
    where
      s' : Server
      s' = put_conn i (record (s.conns i) { input = (s.conns i).input ++ (raw ∷ []) }) s

      inv' : Inv s'
      inv' = keep s inv i _ refl refl refl (λ q k. k) (λ q k. k) (λ h. h) (bounded i)
  serve-Inv kind r read_error e =
      keep s inv i _ refl refl refl (λ q k. ground (arith, e)) (λ q k. ground (arith, e))
        (λ h. ground (arith, e)) (bounded i)
  serve-Inv kind r (request q) e = inv
  serve-Inv kind r (now time) e = inv

  pub clear-Inv :
      (r : ℕ)
      → (s.conns i).stage ≡ Stage.leaving r
      → Inv (set_stage i (Stage.cleared r) (put_room r (room_clear (s.conns i).role (s.heap r)) s))
  clear-Inv r e =
      let room = room_clear (s.conns i).role (s.heap r) in
      let inv' : Inv (put_room r room s) =
        put_room-Inv s inv r room
          (λ role p k. stands role r p (slot-room_clear (s.conns i).role role p (s.heap r) k)) in
      put_conn-Inv (put_room r room s) inv' i (record (s.conns i) { stage = Stage.cleared r })
        (record {
          fits = λ role q k.
              absurd (ground (arith, e, inv'.stands role q i k, slot_cleared role (s.heap r)));
          held_in = λ q k. inv'.held i q (ground (arith, e));
          open_before = λ h. ground (arith, open_until i, e);
          bounded_queue = bounded i;
        })

  pub close-Inv :
      (r : ℕ)
      → (s.conns i).stage ≡ Stage.cleared r
      → Succeeds
          (do c ← close_send (s.conns i); ok (put_conn i (record c { stage = Stage.closing }) s))
          Inv
  close-Inv r e =
      let to = λ (c : Conn). put_conn i (record c { stage = Stage.closing }) s in
      Succeeds-bind (λ c. Inv (to c)) Inv (close_send (s.conns i)) (λ c. ok (to c))
        (close_send-ok (λ c. Inv (to c)) (s.conns i) (is_open s inv i (ground (arith, e)))
          (aside _ (ground (arith, e)) refl (λ h. refl) (bounded i)))
        (λ c h. h)

pub enter_room-Inv :
    (i : ℕ) (t : Server) (inv : Inv t) (r : ℕ)
    → r < t.next
    → inv.name r ≡ (t.conns i).room_id
    → (t.conns i).stage ≡ Stage.upgraded
    → Inv (enter_room (t, r) i)
enter_room-Inv i t inv r small named e =
    outside t inv i (record (t.conns i) { stage = Stage.found r }) (ground (arith, e))
      (λ q k. ground arith) (λ h. ground (arith, inv.open_until i, e)) (inv.bounded i)

pub finish-Inv :
    (i : ℕ) (t : Server) (inv : Inv t)
    → (t.conns i).stage ≡ Stage.closing
    → Inv (set_stage i Stage.finished t)
finish-Inv i t inv e =
    aside i t inv (record (t.conns i) { stage = Stage.finished }) (ground (arith, e)) refl
      (λ h. refl) (inv.bounded i)

pub delete-Inv :
    (i : ℕ) (s : Server)
    → Inv s
    → (s.conns i).stage ≡ Stage.closing
    → Inv (set_stage i Stage.finished (try_delete (s.conns i).room_id s))
delete-Inv i s inv e =
    finish-Inv i (try_delete (s.conns i).room_id s) (try_delete-Inv s inv (s.conns i).room_id)
      (ap (λ (f : ℕ → Conn). (f i).stage) (try_delete-conns (s.conns i).room_id s) ∙ e)

pub get-Inv :
    (i : ℕ) (s : Server)
    → Inv s
    → (s.conns i).stage ≡ Stage.upgraded
    → Inv (enter_room (get_or_create (s.conns i).room_id s) i)
unfolding get_or_create
get-Inv i s inv e =
    let id : String = (s.conns i).room_id in
    let (inv', small, named, same) = enter-Inv s inv id (lookup id s.rooms) refl in
    let same_i = ap (λ (f : ℕ → Conn). f i) same in
    enter_room-Inv i (enter (lookup id s.rooms) id s).0 inv' (enter (lookup id s.rooms) id s).1
      small (named ∙ sym (ap (λ (c : Conn). c.room_id) same_i))
      (ap (λ (c : Conn). c.stage) same_i ∙ e)
