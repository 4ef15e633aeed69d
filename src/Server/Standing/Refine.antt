-- ===== src/Server/Standing/Refine.antt =====
-- signal/main.go: the heap and the registry keep who stands where.
use Prim.Native.String.{String}
use text.Mathlib.Text.{◌==◌ as str_eq}
use text.Mathlib.TextEquality.{eq_iff}
use any_kvm.Common.{
  ℕ, ◌<◌, ◌≡◌, refl, sym, ap, ◌∙◌, Bool, true, false, ◌&&◌, Option, none, some, arith, ◌==◌,
  Bool-cases, inl, inr, if◌then◌else◌,
}
use any_kvm.Common.Bytes.{Bytes}
use any_kvm.Common.Outcome.{ok, Succeeds, Succeeds-bind}
use any_kvm.Server.{
  Role, device, client, Room, new_room, Server, update, try_send, send_to, create, lookup, remove,
  is_empty,
}
use any_kvm.Server.Handler.{put_conn, put_room}
use any_kvm.Server.Invariant.{Inv, slot}
use any_kvm.Server.Registry.{lookup-remove}
use any_kvm.Server.Steps.{is_open, try_send-ok}
use any_kvm.Server.Standing.{standing_at, standing, same_role, is_at, place}

standing_at-update :
    (o : Option ℕ) (heap : ℕ → Room) (r : ℕ) (room : Room) (role : Role)
    → standing_at o (update heap r room) role
      ≡ (if is_at r o then slot role room else standing_at o heap role)
standing_at-update none heap r room role = refl
standing_at-update (some q) heap r room role = ground arith

is_at-some : (r : ℕ) (o : Option ℕ) → is_at r o ≡ true → o ≡ some r
is_at-some r none e = absurd (cc)
is_at-some r (some q) e = ground arith

one_place :
    (r : ℕ) (o k : Option ℕ) (b same : Bool) (heap : ℕ → Room) (p new : Option ℕ) (role : Role)
    → (b ≡ true → o ≡ k)
    → (is_at r o ≡ true → b ≡ true)
    → new ≡ (if same then p else slot role (heap r))
    → (if is_at r o then new else standing_at o heap role)
      ≡ (if is_at r k && (b && same) then p else standing_at o heap role)
one_place r none k false same heap p new role f g h = ground arith
one_place r none k true same heap p new role f g h = ground (arith, f)
one_place r (some q) k false same heap p new role f g h = ground (arith, g)
one_place r (some q) k true same heap p new role f g h = elim (Bool-cases (r == q)) [
  | inl e ↦ rw (h, ← f refl) ground (arith, e)
  | inr e ↦ rw (← f refl) ground (arith, e)
]

slot-new_room : (role : Role) → slot role new_room ≡ none
slot-new_room device = refl
slot-new_room client = refl

slot_empty : (role : Role) (room : Room) → is_empty room ≡ true → slot role room ≡ none
slot_empty device room e = ground arith
slot_empty client room e = ground arith

created :
    (b : Bool) (o : Option ℕ) (heap : ℕ → Room) (next : ℕ) (role : Role)
    → (b ≡ true → o ≡ none)
    → ((q : ℕ) → o ≡ some q → q < next)
    → standing_at (if b then some next else o) (update heap next new_room) role
      ≡ standing_at o heap role
created true o heap next role f g = rw (f refl) ground (arith, slot-new_room role)
created false none heap next role f g = refl
created false (some q) heap next role f g = ground (arith, g q refl)

deleted :
    (b : Bool) (o : Option ℕ) (heap : ℕ → Room) (r : ℕ) (role : Role)
    → (b ≡ true → o ≡ some r)
    → is_empty (heap r) ≡ true
    → standing_at (if b then none else o) heap role ≡ standing_at o heap role
deleted true o heap r role f e = rw (f refl) (sym (slot_empty role (heap r) e))
deleted false o heap r role f e = refl

module _ (s : Server) (inv : Inv s) where
  -- A room of the heap, which has a name, gets another peer in a role.
  pub put_room-standing :
      (r : ℕ) (room : Room) (id : String) (role : Role) (p : Option ℕ)
      → inv.name r ≡ id
      → ((ro : Role) → slot ro room ≡ (if same_role role ro then p else slot ro (s.heap r)))
      → (key : String) (ro : Role)
      → standing (put_room r room s) key ro
        ≡ place (is_at r (lookup id s.rooms)) id role p (standing s) key ro
  put_room-standing r room id role p named h key ro =
      standing_at-update (lookup key s.rooms) s.heap r room ro
      ∙ one_place r (lookup key s.rooms) (lookup id s.rooms) (str_eq id key) (same_role role ro)
          s.heap p (slot ro room) ro (λ e. ap (λ n. lookup n s.rooms) (sym ((eq_iff id key).0 e)))
          (λ e.
            let r_key = (inv.registered key r (is_at-some r (lookup key s.rooms) e)).1 in
            (eq_iff id key).1 (sym named ∙ r_key))
          (h ro)

  -- A room of the heap with the same peers.
  pub put_same-standing :
      (r : ℕ) (room : Room)
      → ((ro : Role) → slot ro room ≡ slot ro (s.heap r))
      → (key : String) (ro : Role) → standing (put_room r room s) key ro ≡ standing s key ro
  put_same-standing r room h key ro =
      standing_at-update (lookup key s.rooms) s.heap r room ro ∙ unchanged (lookup key s.rooms)
    where
      unchanged :
          (o : Option ℕ)
          → (if is_at r o then slot ro room else standing_at o s.heap ro) ≡ standing_at o s.heap ro
      unchanged none = refl
      unchanged (some q) = ground (arith, h ro)

  pub send_to-standing :
      (role : Role) (r : ℕ) (msg : Bytes) (o : Option ℕ)
      → slot role (s.heap r) ≡ o
      → Succeeds
          (send_to o msg s)
          (λ t. (key : String) (ro : Role) → standing t key ro ≡ standing s key ro)
  send_to-standing role r msg none e = λ key ro. refl
  send_to-standing role r msg (some q) e =
      let P = λ (t : Server). (key : String) (ro : Role) → standing t key ro ≡ standing s key ro in
      Succeeds-bind (λ c. P (put_conn q c s)) P (try_send msg (s.conns q))
        (λ c. ok (put_conn q c s))
        (try_send-ok (λ c. P (put_conn q c s)) msg (s.conns q)
          (is_open s inv q (ground (arith, inv.stands role r q e))) (λ key ro. refl)
          (λ k key ro. refl))
        (λ c h. h)

  pub create-standing :
      (id : String)
      → lookup id s.rooms ≡ none
      → (key : String) (ro : Role) → standing (create id s) key ro ≡ standing s key ro
  unfolding lookup
  create-standing id l key ro =
      created (str_eq id key) (lookup key s.rooms) s.heap s.next ro
        (λ e. ap (λ n. lookup n s.rooms) (sym ((eq_iff id key).0 e)) ∙ l)
        (λ q e. (inv.registered key q e).0)

  pub delete-standing :
      (id : String) (r : ℕ)
      → lookup id s.rooms ≡ some r
      → is_empty (s.heap r) ≡ true
      → (key : String) (ro : Role)
      → standing (record s { rooms = remove id s.rooms }) key ro ≡ standing s key ro
  delete-standing id r l e key ro =
      ap (λ o. standing_at o s.heap ro) (lookup-remove id key s.rooms)
      ∙ deleted (str_eq id key) (lookup key s.rooms) s.heap r ro
          (λ d. ap (λ n. lookup n s.rooms) (sym ((eq_iff id key).0 d)) ∙ l) e
