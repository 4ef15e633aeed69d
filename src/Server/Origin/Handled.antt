-- ===== src/Server/Origin/Handled.antt =====
-- signal/main.go: `forward`, how a connection comes, and where the messages come from.
use Prim.Native.String.{String}
use mathlib.Core.List.{Memᴰ}
use mathlib.Core.List.Memᴰ
use any_kvm.Common.{
  ℕ, ◌≡◌, refl, sym, subst, ◌∙◌, Bool, true, false, Option, none, some, [], ◌∷◌, arith, All, ◌⊎◌,
  inl, inr, Bool-cases,
}
use any_kvm.Common.Bytes.{Bytes}
use any_kvm.Common.Members.{All-append}
use any_kvm.Common.Outcome.{ok, Succeeds, Succeeds-bind}
use any_kvm.Server.{
  Role, device, client, Room, Stage, Conn, Server, room_set, target, cache_offer, try_send, forward,
  is_offer,
}
use any_kvm.Server.Handler.{
  Request, Input, request, now, received, read_error, upgrade, put_conn, put_room, set_stage,
  accept, name_room, start_pump, after_set, replay,
}
use any_kvm.Server.Invariant.{Inv, room_of}
use any_kvm.Server.Steps.{
  other, is_open, try_send-ok, target-slot, put_same_slots, slot-cache_offer,
}
use any_kvm.Server.Origin.{From, Origin, put_conn-Origin, put_room-Origin}
use any_kvm.Server.Origin.Step.{moves, send_to-Origin}

cache_offer-cases :
    (kind : Bytes → Option String) (role : Role) (msg : Bytes) (room : Room) (m : Bytes)
    → (cache_offer kind role msg room).offer_cache ≡ some m
    → (room.offer_cache ≡ some m) ⊎ ((role ≡ device) × (m ≡ msg))
cache_offer-cases kind device msg room m e = elim (Bool-cases (is_offer (kind msg))) [
  | inl h ↦ inr (refl, ground (arith, h, e))
  | inr h ↦ inl (ground (arith, h, e))
]
cache_offer-cases kind client msg room m e = inl e

pub forward-Origin :
    (kind : Bytes → Option String) (role : Role) (i r : ℕ) (msg : Bytes) (s : Server)
    → Inv s
    → Origin s
    → (s.conns i).role ≡ role
    → (s.conns i).stage ≡ Stage.serving r
    → Memᴰ msg (s.conns i).input
    → Succeeds (forward kind role r msg s) Origin
unfolding forward
forward-Origin kind role i r msg s inv o d e k =
    send_to-Origin (put_room r room s) inv' o' role id r msg (target role room)
      (inv'.held i r (ground (arith, e))).1 (i, d, refl, k) (ground (arith, target-slot role room))
  where
    id : String
    id = (s.conns i).room_id

    room : Room
    room = cache_offer kind role msg (s.heap r)

    inv' : Inv (put_room r room s)
    inv' = put_same_slots s inv r room (λ role'. slot-cache_offer kind role role' msg (s.heap r))

    here : inv.name r ≡ id
    here = (inv.held i r (ground (arith, e))).1

    o' : Origin (put_room r room s)
    o' =
        put_room-Origin s r room
          (λ m h. elim (cache_offer-cases kind role msg (s.heap r) m h) [
            | inl old ↦ inl old
            | inr (a, b) ↦ inr (
              (λ p q. (
                i,
                d ∙ a,
                sym here ∙ (inv.held p r q).1,
                subst (λ x. Memᴰ x (s.conns i).input) (sym b) k,
              )),
              (λ key q. (
                i,
                d ∙ a,
                sym here ∙ (inv.registered key r q).1,
                subst (λ x. Memᴰ x (s.conns i).input) (sym b) k,
              )),
            )
          ])
          o

module _ (i : ℕ) (s : Server) (inv : Inv s) (o : Origin s) where
  pub aside :
      (g : Stage)
      → (g ≡ Stage.idle → (s.conns i).stage ≡ Stage.idle)
      → ((r : ℕ) → room_of g ≡ some r → room_of (s.conns i).stage ≡ some r)
      → ((r : ℕ) (m : Bytes) → g ≡ Stage.replaying r (some m) → ⊥)
      → (pumping closed : Bool)
      → Origin (put_conn i (record (s.conns i) { stage = g; pumping = pumping; closed = closed }) s)
  aside g f h k pumping closed =
      moves s i _ o refl refl refl f h (λ r m e. absurd (k r m e)) refl refl

  upgrade-Origin :
      (b : Bool) (role : Role) (q : Request)
      → (s.conns i).stage ≡ Stage.idle
      → Origin (upgrade b role q i s)
  upgrade-Origin false role q e = aside Stage.refused (λ h. e) (λ r h. cc) (λ r m h. cc) _ _
  upgrade-Origin true role q e =
      let (no_input, no_queue, no_output) = (o.peer i).fresh e in
      put_conn-Origin s i _ (λ m k. absurd (Memᴰ.not-nil (subst (Memᴰ m) no_input k))) o
        (record {
          fresh = λ h. absurd (cc);
          queued = subst (All (From s (other role) q.room)) (sym no_queue) tt;
          written = subst (All (From s (other role) q.room)) (sym no_output) tt;
          offered = λ r m h. cc;
          replayed = λ r m h. cc;
        })

  pub accept-Origin :
      (r : Option Role) (q : Request) → (s.conns i).stage ≡ Stage.idle → Origin (accept r q i s)
  accept-Origin none q e = aside Stage.refused (λ h. e) (λ r h. cc) (λ r m h. cc) _ _
  accept-Origin (some role) q e = upgrade-Origin q.upgrades role q e

  pub set-Origin :
      (role : Role) (r : ℕ)
      → (s.conns i).stage ≡ Stage.found r
      → Origin (set_stage i (Stage.joined r) (put_room r (room_set role i (s.heap r)) s))
  set-Origin role r e =
      put_room-Origin (set_stage i (Stage.joined r) s) r (room_set role i (s.heap r))
        (λ m h. inl (same role m h))
        (aside (Stage.joined r) (λ h. cc) (λ q h. ground (arith, e)) (λ q m h. cc) _ _)
    where
      same :
          (role : Role) (m : Bytes)
          → (room_set role i (s.heap r)).offer_cache ≡ some m
          → (s.heap r).offer_cache ≡ some m
      same device m h = h
      same client m h = h

  pub after_set-Origin :
      (role : Role) (r : ℕ) (input : Input)
      → (s.conns i).role ≡ role
      → (s.conns i).stage ≡ Stage.joined r
      → Origin (after_set role r input i s)
  after_set-Origin device r (now time) d e =
      put_room-Origin (put_conn i (start_pump (s.conns i) (Stage.serving r)) s) r
        (name_room (s.conns i) time (s.heap r)) (λ m h. inl h)
        (aside (Stage.serving r) (λ h. cc) (λ q h. ground (arith, e)) (λ q m h. cc) _ _)
  after_set-Origin device r (request q) d e = o
  after_set-Origin device r (received m) d e = o
  after_set-Origin device r read_error d e = o
  after_set-Origin client r input d e =
      moves s i _ o refl refl refl (λ h. cc) (λ q h. ground (arith, e))
        (λ q m h. (d, (o.peer i).offered r m (ground (arith, e)) (ground (arith, h)))) refl refl

  pub replay-Origin :
      (r : ℕ) (cached : Option Bytes)
      → (s.conns i).stage ≡ Stage.replaying r cached
      → Succeeds (replay r cached i s) Origin
  replay-Origin r none e =
      aside (Stage.serving r) (λ h. cc) (λ q h. ground (arith, e)) (λ q m h. cc) _ _
  replay-Origin r (some offer) e =
      let to = λ (c : Conn). put_conn i (record c { stage = Stage.serving r }) s in
      Succeeds-bind (λ c. Origin (to c)) Origin (try_send offer (s.conns i)) (λ c. ok (to c))
        (try_send-ok (λ c. Origin (to c)) offer (s.conns i) (is_open s inv i (ground (arith, e)))
          (aside (Stage.serving r) (λ h. cc) (λ q h. ground (arith, e)) (λ q m h. cc) _ _)
          (λ k.
            put_conn-Origin s i _ (λ n h. (refl, refl, h)) o
              (record {
                fresh = λ h. absurd (cc);
                queued =
                    All-append (From s (other (s.conns i).role) (s.conns i).room_id)
                      (s.conns i).queue (offer ∷ []) (o.peer i).queued (from, tt);
                written = (o.peer i).written;
                offered = λ q m h. (o.peer i).offered q m (ground (arith, e, h));
                replayed = λ q m h. cc;
              })))
        (λ c h. h)
    where
      from : From s (other (s.conns i).role) (s.conns i).room_id offer
      from =
          let (a, b) = (o.peer i).replayed r offer e in
          subst (λ x. From s (other x) (s.conns i).room_id offer) (sym a) b
