-- ===== src/Server/Safety.antt =====
-- signal/main.go: what every reachable state of the server keeps.
use Prim.Native.String.{String}
use any_kvm.Common.{
  ℕ, ◌≤◌, ◌≡◌, refl, ap, Bool, true, false, Option, some, List, [], ◌∷◌, arith, length,
  if◌then◌else◌,
}
use any_kvm.Common.Bytes.{Bytes}
use any_kvm.Common.Outcome.{ok, Succeeds, Succeeds-ok, Succeeds-value}
use any_kvm.Server.{Role, device, client, Stage, Conn, Server, new_room, lookup}
use any_kvm.Server.Handler.{
  Input, request, now, received, read_error, check_query, put_conn, handle_at, handle, Tick,
  message, ping, drain, pump, start, pump_conn, Reach, started, handled, pumped,
}
use any_kvm.Server.Invariant.{Inv, slot}
use any_kvm.Server.Steps.{keep}
use any_kvm.Server.Moves.{
  accept-Inv, set-Inv, after_set-Inv, replay-Inv, serve-Inv, clear-Inv, close-Inv, delete-Inv,
  get-Inv,
}

handle_at-Inv :
    (kind : Bytes → Option String) (input : Input) (i : ℕ) (s : Server)
    → Inv s
    → (g : Stage) → (s.conns i).stage ≡ g
    → Succeeds (handle_at kind g input i s) Inv
unfolding handle_at
handle_at-Inv kind (request q) i s inv Stage.idle e = accept-Inv i s inv (check_query q) q e
handle_at-Inv kind (now time) i s inv Stage.idle e = inv
handle_at-Inv kind (received raw) i s inv Stage.idle e = inv
handle_at-Inv kind read_error i s inv Stage.idle e = inv
handle_at-Inv kind input i s inv Stage.refused e = inv
handle_at-Inv kind input i s inv Stage.upgraded e = get-Inv i s inv e
handle_at-Inv kind input i s inv (Stage.found r) e = set-Inv i s inv r e
handle_at-Inv kind input i s inv (Stage.joined r) e =
    after_set-Inv i s inv (s.conns i).role r input e
handle_at-Inv kind input i s inv (Stage.replaying r cached) e = replay-Inv i s inv r cached e
handle_at-Inv kind input i s inv (Stage.serving r) e = serve-Inv i s inv kind r input e
handle_at-Inv kind input i s inv (Stage.leaving r) e = clear-Inv i s inv r e
handle_at-Inv kind input i s inv (Stage.cleared r) e = close-Inv i s inv r e
handle_at-Inv kind input i s inv Stage.closing e = delete-Inv i s inv e
handle_at-Inv kind input i s inv Stage.finished e = inv

pub handle-Inv :
    (kind : Bytes → Option String) (input : Input) (i : ℕ) (s : Server)
    → Inv s
    → Succeeds (handle kind input i s) Inv
unfolding handle
handle-Inv kind input i s inv = handle_at-Inv kind input i s inv (s.conns i).stage refl

module _ (i : ℕ) (s : Server) (inv : Inv s) where
  same_place :
      (c : Conn)
      → c.role ≡ (s.conns i).role
      → c.room_id ≡ (s.conns i).room_id
      → c.closed ≡ (s.conns i).closed
      → c.stage ≡ (s.conns i).stage
      → length c.queue ≤ length (s.conns i).queue
      → Inv (put_conn i c s)
  same_place c e1 e2 e3 e4 k =
      keep s inv i c e1 e2 e3 (λ q h. rw e4 h) (λ q h. ground (arith, e4)) (λ h. rw e4 h)
        (omega (arith, k, inv.bounded i))

  drain-Inv :
      (queue : List Bytes) (written : Bool)
      → (s.conns i).queue ≡ queue
      → Inv (put_conn i (drain queue written (s.conns i)) s)
  drain-Inv [] written e =
      elim (s.conns i).closed
        as (λ b.
          Inv (put_conn i (if b then (record (s.conns i) { pumping = false }) else s.conns i) s)) [
            | true ↦ same_place _ refl refl refl refl (omega arith)
            | false ↦ same_place _ refl refl refl refl (omega arith)
          ]
  drain-Inv (m ∷ queue) true e =
      same_place _ refl refl refl refl (omega (arith, ap (length {A = Bytes}) e))
  drain-Inv (m ∷ queue) false e =
      same_place _ refl refl refl refl (omega (arith, ap (length {A = Bytes}) e))

  pump_conn-Inv : (t : Tick) → Inv (put_conn i (pump_conn t (s.conns i)) s)
  pump_conn-Inv (message written) = drain-Inv (s.conns i).queue written refl
  pump_conn-Inv (ping true) = same_place _ refl refl refl refl (omega arith)
  pump_conn-Inv (ping false) = same_place _ refl refl refl refl (omega arith)

pub pump-Inv : (t : Tick) (i : ℕ) (s : Server) → Inv s → Inv (pump t i s)
unfolding pump
pump-Inv t i s inv =
    elim (s.conns i).pumping
      as (λ b. Inv (if b then put_conn i (pump_conn t (s.conns i)) s else s)) [
        | true ↦ pump_conn-Inv i s inv t
        | false ↦ inv
      ]

start-Inv : Inv start
unfolding lookup
start-Inv = record {
  name = λ r. "";
  registered = λ id r e. cc;
  stands = λ role r p e. absurd (no_slot role p e);
  held = λ p r e. cc;
  open_until = λ p e. cc;
  bounded = λ p. omega arith;
}
  where
    no_slot : (role : Role) (p : ℕ) → slot role new_room ≡ some p → ⊥
    no_slot device p e = cc
    no_slot client p e = cc

pub Reach-Inv : (kind : Bytes → Option String) (s : Server) → Reach kind s → Inv s
Reach-Inv kind s started = start-Inv
Reach-Inv kind t (handled {s} input i r e) =
    Succeeds-value Inv (handle-Inv kind input i s (Reach-Inv kind s r)) e
Reach-Inv kind t (pumped {s} tick i r) = pump-Inv tick i s (Reach-Inv kind s r)

-- The server never panics: in whatever order the goroutines of the connections take their steps
-- from the start, the next step of any of them returns. So no message is sent on a channel that is
-- closed, and no channel is closed twice.
pub handle-succeeds :
    (kind : Bytes → Option String) (s : Server) (input : Input) (i : ℕ)
    → Reach kind s
    → (t : Server) × (handle kind input i s ≡ ok t) × Reach kind t
handle-succeeds kind s input i r =
    let (t, e, _) =
      Succeeds-ok Inv (handle kind input i s) (handle-Inv kind input i s (Reach-Inv kind s r)) in
    (t, e, handled input i r e)
