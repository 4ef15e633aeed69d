-- ===== src/Server/Pages/Locked.antt =====
-- signal/main.go: the steps of the goroutines that leave the registry alone.
use Prim.Native.String.{String}
use any_kvm.Common.{
  ℕ, ◌≡◌, subst, true, false, Option, none, some, List, if◌then◌else◌, Bool-cases, inl, inr,
}
use any_kvm.Common.Bytes.{Bytes}
use any_kvm.Common.Outcome.{Outcome, ok}
use any_kvm.Server.{
  Role, device, client, Stage, Server, try_send, close_send, send_to, forward, update, target,
  cache_offer,
}
use any_kvm.Server.Handler.{
  Input, Request, request, now, received, read_error, check_query, accept, upgrade, after_set,
  replay, serve, is_json, handle_at, Tick, pump, pump_conn, put_conn,
}
use any_kvm.Server.Pages.{takes_registry, Gives, Gives-bind}

-- A property of the registry, in the steps that do not lock it.
module _ (P : List (String × ℕ) → Type 0) where
  send_to-rooms :
      (o : Option ℕ) (msg : Bytes) (s : Server)
      → P s.rooms
      → Gives (send_to o msg s) (λ t. P t.rooms)
  send_to-rooms none msg s h = h
  send_to-rooms (some q) msg s h = Gives-bind (λ t. P t.rooms) (try_send msg (s.conns q)) _ (λ c. h)

  after_set-rooms :
      (role : Role) (r : ℕ) (input : Input) (i : ℕ) (s : Server)
      → P s.rooms
      → P (after_set role r input i s).rooms
  after_set-rooms device r (request q) i s h = h
  after_set-rooms device r (now time) i s h = h
  after_set-rooms device r (received raw) i s h = h
  after_set-rooms device r read_error i s h = h
  after_set-rooms client r input i s h = h

  replay-rooms :
      (r : ℕ) (cached : Option Bytes) (i : ℕ) (s : Server)
      → P s.rooms
      → Gives (replay r cached i s) (λ t. P t.rooms)
  replay-rooms r none i s h = h
  replay-rooms r (some offer) i s h =
      Gives-bind (λ t. P t.rooms) (try_send offer (s.conns i)) _ (λ c. h)

  forward-rooms :
      (kind : Bytes → Option String) (role : Role) (r : ℕ) (msg : Bytes) (s : Server)
      → P s.rooms
      → Gives (forward kind role r msg s) (λ t. P t.rooms)
  unfolding forward
  forward-rooms kind role r msg s h =
      let room = cache_offer kind role msg (s.heap r) in
      send_to-rooms (target role room) msg (record s { heap = update s.heap r room }) h

  serve-rooms :
      (kind : Bytes → Option String) (r : ℕ) (input : Input) (i : ℕ) (s : Server)
      → P s.rooms
      → Gives (serve kind r input i s) (λ t. P t.rooms)
  serve-rooms kind r (request q) i s h = h
  serve-rooms kind r (now time) i s h = h
  serve-rooms kind r read_error i s h = h
  serve-rooms kind r (received raw) i s h = elim (Bool-cases (is_json (kind raw))) [
    | inl e ↦ rw e (forward-rooms kind (s.conns i).role r raw _ h)
    | inr e ↦ rw e h
  ]

  accept-rooms :
      (o : Option Role) (q : Request) (i : ℕ) (s : Server) → P s.rooms → P (accept o q i s).rooms
  accept-rooms none q i s h = h
  accept-rooms (some role) q i s h = elim q.upgrades as (λ b. P (upgrade b role q i s).rooms) [
    | true ↦ h
    | false ↦ h
  ]

  pub handle_at-rooms :
      (kind : Bytes → Option String) (g : Stage) (input : Input) (i : ℕ) (s : Server)
      → takes_registry g ≡ false
      → P s.rooms
      → Gives (handle_at kind g input i s) (λ t. P t.rooms)
  unfolding handle_at
  handle_at-rooms kind Stage.idle (request q) i s n h = accept-rooms (check_query q) q i s h
  handle_at-rooms kind Stage.idle (now time) i s n h = h
  handle_at-rooms kind Stage.idle (received raw) i s n h = h
  handle_at-rooms kind Stage.idle read_error i s n h = h
  handle_at-rooms kind Stage.refused input i s n h = h
  handle_at-rooms kind Stage.upgraded input i s n h = absurd cc
  handle_at-rooms kind (Stage.found r) input i s n h = h
  handle_at-rooms kind (Stage.joined r) input i s n h =
      after_set-rooms (s.conns i).role r input i s h
  handle_at-rooms kind (Stage.replaying r cached) input i s n h = replay-rooms r cached i s h
  handle_at-rooms kind (Stage.serving r) input i s n h = serve-rooms kind r input i s h
  handle_at-rooms kind (Stage.leaving r) input i s n h = h
  handle_at-rooms kind (Stage.cleared r) input i s n h =
      Gives-bind (λ t. P t.rooms) (close_send (s.conns i)) _ (λ c. h)
  handle_at-rooms kind Stage.closing input i s n h = absurd cc
  handle_at-rooms kind Stage.finished input i s n h = h

  pub pump-rooms : (t : Tick) (i : ℕ) (s : Server) → P s.rooms → P (pump t i s).rooms
  unfolding pump
  pump-rooms t i s h =
      elim (s.conns i).pumping
        as (λ b. P (if b then put_conn i (pump_conn t (s.conns i)) s else s).rooms) [
          | true ↦ h
          | false ↦ h
        ]

pub Gives-value :
    {A : Type 0} (P : A → Type 0) {m : Outcome ⊥ A} {a : A} → Gives m P → m ≡ ok a → P a
Gives-value P h e = subst (λ m. Gives m P) e h
