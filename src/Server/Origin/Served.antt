-- ===== src/Server/Origin/Served.antt =====
-- signal/main.go: how a connection is served and leaves, and where the messages come from.
use Prim.Native.String.{String}
use mathlib.Core.List.{Memᴰ}
use any_kvm.Common.{
  ℕ, ◌≡◌, refl, sym, ap, subst, ◌∙◌, true, false, Option, some, [], ◌∷◌, ◌++◌, arith, inl,
  if◌then◌else◌,
}
use any_kvm.Common.Bytes.{Bytes}
use any_kvm.Common.Members.{member_left, member_last}
use any_kvm.Common.Outcome.{ok, ◌>>=◌, Succeeds, Succeeds-bind}
use any_kvm.Server.{Role, device, client, Stage, Conn, Server, room_clear, close_send, forward}
use any_kvm.Server.Handler.{
  Input, request, now, received, read_error, put_conn, put_room, set_stage, is_json, serve,
}
use any_kvm.Server.Invariant.{Inv, update_same}
use any_kvm.Server.Steps.{keep, is_open, close_send-ok}
use any_kvm.Server.Origin.{Origin, put_conn-Origin, put_room-Origin}
use any_kvm.Server.Origin.Handled.{aside, forward-Origin}

module _ (i : ℕ) (s : Server) (inv : Inv s) (o : Origin s) where
  pub serve-Origin :
      (kind : Bytes → Option String) (r : ℕ) (input : Input)
      → (s.conns i).stage ≡ Stage.serving r
      → Succeeds (serve kind r input i s) Origin
  serve-Origin kind r (received raw) e =
      elim (is_json (kind raw))
        as (λ b. Succeeds (if b then forward kind (s.conns i).role r raw s' else ok s') Origin) [
          | true ↦ forwarded
          | false ↦ o'
        ]
    where
      c : Conn
      c = record (s.conns i) { input = (s.conns i).input ++ (raw ∷ []) }

      s' : Server
      s' = put_conn i c s

      o' : Origin s'
      o' =
          put_conn-Origin s i c (λ m k. (refl, refl, member_left (raw ∷ []) k)) o
            (record {
              fresh = λ h. absurd (ground (arith, e, h));
              queued = (o.peer i).queued;
              written = (o.peer i).written;
              offered = (o.peer i).offered;
              replayed = (o.peer i).replayed;
            })

      forwarded : Succeeds (forward kind (s.conns i).role r raw s') Origin
      forwarded =
          let same = update_same s.conns i c in
          forward-Origin kind (s.conns i).role i r raw s'
            (keep s inv i c refl refl refl (λ q k. k) (λ q k. k) (λ h. h) (inv.bounded i)) o'
            (ap (λ (d : Conn). d.role) same) (ap (λ (d : Conn). d.stage) same ∙ e)
            (subst (Memᴰ raw) (ap (λ (d : Conn). d.input) (sym same))
              (member_last raw (s.conns i).input))
  serve-Origin kind r read_error e =
      aside i s inv o (Stage.leaving r) (λ h. cc) (λ q h. ground (arith, e)) (λ q m h. cc) _ _
  serve-Origin kind r (request q) e = o
  serve-Origin kind r (now time) e = o

  pub clear-Origin :
      (role : Role) (r : ℕ)
      → (s.conns i).stage ≡ Stage.leaving r
      → Origin (set_stage i (Stage.cleared r) (put_room r (room_clear role (s.heap r)) s))
  clear-Origin role r e =
      put_room-Origin (set_stage i (Stage.cleared r) s) r (room_clear role (s.heap r))
        (λ m h. inl (kept role m h))
        (aside i s inv o (Stage.cleared r) (λ h. cc) (λ q h. ground (arith, e)) (λ q m h. cc) _ _)
    where
      kept :
          (role : Role) (m : Bytes)
          → (room_clear role (s.heap r)).offer_cache ≡ some m
          → (s.heap r).offer_cache ≡ some m
      kept device m h = cc
      kept client m h = h

  pub close-Origin :
      (r : ℕ)
      → (s.conns i).stage ≡ Stage.cleared r
      → Succeeds
          (do c ← close_send (s.conns i); ok (put_conn i (record c { stage = Stage.closing }) s))
          Origin
  close-Origin r e =
      let to = λ (c : Conn). put_conn i (record c { stage = Stage.closing }) s in
      Succeeds-bind (λ c. Origin (to c)) Origin (close_send (s.conns i)) (λ c. ok (to c))
        (close_send-ok (λ c. Origin (to c)) (s.conns i) (is_open s inv i (ground (arith, e)))
          (aside i s inv o Stage.closing (λ h. cc) (λ q h. cc) (λ q m h. cc) _ _))
        (λ c h. h)

  pub finish-Origin : Origin (set_stage i Stage.finished s)
  finish-Origin = aside i s inv o Stage.finished (λ h. cc) (λ q h. cc) (λ q m h. cc) _ _
