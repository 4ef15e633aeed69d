-- ===== src/Server/Origin/Rooms.antt =====
-- signal/main.go: the registry of the rooms, and where the messages come from.
use Prim.Native.String.{String}
use text.Mathlib.TextEquality.{eq_iff}
use any_kvm.Common.{ℕ, ◌≡◌, refl, ◌∙◌, true, false, Option, none, some, arith, if◌then◌else◌}
use any_kvm.Common.Bytes.{Bytes}
use any_kvm.Common.Outcome.{Succeeds}
use any_kvm.Server.{
  Stage, Server, create, enter, get_or_create, lookup, remove, delete_at, try_delete, is_empty,
}
use any_kvm.Server.Handler.{
  Input, request, now, received, read_error, check_query, enter_room, handle_at,
}
use any_kvm.Server.Invariant.{Inv}
use any_kvm.Server.Registry.{lookup-remove-some, try_delete-Inv, create-Inv}
use any_kvm.Server.Origin.{Origin, put_conn-Origin}
use any_kvm.Server.Origin.Handled.{accept-Origin, set-Origin, after_set-Origin, replay-Origin}
use any_kvm.Server.Origin.Served.{serve-Origin, clear-Origin, close-Origin, finish-Origin}

module _ (i : ℕ) (s : Server) (inv : Inv s) (o : Origin s) where
  enter_room-Origin :
      (r : ℕ)
      → lookup (s.conns i).room_id s.rooms ≡ some r
      → (s.conns i).stage ≡ Stage.upgraded
      → Origin (enter_room (s, r) i)
  enter_room-Origin r l e =
      put_conn-Origin s i _ (λ m k. (refl, refl, k)) o
        (record {
          fresh = λ h. absurd (cc);
          queued = (o.peer i).queued;
          written = (o.peer i).written;
          offered = λ q m h. o.cached (s.conns i).room_id q m (l ∙ h);
          replayed = λ q m h. cc;
        })

  delete-Origin : (id : String) → Origin (record s { rooms = remove id s.rooms })
  delete-Origin id = record {
    peer = λ p. record {
      fresh = (o.peer p).fresh;
      queued = (o.peer p).queued;
      written = (o.peer p).written;
      offered = (o.peer p).offered;
      replayed = (o.peer p).replayed;
    };
    cached = λ key r m e h. o.cached key r m (lookup-remove-some id key s.rooms r e) h;
  }

  delete_at-Origin : (t : Option ℕ) (id : String) → Origin (delete_at t id s)
  delete_at-Origin none id = o
  delete_at-Origin (some r) id =
      elim (is_empty (s.heap r))
        as (λ b. Origin (if b then (record s { rooms = remove id s.rooms }) else s)) [
          | true ↦ delete-Origin id
          | false ↦ o
        ]

  create-Origin : (id : String) → Origin (create id s)
  unfolding lookup
  create-Origin id = record {
    peer = λ p. record {
      fresh = (o.peer p).fresh;
      queued = (o.peer p).queued;
      written = (o.peer p).written;
      offered = λ r m e h. (o.peer p).offered r m e (ground (arith, h, inv.held p r e));
      replayed = (o.peer p).replayed;
    };
    cached = λ key r m e h. let (a, b) = create_old key r m e h in o.cached key r m a b;
  }
    where
      create_old :
          (key : String) (r : ℕ) (m : Bytes)
          → lookup key (create id s).rooms ≡ some r
          → ((create id s).heap r).offer_cache ≡ some m
          → (lookup key s.rooms ≡ some r) × ((s.heap r).offer_cache ≡ some m)
      create_old key r m e h =
          (ground (arith, h, inv.registered key r), ground (arith, e, h, inv.registered key r))

get-Origin :
    (i : ℕ) (s : Server) (t : Option ℕ)
    → Inv s
    → Origin s
    → lookup (s.conns i).room_id s.rooms ≡ t
    → (s.conns i).stage ≡ Stage.upgraded
    → Origin (enter_room (enter t (s.conns i).room_id s) i)
unfolding lookup
get-Origin i s (some r) inv o l e = enter_room-Origin i s inv o r l e
get-Origin i s none inv o l e =
    let id : String = (s.conns i).room_id in
    enter_room-Origin i (create id s) (create-Inv s inv id).0 (create-Origin i s inv o id) s.next
      (ground (arith, eq_iff id id)) e

pub handle_at-Origin :
    (kind : Bytes → Option String) (input : Input) (i : ℕ) (s : Server)
    → Inv s
    → Origin s
    → (g : Stage) → (s.conns i).stage ≡ g
    → Succeeds (handle_at kind g input i s) Origin
unfolding handle_at get_or_create try_delete
handle_at-Origin kind (request q) i s inv o Stage.idle e =
    accept-Origin i s inv o (check_query q) q e
handle_at-Origin kind (now time) i s inv o Stage.idle e = o
handle_at-Origin kind (received raw) i s inv o Stage.idle e = o
handle_at-Origin kind read_error i s inv o Stage.idle e = o
handle_at-Origin kind input i s inv o Stage.refused e = o
handle_at-Origin kind input i s inv o Stage.upgraded e =
    get-Origin i s (lookup (s.conns i).room_id s.rooms) inv o refl e
handle_at-Origin kind input i s inv o (Stage.found r) e = set-Origin i s inv o (s.conns i).role r e
handle_at-Origin kind input i s inv o (Stage.joined r) e =
    after_set-Origin i s inv o (s.conns i).role r input refl e
handle_at-Origin kind input i s inv o (Stage.replaying r cached) e =
    replay-Origin i s inv o r cached e
handle_at-Origin kind input i s inv o (Stage.serving r) e = serve-Origin i s inv o kind r input e
handle_at-Origin kind input i s inv o (Stage.leaving r) e =
    clear-Origin i s inv o (s.conns i).role r e
handle_at-Origin kind input i s inv o (Stage.cleared r) e = close-Origin i s inv o r e
handle_at-Origin kind input i s inv o Stage.closing e =
    let id : String = (s.conns i).room_id in
    finish-Origin i (try_delete id s) (try_delete-Inv s inv id)
      (delete_at-Origin i s inv o (lookup id s.rooms) id)
handle_at-Origin kind input i s inv o Stage.finished e = o
