-- ===== src/Server/Origin/Step.antt =====
-- signal/main.go: where the messages come from, step by step.
use Prim.Native.String.{String}
use mathlib.Core.List.{Memᴰ}
use any_kvm.Common.{
  ℕ, ◌≡◌, ◌≢◌, refl, sym, ap, subst, ◌∙◌, Option, none, some, List, [], ◌∷◌, ◌++◌, arith, All,
}
use any_kvm.Common.Bytes.{Bytes}
use any_kvm.Common.Members.{All-append, All-mono}
use any_kvm.Common.Outcome.{ok, Succeeds, Succeeds-bind}
use any_kvm.Server.{Role, device, client, Stage, Conn, Server, try_send, send_to}
use any_kvm.Server.Handler.{put_conn}
use any_kvm.Server.Invariant.{Inv, slot, slot_of, room_of}
use any_kvm.Server.Steps.{other, is_open, try_send-ok, other-other}
use any_kvm.Server.Origin.{From, Clean, Origin, put_conn-Origin}

same-From :
    (s : Server) {role role' : Role} {id id' : String} (m : Bytes)
    → role ≡ role'
    → id ≡ id'
    → From s role id m
    → From s role' id' m
same-From s m e1 e2 (q, a, b, k) = (q, a ∙ e1, b ∙ e2, k)

sent_path :
    (s : Server) {role role' : Role} {id id' : String} {l l' : List Bytes}
    → role' ≡ role
    → id' ≡ id
    → l' ≡ l
    → All (From s (other role) id) l
    → All (From s (other role') id') l'
sent_path s {role} {role'} {id} {id'} {l} {l'} e1 e2 e3 h =
    subst (All (From s (other role') id')) (sym e3) (
      All-mono (From s (other role) id) (From s (other role') id') l
        (λ m. same-From s m (ap other (sym e1)) (sym e2)) h)

-- A connection that only moves on.
pub moves :
    (s : Server) (i : ℕ) (c : Conn)
    → Origin s
    → c.role ≡ (s.conns i).role
    → c.room_id ≡ (s.conns i).room_id
    → c.input ≡ (s.conns i).input
    → (c.stage ≡ Stage.idle → (s.conns i).stage ≡ Stage.idle)
    → ((r : ℕ) → room_of c.stage ≡ some r → room_of (s.conns i).stage ≡ some r)
    → ((r : ℕ) (m : Bytes)
        → c.stage ≡ Stage.replaying r (some m)
        → (c.role ≡ client) × From s device c.room_id m)
    → c.queue ≡ (s.conns i).queue
    → c.output ≡ (s.conns i).output
    → Origin (put_conn i c s)
moves s i c o e1 e2 e3 f g h e4 e5 =
    put_conn-Origin s i c (λ m k. (e1, e2, subst (Memᴰ m) (sym e3) k)) o
      (record {
        fresh = λ e. let (a, b, d) = k.fresh (f e) in (e3 ∙ a, e4 ∙ b, e5 ∙ d);
        queued = sent_path s e1 e2 e4 k.queued;
        written = sent_path s e1 e2 e5 k.written;
        offered = λ r m e d. rw e2 (k.offered r m (g r e) d);
        replayed = h;
      })
  where
    k : Clean s (s.conns i)
    k = o.peer i

module _ (s : Server) (inv : Inv s) (o : Origin s) where
  -- A message is put into a channel.
  pub queue-Origin :
      (q : ℕ) (m : Bytes)
      → ((s.conns q).stage ≢ Stage.idle)
      → From s (other (s.conns q).role) (s.conns q).room_id m
      → Origin (put_conn q (record (s.conns q) { queue = (s.conns q).queue ++ (m ∷ []) }) s)
  queue-Origin q m busy from =
      put_conn-Origin s q _ (λ n k. (refl, refl, k)) o
        (record {
          fresh = λ e. absurd (busy e);
          queued =
              All-append (From s (other (s.conns q).role) (s.conns q).room_id) (s.conns q).queue
                (m ∷ []) k.queued (from, tt);
          written = k.written;
          offered = k.offered;
          replayed = k.replayed;
        })
    where
      k : Clean s (s.conns q)
      k = o.peer q

  pub same-Origin : (q : ℕ) → Origin (put_conn q (s.conns q) s)
  same-Origin q = put_conn-Origin s q _ (λ n k. (refl, refl, k)) o (o.peer q)

  pub send_to-Origin :
      (role : Role) (id : String) (r : ℕ) (m : Bytes) (t : Option ℕ)
      → inv.name r ≡ id
      → From s role id m
      → slot (other role) (s.heap r) ≡ t
      → Succeeds (send_to t m s) Origin
  send_to-Origin role id r m none e from d = o
  send_to-Origin role id r m (some q) e from d =
      Succeeds-bind (λ c. Origin (put_conn q c s)) Origin (try_send m (s.conns q))
        (λ c. ok (put_conn q c s))
        (try_send-ok (λ c. Origin (put_conn q c s)) m (s.conns q)
          (is_open s inv q (ground (arith, fits))) (same-Origin q)
          (λ k.
            queue-Origin q m (λ a. ground (arith, fits))
              (same-From s m (sym (other-other role) ∙ ap other (sym fits.0)) named from)))
        (λ c h. h)
    where
      fits : ((s.conns q).role ≡ other role) × (slot_of (s.conns q).stage ≡ some r)
      fits = inv.stands (other role) r q d

      named : id ≡ (s.conns q).room_id
      named = sym e ∙ (inv.held q r (ground (arith, fits))).1
