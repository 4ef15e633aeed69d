-- ===== src/Server/Origin/Reached.antt =====
-- signal/main.go: `writePump`, and where the messages come from in every reachable state.
use Prim.Native.String.{String}
use any_kvm.Common.{
  ℕ, ◌≡◌, refl, ◌∙◌, Bool, true, false, Option, List, [], ◌∷◌, ◌++◌, All, subst, if◌then◌else◌,
}
use any_kvm.Common.Bytes.{Bytes}
use any_kvm.Common.Outcome.{Succeeds-value}
use any_kvm.Common.Members.{All-append}
use any_kvm.Server.{Server, lookup}
use any_kvm.Server.Handler.{
  handle, Tick, message, ping, drain, pump_conn, pump, start, Reach, started, handled, pumped,
  put_conn,
}
use any_kvm.Server.Safety.{Reach-Inv}
use any_kvm.Server.Steps.{other}
use any_kvm.Server.Origin.{From, Clean, Origin, put_conn-Origin}
use any_kvm.Server.Origin.Rooms.{handle_at-Origin}

module _ (i : ℕ) (s : Server) (o : Origin s) where
  abbrev Sent : List Bytes → Type 0
  Sent = All (From s (other (s.conns i).role) (s.conns i).room_id)

  -- The connection goes on writing, from its channel to its socket.
  drained :
      (queue output : List Bytes) (pumping : Bool)
      → ((s.conns i).queue ≡ [] → (queue ≡ []) × (output ≡ (s.conns i).output))
      → Sent queue
      → Sent output
      → Origin
          (put_conn i (record (s.conns i) { queue = queue; output = output; pumping = pumping }) s)
  drained queue output pumping f h k =
      put_conn-Origin s i _ (λ m q. (refl, refl, q)) o
        (record {
          fresh = λ e. let (a, b, c) = (o.peer i).fresh e in let (d, g) = f b in (a, d, g ∙ c);
          queued = h;
          written = k;
          offered = (o.peer i).offered;
          replayed = (o.peer i).replayed;
        })

  pausing : (pumping : Bool) → Origin (put_conn i (record (s.conns i) { pumping = pumping }) s)
  pausing pumping =
      drained (s.conns i).queue (s.conns i).output pumping (λ e. (e, refl)) (o.peer i).queued
        (o.peer i).written

  drain-Origin :
      (queue : List Bytes) (written : Bool)
      → (s.conns i).queue ≡ queue
      → Origin (put_conn i (drain queue written (s.conns i)) s)
  drain-Origin [] written e =
      elim (s.conns i).closed
        as (λ b.
          Origin
            (put_conn i (if b then (record (s.conns i) { pumping = false }) else s.conns i) s)) [
              | true ↦ pausing false
              | false ↦ pausing (s.conns i).pumping
            ]
  drain-Origin (m ∷ queue) true e =
      let q : Sent (m ∷ queue) = subst Sent e (o.peer i).queued in
      drained queue _ _ (λ h. absurd (cc)) q.1
        (All-append (From s (other (s.conns i).role) (s.conns i).room_id) (s.conns i).output
          (m ∷ []) (o.peer i).written (q.0, tt))
  drain-Origin (m ∷ queue) false e =
      let q : Sent (m ∷ queue) = subst Sent e (o.peer i).queued in
      drained queue _ _ (λ h. absurd (cc)) q.1 (o.peer i).written

  pump_conn-Origin : (t : Tick) → Origin (put_conn i (pump_conn t (s.conns i)) s)
  pump_conn-Origin (message written) = drain-Origin (s.conns i).queue written refl
  pump_conn-Origin (ping true) = pausing (s.conns i).pumping
  pump_conn-Origin (ping false) = pausing false

pump-Origin : (t : Tick) (i : ℕ) (s : Server) → Origin s → Origin (pump t i s)
unfolding pump
pump-Origin t i s o =
    elim (s.conns i).pumping
      as (λ b. Origin (if b then put_conn i (pump_conn t (s.conns i)) s else s)) [
        | true ↦ pump_conn-Origin i s o t
        | false ↦ o
      ]

start-Origin : Origin start
unfolding lookup
start-Origin = record {
  peer = λ p. record {
    fresh = λ e. (refl, refl, refl);
    queued = tt;
    written = tt;
    offered = λ r m e h. cc;
    replayed = λ r m e. cc;
  };
  cached = λ id r m e h. cc;
}

pub Reach-Origin : (kind : Bytes → Option String) (s : Server) → Reach kind s → Origin s
unfolding handle
Reach-Origin kind s started = start-Origin
Reach-Origin kind t (handled {s} input i r e) =
    Succeeds-value Origin
      (handle_at-Origin kind input i s (Reach-Inv kind s r) (Reach-Origin kind s r)
        (s.conns i).stage refl)
      e
Reach-Origin kind t (pumped {s} tick i r) = pump-Origin tick i s (Reach-Origin kind s r)

-- No message goes astray: in every reachable state, each message that is waiting for a connection
-- or has been written to it was read, unchanged, from a connection of the same room name in the
-- opposite role.
pub Reach-From :
    (kind : Bytes → Option String) (s : Server) (p : ℕ)
    → Reach kind s
    → All
        (From s (other (s.conns p).role) (s.conns p).room_id)
        ((s.conns p).output ++ (s.conns p).queue)
Reach-From kind s p r =
    All-append (From s (other (s.conns p).role) (s.conns p).room_id) (s.conns p).output
      (s.conns p).queue o.written o.queued
  where
    o : Clean s (s.conns p)
    o = (Reach-Origin kind s r).peer p
