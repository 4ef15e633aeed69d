-- ===== src/Server/Origin.antt =====
-- signal/main.go: where the messages come from that a peer is sent.
pub mod Step
pub mod Handled
pub mod Served
pub mod Rooms
pub mod Reached
use Prim.Native.String.{String}
use mathlib.Core.List.{Memᴰ}
use any_kvm.Common.{
  ℕ, ◌≡◌, refl, sym, ◌∙◌, Option, none, some, List, [], ◌∷◌, ◌++◌, arith, All, ◌⊎◌, inl, inr,
}
use any_kvm.Common.Bytes.{Bytes}
use any_kvm.Common.Members.{All-mono}
use any_kvm.Server.{Role, device, client, Room, Stage, Conn, Server, update, lookup}
use any_kvm.Server.Handler.{put_conn, put_room}
use any_kvm.Server.Invariant.{room_of, update-cases}
use any_kvm.Server.Steps.{other}

-- A message that the server has read from a connection in a role, to a room of that name.
abbrev pub From : Server → Role → String → Bytes → Type 0
From s role id m =
    (q : ℕ) × ((s.conns q).role ≡ role) × ((s.conns q).room_id ≡ id) × Memᴰ m (s.conns q).input

-- What a connection has been sent, is about to be sent, and may be sent again.
pub record Clean (s : Server) (c : Conn) : Type 0 where
  pub fresh : c.stage ≡ Stage.idle → (c.input ≡ []) × (c.queue ≡ []) × (c.output ≡ [])
  pub queued : All (From s (other c.role) c.room_id) c.queue
  pub written : All (From s (other c.role) c.room_id) c.output
  pub offered :
      (r : ℕ) (m : Bytes)
      → room_of c.stage ≡ some r
      → (s.heap r).offer_cache ≡ some m
      → From s device c.room_id m
  pub replayed :
      (r : ℕ) (m : Bytes)
      → c.stage ≡ Stage.replaying r (some m)
      → (c.role ≡ client) × From s device c.room_id m

pub record Origin (s : Server) : Type 0 where
  pub peer : (p : ℕ) → Clean s (s.conns p)
  pub cached :
      (id : String) (r : ℕ) (m : Bytes)
      → lookup id s.rooms ≡ some r
      → (s.heap r).offer_cache ≡ some m
      → From s device id m

-- A value of a connection that still has what was read from it.
abbrev pub Follows : Conn → Conn → Type 0
Follows c d =
    (m : Bytes) → Memᴰ m c.input → (d.role ≡ c.role) × (d.room_id ≡ c.room_id) × Memᴰ m d.input

module _ (s : Server) (i : ℕ) (c : Conn) (f : Follows (s.conns i) c) where
  put_conn-From :
      (role : Role) (id : String) (m : Bytes) → From s role id m → From (put_conn i c s) role id m
  put_conn-From role id m (q, a, b, e) =
      let (a', b', e') =
        update-cases
          (λ j d.
            (m : Bytes)
            → Memᴰ m (s.conns j).input
            → (d.role ≡ (s.conns j).role) × (d.room_id ≡ (s.conns j).room_id) × Memᴰ m d.input)
          s.conns i c q f (λ n k. (refl, refl, k)) m e in
      (q, a' ∙ a, b' ∙ b, e')

  pub put_conn-Clean : (d : Conn) → Clean s d → Clean (put_conn i c s) d
  put_conn-Clean d k = record {
    fresh = k.fresh;
    queued =
        All-mono (From s (other d.role) d.room_id) _ d.queue
          (put_conn-From (other d.role) d.room_id) k.queued;
    written =
        All-mono (From s (other d.role) d.room_id) _ d.output
          (put_conn-From (other d.role) d.room_id) k.written;
    offered = λ r m e h. put_conn-From device d.room_id m (k.offered r m e h);
    replayed = λ r m e. let (a, b) = k.replayed r m e in (a, put_conn-From device d.room_id m b);
  }

  pub put_conn-Origin : Origin s → Clean s c → Origin (put_conn i c s)
  put_conn-Origin o k = record {
    peer = λ p.
        update-cases (λ j d. Clean (put_conn i c s) d) s.conns i c p (put_conn-Clean c k)
          (put_conn-Clean (s.conns p) (o.peer p));
    cached = λ id r m e h. put_conn-From device id m (o.cached id r m e h);
  }

-- A room with the same cache, or with none.
pub put_room-Origin :
    (s : Server) (r : ℕ) (room : Room)
    → ((m : Bytes)
        → room.offer_cache ≡ some m
        → ((s.heap r).offer_cache ≡ some m)
          ⊎ (((p : ℕ) → room_of (s.conns p).stage ≡ some r → From s device (s.conns p).room_id m)
              × ((id : String) → lookup id s.rooms ≡ some r → From s device id m)))
    → Origin s
    → Origin (put_room r room s)
put_room-Origin s r room f o = record {
  peer = λ p. record {
    fresh = (o.peer p).fresh;
    queued = (o.peer p).queued;
    written = (o.peer p).written;
    offered = λ q m.
        update-cases
          (λ j t.
            room_of (s.conns p).stage ≡ some j
            → t.offer_cache ≡ some m
            → From s device (s.conns p).room_id m)
          s.heap r room q
          (λ e h. elim (f m h) [ inl k ↦ (o.peer p).offered r m e k | inr k ↦ k.0 p e ])
          ((o.peer p).offered q m);
    replayed = (o.peer p).replayed;
  };
  cached = λ id q m.
      update-cases (λ j t. lookup id s.rooms ≡ some j → t.offer_cache ≡ some m → From s device id m)
        s.heap r room q (λ e h. elim (f m h) [ inl k ↦ o.cached id r m e k | inr k ↦ k.1 id e ])
        (o.cached id q m);
}
