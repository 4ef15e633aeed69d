-- ===== src/Turn/Client.antt =====
-- `turn_allocate`, `turn_create_permission` and `turn_refresh` of agent/src/webrtc.rs over a given
-- network: which datagrams could be sent, and which arrive before each timeout.
use any_kvm.Common.{
  ◌≤◌, ◌<◌, ◌≡◌, refl, Bool, not, Option, none, some, List, [], ◌∷◌, arith, ◌==◌, if◌then◌else◌,
  length, replicate,
}
use any_kvm.Common.Bytes.{Bytes, codes}
use any_kvm.Common.Outcome.{
  Outcome, ok, err, panicked, out_of_fuel, ◌>>=◌, ◌>>◌, guard, Returns, Ensures, at,
}
use any_kvm.Stun.{
  SocketAddr, StunError, send_failed, no_401_response, allocate_refused, unexpected_type,
  missing_relayed_address, permission_refused, timed_out, receive_failed, parse_xor_mapped,
}
use any_kvm.Stun.Walk.{u16_at, u16_at-ok}
use any_kvm.Stun.Parse.{parse_stun_attr, parse_stun_attr-Returns, parse_xor_mapped-Ensures, True}
use any_kvm.Stun.Network.{
  Resolver, resolve, host_port, Received, datagram, failure, same_addr, await_reply,
}
use any_kvm.Turn.{TurnState}
use any_kvm.Turn.Data.{parse_turn_error_401, attempt}

-- What the network does in the two steps of an allocation.
pub record Exchange : Type 0 where
  pub sent_1 : Bool
  pub arriving_1 : List Received
  pub sent_2 : Bool
  pub arriving_2 : List Received

-- `.context(…)` puts one error for whatever went wrong.
abbrev pub context : {A : Type 0} → StunError → Outcome StunError A → Outcome StunError A
context e (ok a) = ok a
context e (err _) = err e
context e panicked = panicked
context e out_of_fuel = out_of_fuel

abbrev pub or_missing : Option SocketAddr → Outcome StunError SocketAddr
or_missing (some a) = ok a
or_missing none = err missing_relayed_address

-- `parse_stun_attr(resp, 0x0016).and_then(|val| parse_xor_mapped(val).ok())`
unfoldable pub relayed_address : Bytes → Outcome StunError SocketAddr
relayed_address resp = parse_stun_attr resp 0x0016 >>= λ attr. elim attr [
  | none ↦ err missing_relayed_address
  | some val ↦ attempt (parse_xor_mapped val) >>= or_missing
]

-- The end of `turn_allocate`, from `let resp = &buf[..n]` on. The type is read with no check of the
-- response's length.
unfoldable pub allocate_response : Bytes → TurnState → Outcome StunError (SocketAddr × TurnState)
unfolding relayed_address
allocate_response resp ts = do
  msg_type ← u16_at resp 0
  guard (not (msg_type == 0x0113)) allocate_refused
  guard (msg_type == 0x0103) (unexpected_type msg_type)
  relay ← relayed_address resp
  ok (relay, ts)

-- The requests that go out are `allocate_request` and `signed_allocate_request` of the parent.
unfoldable pub turn_allocate :
    Resolver → Exchange → Bytes → Bytes → Bytes → Outcome StunError (SocketAddr × TurnState)
unfolding resolve await_reply allocate_response
turn_allocate lookup_host net turn_url username password = do
  turn_addr ← resolve lookup_host (host_port (codes "turn:") turn_url)
  guard net.sent_1 send_failed
  reply ← await_reply 1024 turn_addr net.arriving_1
  (realm, nonce) ← context no_401_response (parse_turn_error_401 reply)
  let ts : TurnState = record {
    turn_addr = turn_addr;
    realm = realm;
    nonce = nonce;
    username = username;
    password = password;
  }
  guard net.sent_2 send_failed
  resp ← await_reply 1024 turn_addr net.arriving_2
  allocate_response resp ts

-- `recv_from(&mut buf)` overwrites the front of the buffer and leaves the rest.
abbrev pub fill : Bytes → Bytes → Bytes
fill buf [] = buf
fill [] (b ∷ bytes) = []
fill (x ∷ buf) (b ∷ bytes) = b ∷ fill buf bytes

-- The wait for the server's answer, until a success, an error, a failed read or the timeout.
unfoldable pub await_permission : SocketAddr → Bytes → List Received → Outcome StunError (Unit {0})
await_permission turn_addr buf [] = err timed_out
await_permission turn_addr buf (failure ∷ rest) = err receive_failed
await_permission turn_addr buf (datagram sender bytes ∷ rest) =
    let more = await_permission turn_addr (fill buf bytes) rest in
    if same_addr sender turn_addr
    then (u16_at (fill buf bytes) 0 >>= λ mt.
        if mt == 0x0108 then ok tt else if mt == 0x0118 then err permission_refused else more)
    else more

-- `let _ = …`: neither a value nor an error counts.
abbrev pub discard : {A : Type 0} → Outcome StunError A → Outcome StunError (Unit {0})
discard (ok a) = ok tt
discard (err e) = ok tt
discard panicked = panicked
discard out_of_fuel = out_of_fuel

unfoldable pub turn_create_permission :
    TurnState → (sent : Bool) → List Received → Outcome StunError (Unit {0})
unfolding await_permission
turn_create_permission ts sent arriving = do
  guard sent send_failed
  discard (await_permission ts.turn_addr (replicate 512 0) arriving)

unfoldable pub turn_refresh : (sent : Bool) → Outcome StunError (Unit {0})
turn_refresh sent = guard sent send_failed

attempted :
    (m : Outcome StunError SocketAddr) → Ensures m True → Ensures (attempt m >>= or_missing) True
attempted (ok a) h = tt
attempted (err e) h = tt
attempted panicked h = absurd h
attempted out_of_fuel h = absurd h

relayed_address-Ensures : (resp : Bytes) → Ensures (relayed_address resp) True
unfolding relayed_address
relayed_address-Ensures resp =
    found (parse_stun_attr resp 0x0016) (parse_stun_attr-Returns resp 0x0016)
  where
    found :
        (m : Outcome StunError (Option Bytes))
        → Returns m
        → Ensures
            (m >>= λ attr. elim attr [
              | none ↦ err missing_relayed_address
              | some val ↦ attempt (parse_xor_mapped val) >>= or_missing
            ])
            True
    found (ok none) h = tt
    found (ok (some val)) h = attempted (parse_xor_mapped val) (parse_xor_mapped-Ensures val)
    found (err e) h = tt
    found panicked h = absurd h
    found out_of_fuel h = absurd h

pub allocate_response-Ensures :
    (resp : Bytes) (ts : TurnState) → 2 ≤ length resp → Ensures (allocate_response resp ts) True
unfolding allocate_response
allocate_response-Ensures resp ts h =
    let (ty, e) = u16_at-ok StunError resp 0 (omega arith) in
    ground (arith, e, relayed_address-Ensures resp)

-- A second reply of fewer than two bytes makes `turn_allocate` index past the end.
pub allocate_response-panicked :
    (resp : Bytes) (ts : TurnState) → length resp < 2 → allocate_response resp ts ≡ panicked
unfolding allocate_response u16_at at
allocate_response-panicked [] ts h = refl
allocate_response-panicked (a ∷ []) ts h = refl
allocate_response-panicked (a ∷ b ∷ resp) ts h = absurd (omega arith)
