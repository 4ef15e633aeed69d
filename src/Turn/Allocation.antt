-- ===== src/Turn/Allocation.antt =====
-- The results of `turn_allocate` and `turn_create_permission` in agent/src/webrtc.rs.
use any_kvm.Common.{
  ℕ, ◌≤◌, ◌<◌, ◌≡◌, refl, true, List, [], ◌∷◌, arith, length, take, replicate, All, length-take,
  Bool-cases, inl, inr,
}
use any_kvm.Common.Bytes.{Bytes, codes}
use any_kvm.Common.Outcome.{
  Outcome, ok, err, panicked, out_of_fuel, guard, Returns, Ensures, Ensures-bind,
}
use any_kvm.Stun.{SocketAddr, StunError, send_failed, no_401_response}
use any_kvm.Stun.Walk.{u16_at-ok}
use any_kvm.Stun.Parse.{True}
use any_kvm.Stun.Network.{
  Resolver, resolve, host_port, Received, datagram, failure, same_addr, await_reply,
}
use any_kvm.Stun.Binding.{resolve-Ensures, guard-Ensures, await_reply-Returns}
use any_kvm.Turn.{TurnState}
use any_kvm.Turn.Data.{parse_turn_error_401, parse_turn_error_401-Returns}
use any_kvm.Turn.Client.{
  Exchange, context, turn_allocate, turn_create_permission, await_permission, fill, discard,
  allocate_response-Ensures, allocate_response-panicked,
}

-- A datagram with a message type in it.
abbrev pub HasType : Received → Type 0
HasType (datagram sender bytes) = 2 ≤ length bytes
HasType failure = Unit

take_long : (n : ℕ) (bytes : Bytes) → 2 ≤ n → 2 ≤ length bytes → 2 ≤ length (take n bytes)
take_long n bytes h k = omega (arith, length-take n bytes)

await_reply-Ensures :
    (server : SocketAddr) (arriving : List Received)
    → All HasType arriving
    → Ensures (await_reply 1024 server arriving) (λ resp. 2 ≤ length resp)
unfolding await_reply
await_reply-Ensures server [] h = tt
await_reply-Ensures server (failure ∷ rest) h = tt
await_reply-Ensures server (datagram sender bytes ∷ rest) h =
    elim (Bool-cases (same_addr sender server)) [
      | inl same ↦ rw (same, await_reply) (take_long 1024 bytes (omega arith) h.0)
      | inr other ↦ rw (other, await_reply) (await_reply-Ensures server rest h.1)
    ]

context-Ensures :
    {A : Type 0} (e : StunError) (m : Outcome StunError A) → Returns m → Ensures (context e m) True
context-Ensures e (ok a) h = tt
context-Ensures e (err x) h = tt
context-Ensures e panicked h = absurd h
context-Ensures e out_of_fuel h = absurd h

-- If every datagram of the second step holds at least two bytes, `turn_allocate` returns a relay
-- address or an error, whatever the resolver, the socket and the servers do.
pub turn_allocate-Ensures :
    (lookup_host : Resolver) (net : Exchange) (url username password : Bytes)
    → All HasType net.arriving_2
    → Ensures (turn_allocate lookup_host net url username password) True
unfolding turn_allocate
turn_allocate-Ensures lookup_host net url username password h =
    Ensures-bind True True (resolve lookup_host (host_port (codes "turn:") url)) _
      (resolve-Ensures lookup_host _)
      (λ server _.
        Ensures-bind True True (guard net.sent_1 send_failed) _ (guard-Ensures net.sent_1 _) (λ _ _.
          Ensures-bind True True (await_reply 1024 server net.arriving_1) _
            (await_reply-Returns 1024 server net.arriving_1)
            (λ reply _.
              Ensures-bind True True (context no_401_response (parse_turn_error_401 reply)) _
                (context-Ensures no_401_response (parse_turn_error_401 reply)
                  (parse_turn_error_401-Returns reply))
                (λ challenge _.
                  Ensures-bind True True (guard net.sent_2 send_failed) _
                    (guard-Ensures net.sent_2 _)
                    (λ _ _.
                      Ensures-bind (λ resp. 2 ≤ length resp) True
                        (await_reply 1024 server net.arriving_2) _
                        (await_reply-Ensures server net.arriving_2 h)
                        (λ resp long. allocate_response-Ensures resp _ long))))))

-- A TURN server, or whoever sends from its address, ends the agent by a second reply of fewer than
-- two bytes: once the first step has given a realm and a nonce, `turn_allocate` panics on it.
pub turn_allocate-panicked :
    (lookup_host : Resolver) (net : Exchange) (url username password : Bytes) {server : SocketAddr}
    {reply realm nonce resp : Bytes}
    → resolve lookup_host (host_port (codes "turn:") url) ≡ ok server
    → net.sent_1 ≡ true
    → await_reply 1024 server net.arriving_1 ≡ ok reply
    → parse_turn_error_401 reply ≡ ok (realm, nonce)
    → net.sent_2 ≡ true
    → await_reply 1024 server net.arriving_2 ≡ ok resp
    → length resp < 2
    → turn_allocate lookup_host net url username password ≡ panicked
unfolding turn_allocate
turn_allocate-panicked lookup_host net url username password {server} {reply} {realm} {nonce} {resp}
      r s1 a1 p s2 a2 short =
    let ts : TurnState = record {
      turn_addr = server;
      realm = realm;
      nonce = nonce;
      username = username;
      password = password;
    } in
    ground (arith, allocate_response-panicked resp ts)

length-fill : (buf bytes : Bytes) → length (fill buf bytes) ≡ length buf
length-fill [] [] = refl
length-fill (x ∷ buf) [] = refl
length-fill [] (b ∷ bytes) = refl
length-fill (x ∷ buf) (b ∷ bytes) = omega (arith, length-fill buf bytes)

await_permission-Returns :
    (server : SocketAddr) (buf : Bytes) (arriving : List Received)
    → 2 ≤ length buf
    → Ensures (await_permission server buf arriving) True
unfolding await_permission
await_permission-Returns server buf [] h = tt
await_permission-Returns server buf (failure ∷ rest) h = tt
await_permission-Returns server buf (datagram sender bytes ∷ rest) h =
    let ih =
      await_permission-Returns server (fill buf bytes) rest
        (omega (arith, length-fill buf bytes)) in
    let (ty, e) = u16_at-ok StunError (fill buf bytes) 0 (omega (arith, length-fill buf bytes)) in
    ground (arith, ih, e)

discard-ok : (m : Outcome StunError (Unit {0})) → Ensures m True → discard m ≡ ok tt
discard-ok (ok a) h = refl
discard-ok (err e) h = refl
discard-ok panicked h = absurd h
discard-ok out_of_fuel h = absurd h

-- Once its request is sent, `turn_create_permission` succeeds whatever arrives: a refusal by the
-- server, a failed read and the timeout count as much as a success.
pub turn_create_permission-ok :
    (ts : TurnState) (arriving : List Received) → turn_create_permission ts true arriving ≡ ok tt
unfolding turn_create_permission
turn_create_permission-ok ts arriving =
    discard-ok (await_permission ts.turn_addr (replicate 512 0) arriving)
      (await_permission-Returns ts.turn_addr (replicate 512 0) arriving (omega arith))
