-- ===== src/Stun/Binding.antt =====
-- When `stun_binding` of agent/src/webrtc.rs returns, and its parts, which the TURN client shares.
use any_kvm.Common.{ℕ, Bool, true, false, List, [], ◌∷◌, arith}
use any_kvm.Common.Bytes.{Bytes, codes}
use any_kvm.Common.Outcome.{
  Outcome, ok, err, panicked, out_of_fuel, guard, Returns, Ensures, Ensures-bind,
}
use any_kvm.Stun.{SocketAddr, StunError}
use any_kvm.Stun.Network.{
  Resolver, resolve, host_port, Received, datagram, failure, await_reply, stun_binding, Socket,
  send_to, binding_request,
}
use any_kvm.Stun.Parse.{True, parse_stun_response, parse_stun_response-Returns}

pub resolve-Ensures : (lookup_host : Resolver) (hp : Bytes) → Ensures (resolve lookup_host hp) True
unfolding resolve
resolve-Ensures lookup_host hp = ground arith

pub guard-Ensures : (b : Bool) (e : StunError) → Ensures (guard b e) True
guard-Ensures true e = tt
guard-Ensures false e = tt

pub await_reply-Returns :
    (size : ℕ) (server : SocketAddr) (arriving : List Received)
    → Ensures (await_reply size server arriving) True
unfolding await_reply
await_reply-Returns size server [] = tt
await_reply-Returns size server (failure ∷ rest) = tt
await_reply-Returns size server (datagram sender bytes ∷ rest) =
    ground (arith, await_reply-Returns size server rest)

-- An outcome that returns.
pub Returns-Ensures : {A : Type 0} (m : Outcome StunError A) → Returns m → Ensures m True
Returns-Ensures (ok a) h = tt
Returns-Ensures (err e) h = tt
Returns-Ensures panicked h = absurd h
Returns-Ensures out_of_fuel h = absurd h

send_to-Ensures :
    (socket : Socket) (a : SocketAddr) (bytes : Bytes)
    → Ensures (send_to socket a bytes) (λ r. Unit {0})
unfolding send_to
send_to-Ensures socket a bytes = ground arith

pub stun_binding-Ensures :
    (lookup_host : Resolver) (socket : Socket) (nanos : ℕ) (url : Bytes)
    → Ensures (stun_binding lookup_host socket nanos url) (λ a. Unit {0})
unfolding stun_binding
stun_binding-Ensures lookup_host socket nanos url =
    Ensures-bind True True (resolve lookup_host (host_port (codes "stun:") url)) _
      (resolve-Ensures lookup_host _)
      (λ server _.
        Ensures-bind (λ r. Unit {0}) True (send_to socket server (binding_request nanos)) _
          (send_to-Ensures socket server _)
          (λ arriving _.
            Ensures-bind True True (await_reply 512 server arriving) _
              (await_reply-Returns 512 server arriving)
              (λ reply _.
                Returns-Ensures (parse_stun_response reply) (parse_stun_response-Returns reply))))
