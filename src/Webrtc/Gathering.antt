-- ===== src/Webrtc/Gathering.antt =====
-- The results of gathering the candidates, at the start of `run` in agent/src/webrtc.rs.
use any_kvm.Common.{ℕ, ◌≡◌, refl, Bool, true, false, Option, none, some, List, [], ◌∷◌, arith, All}
use any_kvm.Common.Bytes.{Bytes}
use any_kvm.Common.Outcome.{Outcome, ok, err, panicked, out_of_fuel, Ensures, Ensures-bind}
use any_kvm.Stun.{IpAddr, SocketAddr, StunError}
use any_kvm.Stun.Network.{Resolver, stun_binding}
use any_kvm.Turn.{TurnState}
use any_kvm.Turn.Client.{Exchange, turn_allocate}
use any_kvm.Turn.Allocation.{HasType, turn_allocate-Ensures}
use any_kvm.Stun.Parse.{True}
use any_kvm.Stun.Binding.{stun_binding-Ensures}
use any_kvm.Webrtc.Gather.{
  Candidate, Builds, primary_ip, at_port, local_addrs, add, add_hosts, Network, add_srflx,
  TurnConfig, Gathered, no_relay, allocated, add_relay, gather, host, server_reflexive, relayed,
}

abbrev pub paired : Option SocketAddr → Option TurnState → Bool
paired (some a) (some ts) = true
paired none none = true
paired (some a) none = false
paired none (some ts) = false

-- The relay address and the state that goes with it come together.
abbrev pub IsPaired : Gathered → Type 0
IsPaired g = paired g.relay.relay_addr g.relay.turn_state ≡ true

add-Ensures :
    (builds : Builds) (c : Candidate) (cs : List Candidate) → Ensures (add builds c cs) True
unfolding add
add-Ensures builds c cs = ground arith

add_hosts-Ensures :
    (builds : Builds) (addrs : List SocketAddr) (cs : List Candidate)
    → Ensures (add_hosts builds addrs cs) True
unfolding add_hosts
add_hosts-Ensures builds [] cs = tt
add_hosts-Ensures builds (a ∷ rest) cs =
    Ensures-bind True True (add builds (host a) cs) _ (add-Ensures builds (host a) cs)
      (λ cs' _. add_hosts-Ensures builds rest cs')

add_srflx-Ensures :
    (builds : Builds) (lookup_host : Resolver) (net : Network) (local_addr : SocketAddr)
    (urls : List Bytes) (cs : List Candidate)
    → Ensures (add_srflx builds lookup_host net local_addr urls cs) True
unfolding add_srflx
add_srflx-Ensures builds lookup_host net local_addr [] cs = tt
add_srflx-Ensures builds lookup_host net local_addr (url ∷ urls) cs =
    answered (stun_binding lookup_host (net url).1 (net url).0 url) _
      (stun_binding-Ensures lookup_host (net url).1 (net url).0 url)
      (add_srflx-Ensures builds lookup_host net local_addr urls cs)
  where
    answered :
        (m : Outcome StunError SocketAddr) (next : Outcome StunError (List Candidate))
        → Ensures m True
        → Ensures next True
        → Ensures
            (elim m [
              | ok srflx_addr ↦ add builds (server_reflexive srflx_addr local_addr) cs
              | err e ↦ next
              | panicked ↦ panicked
              | out_of_fuel ↦ out_of_fuel
            ])
            True
    answered (ok a) next h k = add-Ensures builds (server_reflexive a local_addr) cs
    answered (err e) next h k = k
    answered panicked next h k = absurd h
    answered out_of_fuel next h k = absurd h

allocated-IsPaired :
    (builds : Builds) (m : Outcome StunError (SocketAddr × TurnState)) (cs : List Candidate)
    → Ensures m True
    → Ensures (allocated builds m cs) IsPaired
unfolding allocated
allocated-IsPaired builds (ok (raddr, state)) cs h =
    Ensures-bind True IsPaired (add builds (relayed raddr) cs) _
      (add-Ensures builds (relayed raddr) cs) (λ cs' _. refl)
allocated-IsPaired builds (err e) cs h = refl
allocated-IsPaired builds panicked cs h = absurd h
allocated-IsPaired builds out_of_fuel cs h = absurd h

add_relay-IsPaired :
    (builds : Builds) (lookup_host : Resolver) (exchange : Exchange) (cfg : TurnConfig)
    (cs : List Candidate)
    → All HasType exchange.arriving_2
    → Ensures (add_relay builds lookup_host exchange cfg cs) IsPaired
unfolding add_relay
add_relay-IsPaired builds lookup_host exchange cfg cs h =
    configured cfg.turn_url cfg.turn_username cfg.turn_password
  where
    configured :
        (url user pass : Option Bytes)
        → Ensures
            (elim url [
              | none ↦ ok (no_relay cs)
              | some turn_url ↦ elim user [
                | none ↦ ok (no_relay cs)
                | some u ↦ elim pass [
                  | none ↦ ok (no_relay cs)
                  | some p ↦ allocated builds (turn_allocate lookup_host exchange turn_url u p) cs
                ]
              ]
            ])
            IsPaired
    configured none user pass = refl
    configured (some url) none pass = refl
    configured (some url) (some user) none = refl
    configured (some url) (some user) (some pass) =
        allocated-IsPaired builds (turn_allocate lookup_host exchange url user pass) cs
          (turn_allocate-Ensures lookup_host exchange url user pass h)

-- Gathering the candidates ends without a panic, whatever the STUN servers and the resolver do, if
-- every datagram of the second step with the TURN server holds at least two bytes. What it returns
-- has a relay address exactly if it has the state of that relay.
pub gather-IsPaired :
    (builds : Builds) (lookup_host : Resolver) (net : Network) (exchange : Exchange)
    (local_ips : List IpAddr) (local_port : ℕ) (stun_servers : List Bytes) (cfg : TurnConfig)
    → All HasType exchange.arriving_2
    → Ensures
        (gather builds lookup_host net exchange local_ips local_port stun_servers cfg)
        IsPaired
unfolding gather
gather-IsPaired builds lookup_host net exchange local_ips local_port stun_servers cfg h =
    Ensures-bind True IsPaired (add_hosts builds (local_addrs local_ips local_port) []) _
      (add_hosts-Ensures builds (local_addrs local_ips local_port) [])
      (λ hosts _.
        Ensures-bind True IsPaired
          (add_srflx builds lookup_host net (at_port local_port (primary_ip local_ips)) stun_servers
            hosts)
          _
          (add_srflx-Ensures builds lookup_host net (at_port local_port (primary_ip local_ips))
            stun_servers hosts)
          (λ reflexive _. add_relay-IsPaired builds lookup_host exchange cfg reflexive h))
