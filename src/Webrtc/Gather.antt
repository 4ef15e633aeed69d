-- ===== src/Webrtc/Gather.antt =====
-- The start of `run` in agent/src/webrtc.rs, up to the SDP offer: the local candidates. Which
-- candidates str0m can build, the resolver and the network are arguments; the configured texts are
-- bytes.
use any_kvm.Common.{ℕ, Bool, Option, none, some, List, [], ◌∷◌, ◌++◌, map, if◌then◌else◌}
use any_kvm.Common.Bytes.{Bytes}
use any_kvm.Common.Outcome.{Outcome, ok, err, panicked, out_of_fuel, ◌>>=◌}
use any_kvm.Stun.{IpAddr, v4, SocketAddr, StunError, bad_candidate}
use any_kvm.Stun.Network.{Resolver, Socket, stun_binding}
use any_kvm.Turn.{TurnState}
use any_kvm.Turn.Client.{Exchange, turn_allocate}
use any_kvm.Webrtc.Transport.{Relay}

pub data Candidate : Type 0 where
  host : SocketAddr → Candidate
  server_reflexive : SocketAddr → SocketAddr → Candidate
  relayed : SocketAddr → Candidate

-- `Candidate::host(…)` and the others, which may fail.
abbrev pub Builds : Type 0
Builds = Candidate → Bool

-- 127.0.0.1
abbrev pub localhost : IpAddr
localhost = v4 0x7f000001

abbrev pub primary_ip : List IpAddr → IpAddr
primary_ip [] = localhost
primary_ip (ip ∷ ips) = ip

abbrev pub at_port : ℕ → IpAddr → SocketAddr
at_port port ip = record { ip = ip; port = port }

unfoldable pub local_addrs : List IpAddr → ℕ → List SocketAddr
local_addrs [] port = at_port port localhost ∷ []
local_addrs (ip ∷ ips) port = map (at_port port) (ip ∷ ips)

-- `.context(…)?` and `rtc.add_local_candidate(…)`
unfoldable pub add : Builds → Candidate → List Candidate → Outcome StunError (List Candidate)
add builds c cs = if builds c then ok (cs ++ (c ∷ [])) else err bad_candidate

unfoldable pub add_hosts :
    Builds → List SocketAddr → List Candidate → Outcome StunError (List Candidate)
unfolding add
add_hosts builds [] cs = ok cs
add_hosts builds (a ∷ rest) cs = add builds (host a) cs >>= λ cs'. add_hosts builds rest cs'

-- For a server: the time, and the socket.
abbrev pub Network : Type 0
Network = Bytes → ℕ × Socket

-- The loop over `ice_cfg.stun_servers`, which ends at the first that answers.
unfoldable pub add_srflx :
    Builds
    → Resolver
    → Network
    → SocketAddr
    → List Bytes
    → List Candidate
    → Outcome StunError (List Candidate)
unfolding add stun_binding
add_srflx builds lookup_host net local_addr [] cs = ok cs
add_srflx builds lookup_host net local_addr (stun_url ∷ urls) cs =
    let next = add_srflx builds lookup_host net local_addr urls cs in
    elim (stun_binding lookup_host (net stun_url).1 (net stun_url).0 stun_url) [
      | ok srflx_addr ↦ add builds (server_reflexive srflx_addr local_addr) cs
      | err e ↦ next
      | panicked ↦ panicked
      | out_of_fuel ↦ out_of_fuel
    ]

-- The URL, the user and the password of the TURN server.
pub record TurnConfig : Type 0 where
  pub turn_url : Option Bytes
  pub turn_username : Option Bytes
  pub turn_password : Option Bytes

pub record Gathered : Type 0 where
  pub candidates : List Candidate
  pub relay : Relay

abbrev pub no_relay : List Candidate → Gathered
no_relay cs = record { candidates = cs; relay = record { relay_addr = none; turn_state = none } }

-- A failed allocation is only logged.
unfoldable pub allocated :
    Builds
    → Outcome StunError (SocketAddr × TurnState)
    → List Candidate
    → Outcome StunError Gathered
unfolding add
allocated builds (ok (raddr, state)) cs = add builds (relayed raddr) cs >>= λ cs'. ok (record {
  candidates = cs';
  relay = record { relay_addr = some raddr; turn_state = some state };
})
allocated builds (err e) cs = ok (no_relay cs)
allocated builds panicked cs = panicked
allocated builds out_of_fuel cs = out_of_fuel

-- Without all three there is no relay.
unfoldable pub add_relay :
    Builds → Resolver → Exchange → TurnConfig → List Candidate → Outcome StunError Gathered
unfolding allocated turn_allocate
add_relay builds lookup_host exchange cfg cs = elim cfg.turn_url [
  | none ↦ ok (no_relay cs)
  | some turn_url ↦ elim cfg.turn_username [
    | none ↦ ok (no_relay cs)
    | some user ↦ elim cfg.turn_password [
      | none ↦ ok (no_relay cs)
      | some pass ↦ allocated builds (turn_allocate lookup_host exchange turn_url user pass) cs
    ]
  ]
]

unfoldable pub gather :
    Builds
    → Resolver
    → Network
    → Exchange
    → List IpAddr
    → ℕ
    → List Bytes
    → TurnConfig
    → Outcome StunError Gathered
unfolding local_addrs add_hosts add_srflx add_relay
gather builds lookup_host net exchange local_ips local_port stun_servers cfg =
    let local_addr = at_port local_port (primary_ip local_ips) in
    add_hosts builds (local_addrs local_ips local_port) [] >>= λ hosts.
    add_srflx builds lookup_host net local_addr stun_servers hosts >>= λ reflexive.
    add_relay builds lookup_host exchange cfg reflexive
