-- ===== src/Webrtc/Transport.antt =====
-- Where the session's packets go, and where those that arrive come from: the `Transmit` arm, the
-- `recv_from` arm, the remote candidates and the TURN refresh of `run` in agent/src/webrtc.rs.
use any_kvm.Common.{
  ℕ, ◌+◌, Bool, false, ◌||◌, Option, none, some, List, [], ◌∷◌, leb, if◌then◌else◌,
}
use any_kvm.Common.Bytes.{Bytes}
use any_kvm.Common.Outcome.{Outcome, ok, err, panicked, out_of_fuel, ◌>>=◌}
use any_kvm.Stun.{IpAddr, SocketAddr, StunError}
use any_kvm.Stun.Network.{same_ip, same_addr, Received}
use any_kvm.Turn.{TurnState, build_turn_send_indication}
use any_kvm.Turn.Client.{turn_create_permission}
use any_kvm.Turn.Data.{parse_turn_data}

-- The relay address and the TURN state of the session.
pub record Relay : Type 0 where
  pub relay_addr : Option SocketAddr
  pub turn_state : Option TurnState

-- The datagram for a packet, and its destination. `nanos` is the time of the transaction id.
unfoldable pub wrap :
    ℕ → SocketAddr → SocketAddr → Bytes → Option SocketAddr → Option TurnState → SocketAddr × Bytes
wrap nanos source destination contents (some raddr) (some ts) =
    if same_addr source raddr
    then (ts.turn_addr, build_turn_send_indication nanos destination contents)
    else (destination, contents)
wrap nanos source destination contents (some raddr) none = (destination, contents)
wrap nanos source destination contents none ts = (destination, contents)

unfoldable pub on_transmit : Relay → ℕ → SocketAddr → SocketAddr → Bytes → SocketAddr × Bytes
unfolding wrap
on_transmit r nanos source destination contents =
    wrap nanos source destination contents r.relay_addr r.turn_state

-- `Input::Receive`: the sender, the local address, the contents.
pub record Input : Type 0 where
  pub source : SocketAddr
  pub destination : SocketAddr
  pub contents : Bytes

-- Whether str0m takes a packet: `Receive::new(…).is_ok()`.
abbrev pub Accepts : Type 0
Accepts = Input → Bool

-- The first local address for which the packet is taken.
unfoldable pub match_local : Accepts → SocketAddr → Bytes → List SocketAddr → Option Input
match_local accepts sender bytes [] = none
match_local accepts sender bytes (la ∷ rest) =
    if accepts (record { source = sender; destination = la; contents = bytes })
    then some (record { source = sender; destination = la; contents = bytes })
    else match_local accepts sender bytes rest

-- What comes from the TURN server: relayed data for the relay address, or a control message.
unfoldable pub from_relay : Accepts → Option SocketAddr → Bytes → Outcome StunError (Option Input)
from_relay accepts none bytes = ok none
from_relay accepts (some raddr) bytes = parse_turn_data bytes >>= λ found. elim found [
  | none ↦ ok none
  | some (peer, payload) ↦ ok (
      if accepts (record { source = peer; destination = raddr; contents = payload })
      then some (record { source = peer; destination = raddr; contents = payload })
      else none)
]

unfoldable pub is_turn_server : Option TurnState → SocketAddr → Bool
is_turn_server none sender = false
is_turn_server (some ts) sender = same_addr sender ts.turn_addr

unfoldable pub on_datagram :
    Accepts → Relay → List SocketAddr → SocketAddr → Bytes → Outcome StunError (Option Input)
unfolding from_relay is_turn_server match_local
on_datagram accepts r local_addrs sender bytes =
    if is_turn_server r.turn_state sender
    then from_relay accepts r.relay_addr bytes
    else ok (match_local accepts sender bytes local_addrs)

abbrev pub contains_ip : IpAddr → List IpAddr → Bool
contains_ip ip [] = false
contains_ip ip (x ∷ perms) = same_ip ip x || contains_ip ip perms

-- A remote candidate that str0m could read, and what the network does for its permission.
pub record RemoteCandidate : Type 0 where
  pub addr : SocketAddr
  pub sent : Bool
  pub arriving : List Received

-- `turn_perms.insert` only after `turn_create_permission` succeeded.
unfoldable pub granted : Outcome StunError (Unit {0}) → IpAddr → List IpAddr → List IpAddr
granted (ok u) ip perms = ip ∷ perms
granted (err e) ip perms = perms
granted panicked ip perms = perms
granted out_of_fuel ip perms = perms

unfoldable pub on_candidate : Option TurnState → RemoteCandidate → List IpAddr → List IpAddr
unfolding granted
on_candidate none c perms = perms
on_candidate (some ts) c perms =
    if contains_ip c.addr.ip perms
    then perms
    else granted (turn_create_permission ts c.sent c.arriving) c.addr.ip perms

-- The permissions after the candidates that are waiting; each is given to str0m, too.
unfoldable pub on_candidates : Option TurnState → List RemoteCandidate → List IpAddr → List IpAddr
unfolding on_candidate
on_candidates ts [] perms = perms
on_candidates ts (c ∷ cs) perms = on_candidates ts cs (on_candidate ts c perms)

-- The time of the next refresh: 240 seconds from now if one is due, whether or not it was sent.
unfoldable pub refresh_at : Option TurnState → ℕ → ℕ → ℕ
refresh_at none now due = due
refresh_at (some ts) now due = if leb due now then now + 240 else due
