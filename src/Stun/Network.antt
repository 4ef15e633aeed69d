-- ===== src/Stun/Network.antt =====
-- `stun_binding` of agent/src/webrtc.rs, and what it shares with the TURN client: the server's
-- address and the wait for a reply. What the resolver and the socket give is an argument: the
-- addresses found, whether a datagram could be sent, and the datagrams that arrive before the
-- timeout, in order.
use any_kvm.Common.{
  ℕ, ◌/◌, ◌%◌, ◌^◌, Bool, true, false, ◌&&◌, ◌||◌, Option, none, some, List, [], ◌∷◌, ◌++◌, ◌==◌,
  if◌then◌else◌, take,
}
use any_kvm.Common.Bytes.{Bytes, codes, to_be_bytes_32}
use any_kvm.Common.Outcome.{Outcome, ok, err, ◌>>=◌}
use any_kvm.Stun.{
  stun_magic, IpAddr, v4, v6, SocketAddr, StunError, resolve_failed, no_ipv4_address, send_failed,
  receive_failed, timed_out,
}
use any_kvm.Stun.Parse.{parse_stun_response}

-- `s.strip_prefix(p)`
abbrev pub strip_prefix : Bytes → Bytes → Option Bytes
strip_prefix [] s = some s
strip_prefix (p ∷ ps) [] = none
strip_prefix (p ∷ ps) (b ∷ s) = if p == b then strip_prefix ps s else none

abbrev pub contains : ℕ → Bytes → Bool
contains c [] = false
contains c (b ∷ s) = c == b || contains c s

-- "scheme:host:port", "scheme:host" or either without the scheme, as host and port.
unfoldable pub host_port : Bytes → Bytes → Bytes
host_port scheme url =
    let addr_str : Bytes = elim (strip_prefix scheme url) [ some s ↦ s | none ↦ url ] in
    if contains b':' addr_str then addr_str else addr_str ++ codes ":3478"

abbrev pub is_ipv4 : IpAddr → Bool
is_ipv4 (v4 a) = true
is_ipv4 (v6 a) = false

abbrev pub find_ipv4 : List SocketAddr → Option SocketAddr
find_ipv4 [] = none
find_ipv4 (a ∷ rest) = if is_ipv4 a.ip then some a else find_ipv4 rest

-- The resolver: a host and port gives addresses, or fails.
abbrev pub Resolver : Type 0
Resolver = Bytes → Option (List SocketAddr)

unfoldable pub resolve : Resolver → Bytes → Outcome StunError SocketAddr
resolve lookup_host hp = elim (lookup_host hp) [
  | none ↦ err resolve_failed
  | some addrs ↦ elim (find_ipv4 addrs) [ none ↦ err no_ipv4_address | some a ↦ ok a ]
]

abbrev pub same_ip : IpAddr → IpAddr → Bool
same_ip (v4 a) (v4 b) = a == b
same_ip (v6 a) (v6 b) = a == b
same_ip _ _ = false

abbrev pub same_addr : SocketAddr → SocketAddr → Bool
same_addr a b = same_ip a.ip b.ip && a.port == b.port

pub data Received : Type 0 where
  datagram : SocketAddr → Bytes → Received
  failure : Received

-- The first datagram of the server, cut to the buffer; others are dropped. The list's end is the
-- timeout.
unfoldable pub await_reply : ℕ → SocketAddr → List Received → Outcome StunError Bytes
await_reply size server [] = err timed_out
await_reply size server (failure ∷ rest) = err receive_failed
await_reply size server (datagram sender bytes ∷ rest) =
    if same_addr sender server then ok (take size bytes) else await_reply size server rest

-- The twenty bytes of the Binding request at a time in nanoseconds.
unfoldable pub binding_request : ℕ → Bytes
binding_request nanos =
    (0x00 ∷ 0x01 ∷ 0x00 ∷ 0x00 ∷ [])
    ++ (to_be_bytes_32 stun_magic
        ++ (to_be_bytes_32 (nanos / 2 ^ 32 % 2 ^ 32)
            ++ (to_be_bytes_32 (nanos % 2 ^ 32) ++ (0xAB ∷ 0xCD ∷ 0xEF ∷ 0x01 ∷ []))))

-- `send_to` of a datagram to an address: what arrives after it, or `none` if it cannot be sent.
abbrev pub Socket : Type 0
Socket = SocketAddr → Bytes → Option (List Received)

unfoldable pub send_to : Socket → SocketAddr → Bytes → Outcome StunError (List Received)
send_to socket address bytes = elim (socket address bytes) [
  | none ↦ err send_failed
  | some arriving ↦ ok arriving
]

-- The result at a time in nanoseconds.
unfoldable pub stun_binding : Resolver → Socket → ℕ → Bytes → Outcome StunError SocketAddr
unfolding await_reply resolve send_to binding_request
stun_binding lookup_host socket nanos stun_url = do
  stun_addr ← resolve lookup_host (host_port (codes "stun:") stun_url)
  arriving ← send_to socket stun_addr (binding_request nanos)
  reply ← await_reply 512 stun_addr arriving
  parse_stun_response reply
