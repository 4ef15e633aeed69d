-- ===== src/Stun/Reply.antt =====
-- `stun_binding` of agent/src/webrtc.rs from the request to the address.
use any_kvm.Common.{
  ℕ, zero, suc, ◌/◌, ◌%◌, ◌^◌, ◌≤◌, ◌≡◌, refl, ap, ◌∙◌, true, false, ◌&&◌, some, List, [], ◌∷◌,
  ◌++◌, arith, ◌==◌, length, take, All,
}
use any_kvm.Common.Bytes.{Bytes, codes, to_be_bytes_32}
use any_kvm.Common.Outcome.{ok}
use any_kvm.Stun.{IpAddr, v4, v6, SocketAddr, stun_header}
use any_kvm.Stun.Network.{
  contains, host_port, find_ipv4, Resolver, resolve, same_ip, same_addr, Received, datagram,
  failure, await_reply, binding_request, Socket, send_to, stun_binding,
}
use any_kvm.Stun.Encode.{Attr}
use any_kvm.Stun.Find.{message, Fits, first_mapped, parse_stun_response-message}

-- A datagram of another sender.
abbrev pub IsForeign : SocketAddr → Received → Type 0
IsForeign server (datagram sender bytes) = same_addr sender server ≡ false
IsForeign server failure = ⊥

-- The id of a request: the time, and four fixed bytes.
abbrev pub request_id : ℕ → Bytes
request_id nanos =
    to_be_bytes_32 (nanos / 2 ^ 32 % 2 ^ 32)
    ++ (to_be_bytes_32 (nanos % 2 ^ 32) ++ (0xAB ∷ 0xCD ∷ 0xEF ∷ 0x01 ∷ []))

binding_request-message : (nanos : ℕ) → binding_request nanos ≡ message 0x0001 (request_id nanos) []
unfolding binding_request stun_header
binding_request-message nanos = refl

host_port-host :
    (host : Bytes)
    → contains b':' host ≡ false
    → host_port (codes "stun:") (codes "stun:" ++ host) ≡ host ++ codes ":3478"
unfolding host_port
host_port-host host e = ground (arith, e)

same_addr_self : (a : SocketAddr) → same_addr a a ≡ true
same_addr_self a = elim_ip a.ip
  where
    elim_ip : (ip : IpAddr) → (same_ip ip ip && a.port == a.port) ≡ true
    elim_ip (v4 n) = ground arith
    elim_ip (v6 n) = ground arith

take_all : (bytes : Bytes) (size : ℕ) → length bytes ≤ size → take size bytes ≡ bytes
take_all [] zero h = refl
take_all [] (suc size) h = refl
take_all (b ∷ bytes) zero h = absurd (omega arith)
take_all (b ∷ bytes) (suc size) h = ap (λ (l : Bytes). b ∷ l) (take_all bytes size (omega arith))

resolve-ok :
    (lookup_host : Resolver) (hp : Bytes) {addrs : List SocketAddr} {server : SocketAddr}
    → lookup_host hp ≡ some addrs
    → find_ipv4 addrs ≡ some server
    → resolve lookup_host hp ≡ ok server
unfolding resolve
resolve-ok lookup_host hp e f = ground (arith, e, f)

send_to-ok :
    (socket : Socket) (server : SocketAddr) (bytes : Bytes) {arriving : List Received}
    → socket server bytes ≡ some arriving
    → send_to socket server bytes ≡ ok arriving
unfolding send_to
send_to-ok socket server bytes e = ground (arith, e)

await_reply-others :
    (size : ℕ) (server : SocketAddr) (others : List Received) (bytes : Bytes) (rest : List Received)
    → All (IsForeign server) others
    → length bytes ≤ size
    → await_reply size server (others ++ (datagram server bytes ∷ rest)) ≡ ok bytes
unfolding await_reply
await_reply-others size server [] bytes rest f h =
    rw (same_addr_self server, take_all bytes size h) refl
await_reply-others size server (datagram sender b ∷ others) bytes rest f h =
    rw f.0 (await_reply-others size server others bytes rest f.1 h)
await_reply-others size server (failure ∷ others) bytes rest f h = absurd f.0

-- For a STUN URL without a port, `stun_binding` sends a Binding request with no attributes to port
-- 3478 of the first IPv4 address of the host. If the server then sends a Binding success response of
-- well-formed attributes and at most 512 bytes, the result is what the first XOR-MAPPED-ADDRESS or
-- MAPPED-ADDRESS in it says, whatever datagrams others have sent before, and whatever comes after.
pub stun_binding-message :
    (lookup_host : Resolver) (socket : Socket) (nanos : ℕ) (host : Bytes) (addrs : List SocketAddr)
    (server : SocketAddr) (others rest : List Received) (txn_id : Bytes) (attrs : List Attr)
    → contains b':' host ≡ false
    → lookup_host (host ++ codes ":3478") ≡ some addrs
    → find_ipv4 addrs ≡ some server
    → socket server (message 0x0001 (request_id nanos) [])
      ≡ some (others ++ (datagram server (message 0x0101 txn_id attrs) ∷ rest))
    → All (IsForeign server) others
    → Fits 0x0101 txn_id attrs
    → length (message 0x0101 txn_id attrs) ≤ 512
    → stun_binding lookup_host socket nanos (codes "stun:" ++ host) ≡ first_mapped attrs
unfolding stun_binding
stun_binding-message lookup_host socket nanos host addrs server others rest txn_id attrs plain found
      first answered foreign fits small =
    let asked = ap (socket server) (binding_request-message nanos) ∙ answered in
    rw (host_port-host host plain, resolve-ok lookup_host (host ++ codes ":3478") found first)
      (rw (send_to-ok socket server (binding_request nanos) asked) (
        rw (await_reply-others 512 server others (message 0x0101 txn_id attrs) rest foreign small)
          (parse_stun_response-message txn_id attrs fits)))
