-- ===== src/Turn.antt =====
-- agent/src/webrtc.rs, lines 591 to 1053: the TURN client. The clock and the network are arguments.
pub mod Data
pub mod Client
pub mod Allocation
pub mod Relay
pub mod Integrity
pub mod Parsers
pub mod Credentials
mod Runs
use any_kvm.Common.{
  ℕ, ◌+◌, ◌/◌, ◌%◌, ◌^◌, List, [], ◌∷◌, ◌++◌, bit_xor, if◌then◌else◌, length, take, drop,
}
use any_kvm.Common.Bytes.{Bytes, codes, to_be_bytes_16, to_be_bytes_32}
use any_kvm.Stun.{stun_magic, IpAddr, v4, v6, SocketAddr, stun_header, append_attr}
use any_kvm.Stun.Utf8.{is_utf8}
use any_kvm.Crypto.Md5.{md5_hash}
use any_kvm.Crypto.Hmac.{hmac_sha1}

pub record TurnState : Type 0 where
  pub turn_addr : SocketAddr
  pub realm : Bytes
  pub nonce : Bytes
  pub username : Bytes
  pub password : Bytes

-- Twelve bytes of a time in nanoseconds, a `u128`: the low 64 bits, then 32 bits of the high half.
unfoldable pub gen_txn_id : ℕ → Bytes
gen_txn_id nanos =
    to_be_bytes_32 (nanos / 2 ^ 32 % 2 ^ 32)
    ++ (to_be_bytes_32 (nanos % 2 ^ 32) ++ to_be_bytes_32 (nanos / 2 ^ 64 % 2 ^ 32))

-- `msg[2..4].copy_from_slice(&len.to_be_bytes())`
unfoldable pub set_length : Bytes → ℕ → Bytes
set_length msg len = take 2 msg ++ (to_be_bytes_16 len ++ drop 4 msg)

unfoldable pub md5_key : Bytes → Bytes → Bytes → Bytes
md5_key username realm password =
    let realm_str : Bytes = if is_utf8 realm then realm else [] in
    md5_hash (username ++ (codes ":" ++ (realm_str ++ (codes ":" ++ password))))

-- The three attributes that say who signs.
unfoldable pub append_identity : Bytes → TurnState → Bytes
unfolding append_attr
append_identity buf ts =
    append_attr (append_attr (append_attr buf 0x0006 ts.username) 0x0014 ts.realm) 0x0015 ts.nonce

-- USERNAME, REALM, NONCE and MESSAGE-INTEGRITY. The caller's header is a temporary: its new length
-- counts in what is signed only. A `u16` sum wraps in the release build.
unfoldable pub append_auth : Bytes → Bytes → TurnState → Bytes
unfolding append_identity set_length
append_auth buf header ts =
    let buf' = append_identity buf ts in
    let msg_len_with_integrity = (length buf' % 2 ^ 16 + 24) % 2 ^ 16 in
    let data_to_hmac = set_length header msg_len_with_integrity ++ buf' in
    let key = md5_key ts.username ts.realm ts.password in
    append_attr buf' 0x0008 (hmac_sha1 key data_to_hmac)

-- A signed request: the attributes with the authentication behind them, under a header whose length
-- is written once more. `turn_allocate`, `turn_create_permission` and `turn_refresh` each do so.
unfoldable pub signed_request : ℕ → Bytes → Bytes → TurnState → Bytes
unfolding append_auth set_length
signed_request msg_type attrs txn ts =
    let attrs' = append_auth attrs (stun_header msg_type 0 txn) ts in
    let hdr = stun_header msg_type (length attrs' % 2 ^ 16) txn in
    set_length (hdr ++ attrs') (length attrs' % 2 ^ 16)

-- The value of XOR-PEER-ADDRESS for an IPv4 peer.
unfoldable pub xor_peer : ℕ → ℕ → Bytes
xor_peer port ipv4 =
    (0 ∷ 0x01 ∷ [])
    ++ (to_be_bytes_16 (bit_xor port (stun_magic / 2 ^ 16 % 2 ^ 16))
        ++ to_be_bytes_32 (bit_xor ipv4 stun_magic))

-- XOR-PEER-ADDRESS, only for an IPv4 peer.
unfoldable pub append_peer : Bytes → IpAddr → ℕ → Bytes
unfolding xor_peer
append_peer attrs (v4 ipv4) port = append_attr attrs 0x0012 (xor_peer port ipv4)
append_peer attrs (v6 ipv6) port = attrs

unfoldable pub build_turn_send_indication : ℕ → SocketAddr → Bytes → Bytes
unfolding append_peer gen_txn_id
build_turn_send_indication nanos peer payload =
    let attrs = append_attr (append_peer [] peer.ip peer.port) 0x0013 payload in
    stun_header 0x0016 (length attrs % 2 ^ 16) (gen_txn_id nanos) ++ attrs

unfoldable pub create_permission_request : ℕ → TurnState → IpAddr → Bytes
unfolding append_peer signed_request gen_txn_id
create_permission_request nanos ts peer_ip =
    signed_request 0x0008 (append_peer [] peer_ip 0) (gen_txn_id nanos) ts

unfoldable pub refresh_request : ℕ → TurnState → Bytes
unfolding signed_request gen_txn_id
refresh_request nanos ts =
    signed_request 0x0004 (append_attr [] 0x000D (to_be_bytes_32 600)) (gen_txn_id nanos) ts

-- REQUESTED-TRANSPORT: UDP.
abbrev pub requested_transport : Bytes
requested_transport = to_be_bytes_32 0x11000000

-- The first Allocate request is not signed.
unfoldable pub allocate_request : ℕ → Bytes
unfolding gen_txn_id
allocate_request nanos =
    let attrs = append_attr [] 0x0019 requested_transport in
    stun_header 0x0003 (length attrs % 2 ^ 16) (gen_txn_id nanos) ++ attrs

unfoldable pub signed_allocate_request : ℕ → TurnState → Bytes
unfolding signed_request gen_txn_id
signed_allocate_request nanos ts =
    signed_request 0x0003 (append_attr [] 0x0019 requested_transport) (gen_txn_id nanos) ts
