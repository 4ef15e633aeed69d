-- ===== src/Stun.antt =====
-- agent/src/webrtc.rs, lines 494 to 632: STUN messages. A socket address is its IP and its port; an
-- IPv4 address is the `u32` that Rust's `u32::from` makes of it.
pub mod Walk
pub mod Encode
pub mod Parse
pub mod Find
pub mod Network
pub mod Binding
pub mod Reply
pub mod Utf8
mod Runs
use any_kvm.Common.{
  ℕ, ◌+◌, ◌-◌, ◌/◌, ◌%◌, ◌^◌, List, [], ◌∷◌, ◌++◌, bit_xor, ltb, ◌==◌, if◌then◌else◌, length,
  replicate,
}
use any_kvm.Common.Bytes.{Bytes, to_be_bytes_16, to_be_bytes_32, from_be_bytes_16, from_be_bytes_32}
use any_kvm.Common.Outcome.{Outcome, ok, err, panicked, out_of_fuel, ◌>>=◌, at}

abbrev pub stun_magic : ℕ
stun_magic = 0x2112A442

pub data IpAddr : Type 0 where
  v4 : ℕ → IpAddr
  v6 : ℕ → IpAddr

pub record SocketAddr : Type 0 where
  pub ip : IpAddr
  pub port : ℕ  -- u16

pub data StunError : Type 0 where
  too_short invalid_magic no_mapped_address missing_realm_or_nonce : StunError
  resolve_failed no_ipv4_address send_failed receive_failed timed_out : StunError
  no_401_response allocate_refused missing_relayed_address permission_refused : StunError
  bad_candidate : StunError
  unexpected_type : ℕ → StunError
  unsupported_family : ℕ → StunError

-- Twenty bytes: the type, the length of the attributes, the magic cookie, the transaction id.
unfoldable pub stun_header : ℕ → ℕ → Bytes → Bytes
stun_header msg_type msg_len txn_id =
    to_be_bytes_16 msg_type ++ (to_be_bytes_16 msg_len ++ (to_be_bytes_32 stun_magic ++ txn_id))

-- `(4 - len % 4) % 4` zero bytes fill the value up to a multiple of four.
unfoldable pub append_attr : Bytes → ℕ → Bytes → Bytes
append_attr buf attr_type value =
    buf
    ++ (to_be_bytes_16 attr_type
        ++ (to_be_bytes_16 (length value % 2 ^ 16)
            ++ (value ++ replicate ((4 - length value % 4) % 4) 0)))

-- The address of a family, read by `read` from the bytes 4 to 7 of an attribute.
unfoldable pub family_address : ℕ → ℕ → (ℕ → ℕ → ℕ → ℕ → ℕ) → Bytes → Outcome StunError SocketAddr
family_address family port read val =
    if family == 0x01
    then (do
      a3 ← at val 4
      a2 ← at val 5
      a1 ← at val 6
      a0 ← at val 7
      ok (record { ip = v4 (read a3 a2 a1 a0); port = port }))
    else err (unsupported_family family)

unfoldable pub parse_xor_mapped : Bytes → Outcome StunError SocketAddr
unfolding family_address
parse_xor_mapped val = if ltb (length val) 8 then err too_short else do
  family ← at val 1
  p1 ← at val 2
  p0 ← at val 3
  let port = bit_xor (from_be_bytes_16 p1 p0) (stun_magic / 2 ^ 16 % 2 ^ 16)
  family_address family port (λ a3 a2 a1 a0. bit_xor (from_be_bytes_32 a3 a2 a1 a0) stun_magic) val

-- `Ipv4Addr::new` is the address of four bytes, the first byte highest.
unfoldable pub parse_mapped : Bytes → Outcome StunError SocketAddr
unfolding family_address
parse_mapped val = if ltb (length val) 8 then err too_short else do
  p1 ← at val 2
  p0 ← at val 3
  family ← at val 1
  family_address family (from_be_bytes_16 p1 p0) from_be_bytes_32 val
