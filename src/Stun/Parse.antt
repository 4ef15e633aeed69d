-- ===== src/Stun/Parse.antt =====
-- `parse_stun_response` and `parse_stun_attr` of agent/src/webrtc.rs.
use any_kvm.Common.{
  ℕ, ◌≤◌, Option, none, some, arith, ltb, ◌==◌, if◌then◌else◌, length, Bool-cases, inl, inr,
}
use any_kvm.Common.Bytes.{Bytes, from_be_bytes_32, eight_bytes}
use any_kvm.Common.Outcome.{
  Outcome, ok, err, ◌>>=◌, ◌>>◌, guard, at, slice, Ensures, Ensures-bind, slice-Ensures, Returns,
}
use any_kvm.Stun.{
  stun_magic, SocketAddr, StunError, too_short, invalid_magic, no_mapped_address, unexpected_type,
  parse_xor_mapped, parse_mapped,
}
use any_kvm.Stun.Walk.{
  Flow, next, done, u16_at, u16_at-ok, walk, message_end, message_end-ok, FlowIs, walk-Ensures,
}

-- `u32::from_be_bytes` of the bytes 4 to 7.
unfoldable pub cookie : Bytes → Outcome StunError ℕ
cookie pkt = do
  c3 ← at pkt 4
  c2 ← at pkt 5
  c1 ← at pkt 6
  c0 ← at pkt 7
  ok (from_be_bytes_32 c3 c2 c1 c0)

-- The body of the loop: XOR-MAPPED-ADDRESS, or MAPPED-ADDRESS.
unfoldable pub mapped_body :
    Bytes → Unit {0} → ℕ → ℕ → ℕ → Outcome StunError (Flow (Unit {0}) SocketAddr)
mapped_body pkt s attr_type lo hi = do
  val ← slice pkt lo hi
  if attr_type == 0x0020
      then (parse_xor_mapped val >>= λ a. ok (done a))
      else if attr_type == 0x0001
      then (parse_mapped val >>= λ a. ok (done a))
      else ok (next tt)

abbrev pub mapped_result : Flow (Unit {0}) SocketAddr → Outcome StunError SocketAddr
mapped_result (done a) = ok a
mapped_result (next s) = err no_mapped_address

unfoldable pub parse_stun_response : Bytes → Outcome StunError SocketAddr
unfolding cookie mapped_body
parse_stun_response pkt = if ltb (length pkt) 20 then err too_short else do
  magic ← cookie pkt
  guard (magic == stun_magic) invalid_magic
  msg_type ← u16_at pkt 0
  guard (msg_type == 0x0101) (unexpected_type msg_type)
  end ← message_end pkt
  flow ← walk (mapped_body pkt) pkt end (length pkt) 20 tt
  mapped_result flow

unfoldable pub attr_body :
    Bytes → ℕ → Unit {0} → ℕ → ℕ → ℕ → Outcome StunError (Flow (Unit {0}) Bytes)
attr_body pkt target_type s attr_type lo hi =
    if attr_type == target_type then (slice pkt lo hi >>= λ val. ok (done val)) else ok (next tt)

abbrev pub attr_result : Flow (Unit {0}) Bytes → Outcome StunError (Option Bytes)
attr_result (done val) = ok (some val)
attr_result (next s) = ok none

unfoldable pub parse_stun_attr : Bytes → ℕ → Outcome StunError (Option Bytes)
unfolding attr_body
parse_stun_attr pkt target_type = if ltb (length pkt) 20 then ok none else do
  end ← message_end pkt
  flow ← walk (attr_body pkt target_type) pkt end (length pkt) 20 tt
  attr_result flow

abbrev pub True : {A : Type 0} → A → Type 0
True a = Unit {0}

pub parse_xor_mapped-Ensures : (val : Bytes) → Ensures (parse_xor_mapped val) True
unfolding parse_xor_mapped at
parse_xor_mapped-Ensures val = elim (Bool-cases (ltb (length val) 8)) [
  | inl short ↦ rw (short, parse_xor_mapped) tt
  | inr long ↦
      let (b0, b1, b2, b3, b4, b5, b6, b7, rest, e) = eight_bytes val (ground arith) in
      rw e (ground arith)
]

pub parse_mapped-Ensures : (val : Bytes) → Ensures (parse_mapped val) True
unfolding parse_mapped at
parse_mapped-Ensures val = elim (Bool-cases (ltb (length val) 8)) [
  | inl short ↦ rw (short, parse_mapped) tt
  | inr long ↦
      let (b0, b1, b2, b3, b4, b5, b6, b7, rest, e) = eight_bytes val (ground arith) in
      rw e (ground arith)
]

mapped_body-Ensures :
    (pkt : Bytes) (s : Unit {0}) (ty lo hi : ℕ)
    → lo ≤ hi
    → hi ≤ length pkt
    → True s
    → Ensures (mapped_body pkt s ty lo hi) (FlowIs True True)
unfolding mapped_body
mapped_body-Ensures pkt s ty lo hi p q t =
    Ensures-bind True (FlowIs True True) (slice pkt lo hi) _ (slice-Ensures StunError pkt lo hi p q)
      (λ val _. ground (arith, parse_xor_mapped-Ensures val, parse_mapped-Ensures val))

attr_body-Ensures :
    (pkt : Bytes) (target : ℕ) (s : Unit {0}) (ty lo hi : ℕ)
    → lo ≤ hi
    → hi ≤ length pkt
    → True s
    → Ensures (attr_body pkt target s ty lo hi) (FlowIs True True)
unfolding attr_body
attr_body-Ensures pkt target s ty lo hi p q t =
    ground (arith, slice-Ensures StunError pkt lo hi p q)

pub cookie-Ensures : (pkt : Bytes) → 20 ≤ length pkt → Ensures (cookie pkt) True
unfolding cookie at
cookie-Ensures pkt h =
    let (b0, b1, b2, b3, b4, b5, b6, b7, rest, e) = eight_bytes pkt (omega arith) in rw e tt

-- On every packet `parse_stun_response` returns an address or an error: it never indexes past the
-- end, and its loop ends within the fuel.
pub parse_stun_response-Returns : (pkt : Bytes) → Returns (parse_stun_response pkt)
unfolding parse_stun_response
parse_stun_response-Returns pkt = elim (Bool-cases (ltb (length pkt) 20)) [
  | inl short ↦ rw (short, parse_stun_response) tt
  | inr long ↦
      let enough : 20 ≤ length pkt = ground arith in
      let (ty, te) = u16_at-ok StunError pkt 0 (omega arith) in
      let (end, ee, inside) = message_end-ok StunError pkt enough in
      let looped =
        walk-Ensures True True (mapped_body pkt) pkt end inside (mapped_body-Ensures pkt)
          (length pkt) 20 tt (omega arith) (omega arith) tt in
      ground (arith, cookie-Ensures pkt enough, te, ee, looped)
]

-- On every packet, and for every attribute type, `parse_stun_attr` returns a value or nothing, with
-- no panic and within the fuel of its loop.
pub parse_stun_attr-Returns : (pkt : Bytes) (target : ℕ) → Returns (parse_stun_attr pkt target)
unfolding parse_stun_attr
parse_stun_attr-Returns pkt target = elim (Bool-cases (ltb (length pkt) 20)) [
  | inl short ↦ rw (short, parse_stun_attr) tt
  | inr long ↦
      let enough : 20 ≤ length pkt = ground arith in
      let (end, ee, inside) = message_end-ok StunError pkt enough in
      let looped =
        walk-Ensures True True (attr_body pkt target) pkt end inside (attr_body-Ensures pkt target)
          (length pkt) 20 tt (omega arith) (omega arith) tt in
      ground (arith, ee, looped)
]
