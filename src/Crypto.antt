-- ===== src/Crypto.antt =====
-- agent/src/webrtc.rs, lines 661 to 790: MD5, SHA-1 and HMAC-SHA1, written out in the program. A
-- `u32` is a number below 2 ^ 32, and every operation that may leave that range wraps.
pub mod Md5
pub mod Sha1
pub mod Hmac
pub mod Padding
mod Vectors
use any_kvm.Common.{
  ℕ, zero, suc, ◌+◌, ◌-◌, ◌*◌, ◌/◌, ◌%◌, ◌^◌, Option, none, some, List, [], ◌∷◌, ◌++◌, ◌==◌,
  if◌then◌else◌, length, get_elem?, take, drop,
}
use any_kvm.Common.Bytes.{Bytes}

-- `!x`, `x.wrapping_add(y)` and `x.rotate_left(n)`
abbrev pub not_32 : ℕ → ℕ
not_32 x = 2 ^ 32 - 1 - x

abbrev pub wrapping_add : ℕ → ℕ → ℕ
wrapping_add x y = (x + y) % 2 ^ 32

abbrev pub rotate_left : ℕ → ℕ → ℕ
rotate_left x n = (x * 2 ^ n + x / 2 ^ (32 - n)) % 2 ^ 32

-- `xs[i]`, at positions that are below the length.
abbrev pub word : List ℕ → ℕ → ℕ
word xs i = elim (get_elem? xs i) [ some w ↦ w | none ↦ 0 ]

-- `while padded.len() % 64 != 56 { padded.push(0); }` with fuel: at most 63 bytes are pushed.
unfoldable pub pad_zeros : ℕ → Bytes → Bytes
pad_zeros zero padded = padded
pad_zeros (suc fuel) padded =
    let more = pad_zeros fuel (padded ++ (0 ∷ [])) in
    if length padded % 64 == 56 then padded else more

-- The message, the byte 0x80, zeros, and the length in bits as the eight bytes that `to_bytes` makes.
unfoldable pub pad : (ℕ → Bytes) → Bytes → Bytes
unfolding pad_zeros
pad to_bytes message =
    pad_zeros 64 (message ++ (0x80 ∷ [])) ++ to_bytes (length message * 8 % 2 ^ 64)

-- `padded.chunks(64)`, with the length for fuel.
unfoldable pub chunks : ℕ → Bytes → List Bytes
chunks zero bytes = []
chunks (suc fuel) [] = []
chunks (suc fuel) (b ∷ bytes) = take 64 (b ∷ bytes) ∷ chunks fuel (drop 64 (b ∷ bytes))
