-- ===== src/Crypto/Md5.antt =====
-- `md5_hash` of agent/src/webrtc.rs.
use any_kvm.Common.{
  ℕ, ◌+◌, ◌*◌, ◌/◌, ◌%◌, ◌^◌, List, [], ◌∷◌, ◌++◌, bit_and, bit_or, bit_xor, ltb, if◌then◌else◌,
  length,
}
use any_kvm.Common.Bytes.{Bytes, from_le_bytes_32, to_le_bytes_32}
use any_kvm.Crypto.{not_32, wrapping_add, rotate_left, word, pad, chunks}

pub record Md5State : Type 0 where
  pub a : ℕ
  pub b : ℕ
  pub c : ℕ
  pub d : ℕ

abbrev s_table : List ℕ
s_table = 7 ∷ 12 ∷ 17 ∷ 22 ∷ 5 ∷ 9 ∷ 14 ∷ 20 ∷ 4 ∷ 11 ∷ 16 ∷ 23 ∷ 6 ∷ 10 ∷ 15 ∷ 21 ∷ []

abbrev k_table : List ℕ
k_table =
    0xd76aa478 ∷ 0xe8c7b756 ∷ 0x242070db ∷ 0xc1bdceee ∷ 0xf57c0faf ∷ 0x4787c62a ∷ 0xa8304613
    ∷ 0xfd469501 ∷ 0x698098d8 ∷ 0x8b44f7af ∷ 0xffff5bb1 ∷ 0x895cd7be ∷ 0x6b901122 ∷ 0xfd987193
    ∷ 0xa679438e ∷ 0x49b40821 ∷ 0xf61e2562 ∷ 0xc040b340 ∷ 0x265e5a51 ∷ 0xe9b6c7aa ∷ 0xd62f105d
    ∷ 0x02441453 ∷ 0xd8a1e681 ∷ 0xe7d3fbc8 ∷ 0x21e1cde6 ∷ 0xc33707d6 ∷ 0xf4d50d87 ∷ 0x455a14ed
    ∷ 0xa9e3e905 ∷ 0xfcefa3f8 ∷ 0x676f02d9 ∷ 0x8d2a4c8a ∷ 0xfffa3942 ∷ 0x8771f681 ∷ 0x6d9d6122
    ∷ 0xfde5380c ∷ 0xa4beea44 ∷ 0x4bdecfa9 ∷ 0xf6bb4b60 ∷ 0xbebfbc70 ∷ 0x289b7ec6 ∷ 0xeaa127fa
    ∷ 0xd4ef3085 ∷ 0x04881d05 ∷ 0xd9d4d039 ∷ 0xe6db99e5 ∷ 0x1fa27cf8 ∷ 0xc4ac5665 ∷ 0xf4292244
    ∷ 0x432aff97 ∷ 0xab9423a7 ∷ 0xfc93a039 ∷ 0x655b59c3 ∷ 0x8f0ccc92 ∷ 0xffeff47d ∷ 0x85845dd1
    ∷ 0x6fa87e4f ∷ 0xfe2ce6e0 ∷ 0xa3014314 ∷ 0x4e0811a1 ∷ 0xf7537e82 ∷ 0xbd3af235 ∷ 0x2ad7d2bb
    ∷ 0xeb86d391 ∷ []

-- `(orig_len as u64 * 8).to_le_bytes()`
abbrev pub to_le_bytes_64 : ℕ → Bytes
to_le_bytes_64 n = to_le_bytes_32 (n % 2 ^ 32) ++ to_le_bytes_32 (n / 2 ^ 32 % 2 ^ 32)

-- The words of a chunk, each of four bytes, the lowest first.
unfoldable pub words_le : Bytes → List ℕ
words_le (b0 ∷ b1 ∷ b2 ∷ b3 ∷ rest) = from_le_bytes_32 b0 b1 b2 b3 ∷ words_le rest
words_le _ = []

-- The `match i` of a round: the mixed word, and which word of the message goes in.
unfoldable pub mix : ℕ → Md5State → ℕ × ℕ
mix i s =
    if ltb i 16
    then (bit_or (bit_and s.b s.c) (bit_and (not_32 s.b) s.d), i)
    else if ltb i 32
    then (bit_or (bit_and s.d s.b) (bit_and (not_32 s.d) s.c), (5 * i + 1) % 16)
    else if ltb i 48
    then (bit_xor (bit_xor s.b s.c) s.d, (3 * i + 5) % 16)
    else (bit_xor s.c (bit_or s.b (not_32 s.d)), 7 * i % 16)

-- `S[i / 16][i % 4]`
abbrev shift_of : ℕ → ℕ
shift_of i = word s_table (i / 16 * 4 + i % 4)

unfoldable pub round : List ℕ → ℕ → ℕ → Md5State → Md5State
unfolding mix
round m k i s =
    let (f, g) = mix i s in
    record {
      a = s.d;
      b = wrapping_add s.b (
          rotate_left (wrapping_add (wrapping_add (wrapping_add s.a f) k) (word m g)) (shift_of i));
      c = s.b;
      d = s.c;
    }

-- The rounds from `i` on, one for each constant left.
unfoldable pub rounds : List ℕ → List ℕ → ℕ → Md5State → Md5State
unfolding round
rounds m [] i s = s
rounds m (k ∷ ks) i s = rounds m ks (i + 1) (round m k i s)

unfoldable pub compress : Md5State → Bytes → Md5State
unfolding rounds words_le
compress s chunk =
    let t = rounds (words_le chunk) k_table 0 s in
    record {
      a = wrapping_add s.a t.a;
      b = wrapping_add s.b t.b;
      c = wrapping_add s.c t.c;
      d = wrapping_add s.d t.d;
    }

unfoldable pub compress_all : Md5State → List Bytes → Md5State
unfolding compress
compress_all s [] = s
compress_all s (chunk ∷ rest) = compress_all (compress s chunk) rest

abbrev pub md5_start : Md5State
md5_start = record { a = 0x67452301; b = 0xefcdab89; c = 0x98badcfe; d = 0x10325476 }

unfoldable pub md5_hash : Bytes → Bytes
unfolding compress_all pad chunks
md5_hash message =
    let padded = pad to_le_bytes_64 message in
    let s = compress_all md5_start (chunks (length padded) padded) in
    to_le_bytes_32 s.a ++ (to_le_bytes_32 s.b ++ (to_le_bytes_32 s.c ++ to_le_bytes_32 s.d))
