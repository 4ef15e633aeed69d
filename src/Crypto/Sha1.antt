-- ===== src/Crypto/Sha1.antt =====
-- `sha1_hash` of agent/src/webrtc.rs.
use any_kvm.Common.{
  ℕ, zero, suc, ◌+◌, ◌-◌, ◌/◌, ◌%◌, ◌^◌, List, [], ◌∷◌, ◌++◌, bit_and, bit_or, bit_xor, ltb,
  if◌then◌else◌, length,
}
use any_kvm.Common.Bytes.{Bytes, from_be_bytes_32, to_be_bytes_32}
use any_kvm.Crypto.{not_32, wrapping_add, rotate_left, word, pad, chunks}

pub record Sha1State : Type 0 where
  pub a : ℕ
  pub b : ℕ
  pub c : ℕ
  pub d : ℕ
  pub e : ℕ

-- `(orig_len as u64 * 8).to_be_bytes()`
abbrev pub to_be_bytes_64 : ℕ → Bytes
to_be_bytes_64 n = to_be_bytes_32 (n / 2 ^ 32 % 2 ^ 32) ++ to_be_bytes_32 (n % 2 ^ 32)

-- The words of a chunk, each of four bytes, the highest first.
unfoldable pub words_be : Bytes → List ℕ
words_be (b3 ∷ b2 ∷ b1 ∷ b0 ∷ rest) = from_be_bytes_32 b3 b2 b1 b0 ∷ words_be rest
words_be _ = []

-- `for i in 16..80`: `left` words are still to come.
unfoldable pub schedule : ℕ → ℕ → List ℕ → List ℕ
schedule zero i w = w
schedule (suc left) i w = schedule left (i + 1) (
    w
    ++ (rotate_left
          (bit_xor (bit_xor (bit_xor (word w (i - 3)) (word w (i - 8))) (word w (i - 14)))
            (word w (i - 16)))
          1
        ∷ []))

-- The `match i` of a round: the mixed word and the constant.
unfoldable pub mix : ℕ → Sha1State → ℕ × ℕ
mix i s =
    if ltb i 20
    then (bit_or (bit_and s.b s.c) (bit_and (not_32 s.b) s.d), 0x5A827999)
    else if ltb i 40
    then (bit_xor (bit_xor s.b s.c) s.d, 0x6ED9EBA1)
    else if ltb i 60
    then (bit_or (bit_or (bit_and s.b s.c) (bit_and s.b s.d)) (bit_and s.c s.d), 0x8F1BBCDC)
    else (bit_xor (bit_xor s.b s.c) s.d, 0xCA62C1D6)

unfoldable pub round : ℕ → ℕ → Sha1State → Sha1State
unfolding mix
round w i s =
    let (f, k) = mix i s in
    record {
      a = wrapping_add (wrapping_add (wrapping_add (wrapping_add (rotate_left s.a 5) f) s.e) k) w;
      b = s.a;
      c = rotate_left s.b 30;
      d = s.c;
      e = s.d;
    }

-- The rounds from `i` on, one for each word left.
unfoldable pub rounds : List ℕ → ℕ → Sha1State → Sha1State
unfolding round
rounds [] i s = s
rounds (w ∷ ws) i s = rounds ws (i + 1) (round w i s)

unfoldable pub compress : Sha1State → Bytes → Sha1State
unfolding rounds words_be schedule
compress s chunk =
    let t = rounds (schedule 64 16 (words_be chunk)) 0 s in
    record {
      a = wrapping_add s.a t.a;
      b = wrapping_add s.b t.b;
      c = wrapping_add s.c t.c;
      d = wrapping_add s.d t.d;
      e = wrapping_add s.e t.e;
    }

unfoldable pub compress_all : Sha1State → List Bytes → Sha1State
unfolding compress
compress_all s [] = s
compress_all s (chunk ∷ rest) = compress_all (compress s chunk) rest

abbrev pub sha1_start : Sha1State
sha1_start = record {
  a = 0x67452301;
  b = 0xEFCDAB89;
  c = 0x98BADCFE;
  d = 0x10325476;
  e = 0xC3D2E1F0;
}

unfoldable pub sha1_hash : Bytes → Bytes
unfolding compress_all pad chunks
sha1_hash message =
    let padded = pad to_be_bytes_64 message in
    let s = compress_all sha1_start (chunks (length padded) padded) in
    to_be_bytes_32 s.a
    ++ (to_be_bytes_32 s.b ++ (to_be_bytes_32 s.c ++ (to_be_bytes_32 s.d ++ to_be_bytes_32 s.e)))
