-- ===== src/Crypto/Padding.antt =====
-- The padding and the chunks of `md5_hash` and `sha1_hash` in agent/src/webrtc.rs.
use any_kvm.Common.{
  ℕ, zero, suc, ◌+◌, ◌-◌, ◌*◌, ◌/◌, ◌%◌, ◌^◌, ◌≤◌, ◌≡◌, refl, sym, ap, ◌∙◌, List, [], ◌∷◌, ◌++◌,
  append-nil, append_assoc, arith, ◌==◌, length, drop, replicate, All, length-append,
  length-replicate, length-take, length-drop, take-append-drop, Bool-cases, inl, inr,
}
use any_kvm.Common.Bytes.{Bytes}
use any_kvm.Crypto.{pad_zeros, pad, chunks}

-- How many zeros the loop still pushes.
abbrev need : ℕ → ℕ
need n = (120 - n % 64) % 64

pad_zeros-need :
    (fuel : ℕ) (p : Bytes)
    → need (length p) ≤ fuel
    → pad_zeros fuel p ≡ p ++ replicate (need (length p)) 0
unfolding pad_zeros
pad_zeros-need zero p h = let e : need (length p) ≡ 0 = omega arith in rw (e, append-nil)
pad_zeros-need (suc fuel) p h = elim (Bool-cases (length p % 64 == 56)) [
  | inl full ↦
      let e : need (length p) ≡ 0 = ground arith in rw (full, pad_zeros) (rw (e, append-nil))
  | inr more ↦
      let len : length (p ++ (0 ∷ [])) ≡ length p + 1 = length-append p (0 ∷ []) in
      let fewer : need (length p) ≡ suc (need (length (p ++ (0 ∷ [])))) = ground (arith, len) in
      rw (more, pad_zeros)
        (pad_zeros-need fuel (p ++ (0 ∷ [])) (omega arith)
          ∙ append_assoc p (0 ∷ []) _
          ∙ ap (λ (k : ℕ). p ++ replicate k 0) (sym fewer))
]

abbrev pub concat : List Bytes → Bytes
concat [] = []
concat (c ∷ cs) = c ++ concat cs

chunks_whole :
    (fuel q : ℕ) (p : Bytes)
    → length p ≡ 64 * q
    → length p ≤ fuel
    → All (λ c. length c ≡ 64) (chunks fuel p) × (concat (chunks fuel p) ≡ p)
unfolding chunks
chunks_whole zero q [] e h = (tt, refl)
chunks_whole zero q (b ∷ p) e h = absurd (omega arith)
chunks_whole (suc fuel) q [] e h = (tt, refl)
chunks_whole (suc fuel) zero (b ∷ p) e h = absurd (omega arith)
chunks_whole (suc fuel) (suc q) (b ∷ p) e h =
    let (whole, back) =
      chunks_whole fuel q (drop 64 (b ∷ p)) (omega (arith, length-drop 64 (b ∷ p)))
        (omega (arith, length-drop 64 (b ∷ p))) in
    ((omega (arith, length-take 64 (b ∷ p)), whole), rw back (take-append-drop 64 (b ∷ p)))

-- The padded message is the message, the byte 0x80, at most 63 zeros and the eight bytes of its
-- length in bits. Its chunks have 64 bytes each and are, one after another, the padded message: so
-- no word of a chunk is read past the chunk's end, and no byte of the message is left out.
pub pad_whole :
    (to_bytes : ℕ → Bytes) (message : Bytes)
    → ((n : ℕ) → length (to_bytes n) ≡ 8)
    → let padded = pad to_bytes message in
      (zeros : ℕ) × (zeros ≤ 63)
      × (padded ≡ message ++ (0x80 ∷ (replicate zeros 0 ++ to_bytes (length message * 8 % 2 ^ 64))))
      × All (λ c. length c ≡ 64) (chunks (length padded) padded)
      × (concat (chunks (length padded) padded) ≡ padded)
unfolding pad
pad_whole to_bytes message eight =
    let bits = to_bytes (length message * 8 % 2 ^ 64) in
    let front = message ++ (0x80 ∷ []) in
    let zeros = need (length front) in
    let shape : pad to_bytes message ≡ front ++ (replicate zeros 0 ++ bits) =
      ap (λ (t : Bytes). t ++ bits) (pad_zeros-need 64 front (omega arith))
      ∙ append_assoc front (replicate zeros 0) bits in
    let size : length (pad to_bytes message) ≡ length front + (zeros + 8) = omega (
      arith,
      ap length shape,
      length-append front (replicate zeros 0 ++ bits),
      length-append (replicate zeros 0) bits,
      length-replicate {A = ℕ} zeros 0,
      eight (length message * 8 % 2 ^ 64),
    ) in
    let (whole, back) =
      chunks_whole (length (pad to_bytes message)) ((length front + (zeros + 8)) / 64)
        (pad to_bytes message) (omega arith) (omega arith) in
    (
      zeros,
      omega arith,
      shape ∙ append_assoc message (0x80 ∷ []) (replicate zeros 0 ++ bits),
      whole,
      back,
    )
