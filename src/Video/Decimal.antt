-- ===== src/Video/Decimal.antt =====
-- `format!("{}", n)` and `str::parse::<u32>`, which the restart message goes through.
use any_kvm.Common.{
  ℕ, zero, suc, ◌+◌, ◌-◌, ◌*◌, ◌/◌, ◌%◌, ◌^◌, ◌≤◌, ◌<◌, ◌≡◌, ap, ◌∙◌, ◌||◌, Option, none, some, [],
  ◌∷◌, ◌++◌, arith, ltb, ◌==◌, if◌then◌else◌, length, length-append, All, All-append, Bool-cases,
  inl, inr,
}
use native.Mathlib.Nat.{pow-suc}
use any_kvm.Common.Bytes.{Bytes}

-- The digits of a number below 10 ^ (fuel + 1), the highest first.
unfoldable pub format_digits : ℕ → ℕ → Bytes
format_digits zero n = (b'0' + n % 10) ∷ []
format_digits (suc fuel) n =
    let front = format_digits fuel (n / 10) in
    if ltb n 10 then (b'0' + n) ∷ [] else front ++ ((b'0' + n % 10) ∷ [])

-- A `u32` has at most ten digits.
abbrev pub format_u32 : ℕ → Bytes
format_u32 n = format_digits 9 n

-- The digits one after another; `none` on another byte or past the range.
unfoldable pub parse_digits : Bytes → ℕ → Option ℕ
parse_digits [] n = some n
parse_digits (c ∷ s) n =
    let more = parse_digits s (n * 10 + (c - b'0')) in
    if ltb c b'0' || ltb b'9' c
    then none
    else if ltb (n * 10 + (c - b'0')) (2 ^ 32)
    then more
    else none

-- A sign `+` may stand in front; without a digit there is no number.
unfoldable pub parse_u32 : Bytes → Option ℕ
unfolding parse_digits
parse_u32 [] = none
parse_u32 (c ∷ []) = if c == b'+' then none else parse_digits (c ∷ []) 0
parse_u32 (c ∷ d ∷ s) = if c == b'+' then parse_digits (d ∷ s) 0 else parse_digits (c ∷ d ∷ s) 0

abbrev pub IsDigit : ℕ → Type 0
IsDigit c = (b'0' ≤ c) × (c ≤ b'9')

pub format_digits-IsDigit : (fuel n : ℕ) → All IsDigit (format_digits fuel n)
unfolding format_digits
format_digits-IsDigit zero n = omega arith
format_digits-IsDigit (suc fuel) n = elim (Bool-cases (ltb n 10)) [
  | inl small ↦ rw (small, format_digits) (ground arith)
  | inr large ↦
      rw (large, format_digits)
        (All-append IsDigit (format_digits fuel (n / 10)) ((b'0' + n % 10) ∷ [])
          (format_digits-IsDigit fuel (n / 10)) (omega arith))
]

-- Reading on behind a prefix of digits.
parse_digits-concat :
    (s : Bytes) (c m n : ℕ)
    → parse_digits s m ≡ some n
    → IsDigit c
    → n * 10 + (c - b'0') < 2 ^ 32
    → parse_digits (s ++ (c ∷ [])) m ≡ some (n * 10 + (c - b'0'))
unfolding parse_digits
parse_digits-concat [] c m n e d h = ground arith
parse_digits-concat (b ∷ s) c m n e d h =
    ground (arith, parse_digits-concat s c (m * 10 + (b - b'0')) n)

parse_digits-format_digits :
    (fuel n : ℕ) → n < 10 ^ suc fuel → n < 2 ^ 32 → parse_digits (format_digits fuel n) 0 ≡ some n
unfolding format_digits
parse_digits-format_digits zero n h k = unfold parse_digits in ground arith
parse_digits-format_digits (suc fuel) n h k = elim (Bool-cases (ltb n 10)) [
  | inl small ↦ rw (small, format_digits) (unfold parse_digits in ground arith)
  | inr large ↦
      rw (large, format_digits)
        (parse_digits-concat (format_digits fuel (n / 10)) (b'0' + n % 10) 0 (n / 10)
            (parse_digits-format_digits fuel (n / 10) (omega (arith, pow-suc 10 (suc fuel)))
              (omega arith))
            (omega arith) (omega arith)
          ∙ ap some (omega arith))
]

format_digits_pos : (fuel n : ℕ) → 0 < length (format_digits fuel n)
unfolding format_digits
format_digits_pos zero n = omega arith
format_digits_pos (suc fuel) n =
    ground (arith, length-append (format_digits fuel (n / 10)) ((b'0' + n % 10) ∷ []))

parse_u32-digits : (s : Bytes) → All IsDigit s → 0 < length s → parse_u32 s ≡ parse_digits s 0
unfolding parse_u32
parse_u32-digits [] h p = absurd (omega arith)
parse_u32-digits (c ∷ []) h p = ground arith
parse_u32-digits (c ∷ d ∷ s) h p = ground arith

-- A `u32` that is printed is read back.
pub parse_u32-format_u32 : (n : ℕ) → n < 2 ^ 32 → parse_u32 (format_u32 n) ≡ some n
parse_u32-format_u32 n h =
    parse_u32-digits (format_u32 n) (format_digits-IsDigit 9 n) (format_digits_pos 9 n)
    ∙ parse_digits-format_digits 9 n (omega arith) h
