-- ===== src/Common/Bits.antt =====
-- Exclusive or at every width, and masks of low bits, from the digit recursions.
use Prim.Native.Nat.{
  ℕ, zero, suc, ◌+◌, ◌*◌, ◌/◌, ◌%◌, ◌≤◌, ◌<◌, ◌^◌, min, digits, bitwise, bit_and, bit_xor,
  bit_and-bitwise, bit_xor-bitwise, differ,
}
use mathlib.Core.Path.{◌≡◌, refl, ap}
use mathlib.Core.WellFounded as Wf
use mathlib.Core.WellFounded.{Acc, WellFounded}
use native.Mathlib.Nat.{pow-suc}
use native.Mathlib.Omega.{arith}

Acc-below : (k n : ℕ) → n < k → Acc ◌<◌ n
Acc-below zero n h = elim h [ ]
Acc-below (suc k) n h = Acc.intro n (λ m hm. Acc-below k m (omega arith))

unfoldable pub lt_wf : WellFounded ◌<◌
unfolding Acc-below
lt_wf = record { apply = λ n. Acc-below (suc n) n (omega arith) }

module _ (stop : ℕ → ℕ) (op : ℕ → ℕ → ℕ) where
  -- Where the first number has run out, further fuel makes no difference.
  spare :
      (least fuel x y : ℕ)
      → x ≤ least
      → least ≤ fuel
      → digits stop op fuel x y ≡ digits stop op least x y
  spare zero zero x y h k = refl
  spare (suc least) zero x y h k = absurd (omega arith)
  spare zero (suc fuel) zero y h k = refl
  spare zero (suc fuel) (suc x) y h k = absurd (omega arith)
  spare (suc least) (suc fuel) zero y h k = refl
  spare (suc least) (suc fuel) (suc x) y h k =
      let half = suc x / 2 in
      ap (λ (n : ℕ). n * 2 + op (suc x % 2) (y % 2))
        (spare least fuel half (y / 2) (omega arith) (omega arith))

  -- The lowest digit of a number that is not zero.
  lowest :
      (x y : ℕ)
      → bitwise stop op (suc x) y ≡ bitwise stop op (suc x / 2) (y / 2) * 2 + op (suc x % 2) (y % 2)
  lowest x y =
      let half = suc x / 2 in
      ap (λ (n : ℕ). n * 2 + op (suc x % 2) (y % 2))
        (spare half x half (y / 2) (omega arith) (omega arith))

bit_and_step : (x y : ℕ) → bit_and x y ≡ bit_and (x / 2) (y / 2) * 2 + min (x % 2) (y % 2)
bit_and_step x y = rw (bit_and-bitwise x y, bit_and-bitwise (x / 2) (y / 2)) (and_digit x)
  where
    and_digit :
        (n : ℕ)
        → bitwise (λ b. zero) min n y
          ≡ bitwise (λ b. zero) min (n / 2) (y / 2) * 2 + min (n % 2) (y % 2)
    and_digit zero = omega arith
    and_digit (suc n) = lowest (λ b. zero) min n y

bit_xor_step : (x y : ℕ) → bit_xor x y ≡ bit_xor (x / 2) (y / 2) * 2 + differ (x % 2) (y % 2)
bit_xor_step x y = rw (bit_xor-bitwise x y, bit_xor-bitwise (x / 2) (y / 2)) (xor_digit x)
  where
    xor_digit :
        (n : ℕ)
        → bitwise (λ b. b) differ n y
          ≡ bitwise (λ b. b) differ (n / 2) (y / 2) * 2 + differ (n % 2) (y % 2)
    xor_digit zero = omega arith
    xor_digit (suc n) = lowest (λ b. b) differ n y

-- A mask of no bits.
no_bits : (left x : ℕ) → digits (λ b. zero) min left x 0 ≡ 0
no_bits zero x = refl
no_bits (suc left) zero = refl
no_bits (suc left) (suc x) = omega (arith, no_bits left (suc x / 2))

bit_and-zero : (x : ℕ) → bit_and x 0 ≡ 0
bit_and-zero x = rw (bit_and-bitwise x 0) (no_bits x x)

-- A mask of all bits below a power of two is a remainder.
bit_and_1 : (a : ℕ) → bit_and a 1 ≡ a % 2
bit_and_1 a = omega (arith, bit_and_step a 1, bit_and-zero (a / 2))

bit_and_3 : (a : ℕ) → bit_and a 3 ≡ a % 4
bit_and_3 a = omega (arith, bit_and_step a 3, bit_and_1 (a / 2))

bit_and_7 : (a : ℕ) → bit_and a 7 ≡ a % 8
bit_and_7 a = omega (arith, bit_and_step a 7, bit_and_3 (a / 2))

bit_and_15 : (a : ℕ) → bit_and a 15 ≡ a % 16
bit_and_15 a = omega (arith, bit_and_step a 15, bit_and_7 (a / 2))

pub bit_and_31 : (a : ℕ) → bit_and a 31 ≡ a % 32
bit_and_31 a = omega (arith, bit_and_step a 31, bit_and_15 (a / 2))

bit_and_63 : (a : ℕ) → bit_and a 63 ≡ a % 64
bit_and_63 a = omega (arith, bit_and_step a 63, bit_and_31 (a / 2))

bit_and_127 : (a : ℕ) → bit_and a 127 ≡ a % 128
bit_and_127 a = omega (arith, bit_and_step a 127, bit_and_63 (a / 2))

pub bit_and_255 : (a : ℕ) → bit_and a 255 ≡ a % 256
bit_and_255 a = omega (arith, bit_and_step a 255, bit_and_127 (a / 2))

differ_twice : (x y : ℕ) → x < 2 → y < 2 → differ (differ x y) y ≡ x
differ_twice zero zero p q = refl
differ_twice zero (suc zero) p q = refl
differ_twice (suc zero) zero p q = refl
differ_twice (suc zero) (suc zero) p q = refl
differ_twice (suc (suc x)) y p q = absurd (omega arith)
differ_twice x (suc (suc y)) p q = absurd (omega arith)

differ-lt : (x y : ℕ) → x < 2 → y < 2 → differ x y < 2
differ-lt zero y p q = q
differ-lt (suc x) zero p q = p
differ-lt (suc x) (suc y) p q = differ-lt x y (omega arith) (omega arith)

zero-bit_xor : (b : ℕ) → bit_xor 0 b ≡ b
zero-bit_xor b = simp bit_xor-bitwise

differ_self : (x : ℕ) → differ x x ≡ 0
differ_self zero = refl
differ_self (suc x) = differ_self x

bit_xor_self : (a : ℕ) → bit_xor a a ≡ 0
bit_xor_self a = Wf.induction lt_wf a step
  where
    step : (n : ℕ) → ((m : ℕ) → m < n → bit_xor m m ≡ 0) → bit_xor n n ≡ 0
    step zero ih = refl
    step (suc n) ih =
        omega (
          arith,
          bit_xor_step (suc n) (suc n),
          ih (suc n / 2) (omega arith),
          differ_self (suc n % 2),
        )

xor_twice_step :
    (n b : ℕ) → bit_xor (bit_xor (n / 2) (b / 2)) (b / 2) ≡ n / 2 → bit_xor (bit_xor n b) b ≡ n
xor_twice_step n b ih =
    let p = bit_xor_step n b in
    let s = differ-lt (n % 2) (b % 2) (omega arith) (omega arith) in
    let half : bit_xor n b / 2 ≡ bit_xor (n / 2) (b / 2) = omega arith in
    let low : bit_xor n b % 2 ≡ differ (n % 2) (b % 2) = omega arith in
    rw (bit_xor_step (bit_xor n b) b, half, low, ih)
      (rw (differ_twice (n % 2) (b % 2) (omega arith) (omega arith)) (omega arith))

-- Exclusive or with the same word twice gives the first word back.
pub bit_xor_twice : (a b : ℕ) → bit_xor (bit_xor a b) b ≡ a
bit_xor_twice a b = Wf.induction lt_wf {C = λ n. (b : ℕ) → bit_xor (bit_xor n b) b ≡ n} a step b
  where
    step :
        (n : ℕ)
        → ((m : ℕ) → m < n → (b : ℕ) → bit_xor (bit_xor m b) b ≡ m)
        → (b : ℕ) → bit_xor (bit_xor n b) b ≡ n
    step zero ih b = rw (zero-bit_xor b) (bit_xor_self b)
    step (suc n) ih b = xor_twice_step (suc n) b (ih (suc n / 2) (omega arith) (b / 2))

pub bit_xor-lt : (k a b : ℕ) → a < 2 ^ k → b < 2 ^ k → bit_xor a b < 2 ^ k
bit_xor-lt zero a b p q =
    let e : a ≡ 0 = omega arith in let f : b ≡ 0 = omega arith in rw (e, f) (omega arith)
bit_xor-lt (suc k) a b p q = omega (
  arith,
  bit_xor_step a b,
  pow-suc 2 k,
  differ-lt (a % 2) (b % 2) (omega arith) (omega arith),
  bit_xor-lt k (a / 2) (b / 2) (omega (arith, pow-suc 2 k)) (omega (arith, pow-suc 2 k)),
)
