-- ===== src/Common/Bytes.antt =====
-- Byte strings, and big- and little-endian words as lists of bytes.
use Prim.Native.Nat.{ℕ, ◌+◌, ◌*◌, ◌/◌, ◌%◌, ◌^◌, ◌<◌, ◌≤◌}
use Prim.Native.Char.{code}
use Prim.Native.String.{String}
use mathlib.Core.Path.{◌≡◌, refl}
use mathlib.Core.List.{List, [], ◌∷◌}
use native.Mathlib.Omega.{arith}
use any_kvm.Common.Lists.{length}

abbrev pub Bytes : Type 0
Bytes = List ℕ

abbrev pub IsByte : ℕ → Type 0
IsByte b = b < 256

-- The code points of a text literal: its bytes, if it is ASCII.
abbrev pub codes : String → Bytes
codes String.[] = []
codes (String.◌∷◌ c s) = code c ∷ codes s

-- `u16::to_be_bytes`, `u32::to_be_bytes`, `u32::to_le_bytes`.
abbrev pub to_be_bytes_16 : ℕ → Bytes
to_be_bytes_16 n = n / 256 % 256 ∷ n % 256 ∷ []

abbrev pub to_be_bytes_32 : ℕ → Bytes
to_be_bytes_32 n = n / 2 ^ 24 % 256 ∷ n / 2 ^ 16 % 256 ∷ n / 2 ^ 8 % 256 ∷ n % 256 ∷ []

abbrev pub to_le_bytes_32 : ℕ → Bytes
to_le_bytes_32 n = n % 256 ∷ n / 2 ^ 8 % 256 ∷ n / 2 ^ 16 % 256 ∷ n / 2 ^ 24 % 256 ∷ []

-- `u16::from_be_bytes`, `u32::from_be_bytes`, `u32::from_le_bytes`, a byte an argument.
abbrev pub from_be_bytes_16 : ℕ → ℕ → ℕ
from_be_bytes_16 a b = a * 256 + b

abbrev pub from_be_bytes_32 : ℕ → ℕ → ℕ → ℕ → ℕ
from_be_bytes_32 a b c d = a * 2 ^ 24 + b * 2 ^ 16 + c * 2 ^ 8 + d

abbrev pub from_le_bytes_32 : ℕ → ℕ → ℕ → ℕ → ℕ
from_le_bytes_32 a b c d = d * 2 ^ 24 + c * 2 ^ 16 + b * 2 ^ 8 + a

pub from_be_bytes_16-to_be_bytes_16 :
    (n : ℕ) → n < 2 ^ 16 → from_be_bytes_16 (n / 256 % 256) (n % 256) ≡ n
from_be_bytes_16-to_be_bytes_16 n h = omega arith

pub from_be_bytes_32-to_be_bytes_32 :
    (n : ℕ)
    → n < 2 ^ 32
    → from_be_bytes_32 (n / 2 ^ 24 % 256) (n / 2 ^ 16 % 256) (n / 2 ^ 8 % 256) (n % 256) ≡ n
from_be_bytes_32-to_be_bytes_32 n h = omega arith

-- A string of eight bytes at least, taken apart.
pub eight_bytes :
    (f : Bytes)
    → 8 ≤ length f
    → (b0 b1 b2 b3 b4 b5 b6 b7 : ℕ) × (rest : Bytes) × (f
        ≡ b0 ∷ b1 ∷ b2 ∷ b3 ∷ b4 ∷ b5 ∷ b6 ∷ b7 ∷ rest)
eight_bytes (b0 ∷ b1 ∷ b2 ∷ b3 ∷ b4 ∷ b5 ∷ b6 ∷ b7 ∷ rest) h =
    (b0, b1, b2, b3, b4, b5, b6, b7, rest, refl)
eight_bytes _ h = absurd (omega arith)
