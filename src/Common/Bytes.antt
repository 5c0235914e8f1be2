-- ===== src/Common/Bytes.antt =====
-- Byte strings, and the big-endian fields of 2 and 4 bytes.
use Prim.Native.Nat.{ℕ, ◌+◌, ◌*◌, ◌/◌, ◌%◌, ◌^◌, ◌<◌}
use mathlib.Core.Path.{◌≡◌}
use mathlib.Core.List.{List, [], ◌∷◌}
use native.Mathlib.Omega.{arith}

abbrev pub Bytes : Type 0
Bytes = List ℕ

-- `u16::to_be_bytes` and `u32::to_be_bytes`
abbrev pub u16_to_be_bytes : ℕ → Bytes
u16_to_be_bytes n = (n / 2 ^ 8 % 2 ^ 8) ∷ (n % 2 ^ 8) ∷ []

abbrev pub u32_to_be_bytes : ℕ → Bytes
u32_to_be_bytes n =
    (n / 2 ^ 24 % 2 ^ 8) ∷ (n / 2 ^ 16 % 2 ^ 8) ∷ (n / 2 ^ 8 % 2 ^ 8) ∷ (n % 2 ^ 8) ∷ []

-- `u16::from_be_bytes` and `u32::from_be_bytes`, for a slice of the right length.
abbrev pub from_be_bytes_onto : ℕ → Bytes → ℕ
from_be_bytes_onto n [] = n
from_be_bytes_onto n (b ∷ bs) = from_be_bytes_onto (n * 2 ^ 8 + b) bs

abbrev pub from_be_bytes : Bytes → ℕ
from_be_bytes = from_be_bytes_onto 0

pub u16_from-to : (n : ℕ) → n < 2 ^ 16 → from_be_bytes (u16_to_be_bytes n) ≡ n
u16_from-to n h = omega arith

pub u32_from-to : (n : ℕ) → n < 2 ^ 32 → from_be_bytes (u32_to_be_bytes n) ≡ n
u32_from-to n h = omega arith

pub u16_from_be_bytes-lt : (a b : ℕ) → a < 256 → b < 256 → from_be_bytes (a ∷ b ∷ []) < 2 ^ 16
u16_from_be_bytes-lt a b p q = omega arith
