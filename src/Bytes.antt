-- ===== src/Bytes.antt =====
-- Byte strings and big-endian fields, as `to_be_bytes`, `from_be_bytes` and `starts_with` treat
-- them. A byte is a number below 256; a signed field is kept as its two's-complement bit pattern.
use screx_v.Prelude.{
  ℕ, ◌+◌, ◌*◌, ◌/◌, ◌%◌, ◌^◌, ◌<◌, ◌≡◌, Bool, true, false, List, [], ◌∷◌, arith, ◌==◌,
  if◌then◌else◌,
}

abbrev pub IsByte : ℕ → Type 0
IsByte b = b < 256

abbrev pub IsU16 : ℕ → Type 0
IsU16 n = n < 2 ^ 16

abbrev pub IsU32 : ℕ → Type 0
IsU32 n = n < 2 ^ 32

-- `n as u8` and `n as u16`.
abbrev pub as_u8 : ℕ → ℕ
as_u8 n = n % 2 ^ 8

abbrev pub as_u16 : ℕ → ℕ
as_u16 n = n % 2 ^ 16

-- `to_be_bytes` of a u16 and of a u32.
abbrev pub be16 : ℕ → List ℕ
be16 n = n / 2 ^ 8 % 2 ^ 8 ∷ n % 2 ^ 8 ∷ []

abbrev pub be32 : ℕ → List ℕ
be32 n = n / 2 ^ 24 % 2 ^ 8 ∷ n / 2 ^ 16 % 2 ^ 8 ∷ n / 2 ^ 8 % 2 ^ 8 ∷ n % 2 ^ 8 ∷ []

-- `u16::from_be_bytes` and `u32::from_be_bytes`.
unfoldable pub from_be16 : ℕ → ℕ → ℕ
from_be16 a b = a * 2 ^ 8 + b

unfoldable pub from_be32 : ℕ → ℕ → ℕ → ℕ → ℕ
from_be32 a b c d = a * 2 ^ 24 + b * 2 ^ 16 + c * 2 ^ 8 + d

pub from_be16-be16 : (n : ℕ) → from_be16 (n / 2 ^ 8 % 2 ^ 8) (n % 2 ^ 8) ≡ as_u16 n
unfolding from_be16
from_be16-be16 n = omega arith

pub from_be32-be32 :
    (n : ℕ)
    → from_be32 (n / 2 ^ 24 % 2 ^ 8) (n / 2 ^ 16 % 2 ^ 8) (n / 2 ^ 8 % 2 ^ 8) (n % 2 ^ 8)
      ≡ n % 2 ^ 32
unfolding from_be32
from_be32-be32 n = omega arith

pub from_be16-lt : (a b : ℕ) → IsByte a → IsByte b → IsU16 (from_be16 a b)
unfolding from_be16
from_be16-lt a b ha hb = omega arith

-- `data.starts_with(prefix)`.
abbrev pub starts_with : List ℕ → List ℕ → Bool
starts_with data' [] = true
starts_with [] (p ∷ ps) = false
starts_with (x ∷ xs) (p ∷ ps) = if x == p then starts_with xs ps else false
