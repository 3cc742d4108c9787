-- ===== src/Prelude/Words.antt =====
-- Machine words: the width of a `u64`, its checked operations, and little-endian bytes.
use Prim.Native.Nat.{ℕ, zero, suc, ◌+◌, ◌-◌, ◌/◌, ◌%◌, ◌^◌, ◌<◌, ◌≤◌}
use mathlib.Core.List.{List, [], ◌∷◌}
use mathlib.Core.Option.{Option, none, some}
use mathlib.Core.Path.{◌≡◌}
use mathlib.Core.Logic.{inl, inr}
use native.Mathlib.Omega.{arith}
use redsuite.Prelude.Tests.{ltb, leb, if◌then◌else◌, ltb→lt, leb→le, Bool-cases}

-- `negsuc n` is -(n + 1).
pub data ℤ : Type 0 where
  pos : ℕ → ℤ
  negsuc : ℕ → ℤ

abbrev pub u64_mod : ℕ
u64_mod = 2 ^ 64

abbrev pub checked_add : ℕ → ℕ → Option ℕ
checked_add a b = if ltb (a + b) u64_mod then some (a + b) else none

abbrev pub checked_sub : ℕ → ℕ → Option ℕ
checked_sub a b = if leb b a then some (a - b) else none

-- `u64::checked_add_signed`
abbrev pub checked_add_signed : ℕ → ℤ → Option ℕ
checked_add_signed a (pos n) = checked_add a n
checked_add_signed a (negsuc n) = checked_sub a (suc n)

-- `n as i32`, of a `u32`, and `z as u32`.
abbrev pub as_i32 : ℕ → ℤ
as_i32 n = if ltb n (2 ^ 31) then pos n else negsuc (2 ^ 32 - 1 - n)

abbrev pub i32_bits : ℤ → ℕ
i32_bits (pos n) = n
i32_bits (negsuc n) = 2 ^ 32 - 1 - n

-- `+` on `i32`, which wraps where overflow is not checked.
abbrev pub add_i32 : ℤ → ℤ → ℤ
add_i32 a b = as_i32 ((i32_bits a + i32_bits b) % 2 ^ 32)

-- The `count` low bytes of a number, the lowest first.
abbrev pub le_bytes : ℕ → ℕ → List ℕ
le_bytes zero n = []
le_bytes (suc count) n = n % 256 ∷ le_bytes count (n / 256)

pub checked_add-some : (a b c : ℕ) → checked_add a b ≡ some c → (a + b < u64_mod) × (c ≡ a + b)
checked_add-some a b c e = elim (Bool-cases (ltb (a + b) u64_mod)) [
  | inl fits ↦ (ltb→lt (a + b) u64_mod fits, ground arith)
  | inr over ↦ absurd (ground arith)
]

pub checked_sub-some : (a b c : ℕ) → checked_sub a b ≡ some c → (b ≤ a) × (c ≡ a - b)
checked_sub-some a b c e = elim (Bool-cases (leb b a)) [
  | inl fits ↦ (leb→le b a fits, ground arith)
  | inr over ↦ absurd (ground arith)
]
