-- ===== src/Word.antt =====
-- The machine integers of csrc: `int64_t` (also `ssize_t`) and `uint64_t` (also `size_t`), and the
-- bytes of a cell. An `int64_t` is an integer in range; a `uint64_t` and a byte are numbers.
use bfcomp.Prelude.{ℕ, suc, ◌+◌, ◌-◌, ◌%◌, ◌^◌, ◌≤◌, ◌<◌, ◌≡◌, arith, ltb, if◌then◌else◌}
use bfcomp.Prelude.Int.{ℤ, pos, negsuc, pos_part, neg_part, ◌+ℤ◌, ◌-ℤ◌}

-- Conversion to `uint64_t`, and of a bit pattern to `int64_t`.
unfoldable pub to_u64 : ℤ → ℕ
to_u64 (pos n) = n % 2 ^ 64
to_u64 (negsuc n) = 2 ^ 64 - 1 - n % 2 ^ 64

unfoldable pub signed64 : ℕ → ℤ
signed64 w = if ltb w (2 ^ 63) then pos w else negsuc (2 ^ 64 - 1 - w)

-- The value that is left of an integer when it is stored in an `int64_t`.
unfoldable pub to_i64 : ℤ → ℤ
unfolding to_u64 signed64
to_i64 z = signed64 (to_u64 z)

-- Conversion to `int32_t`, as the bit pattern that is stored.
unfoldable pub to_u32 : ℤ → ℕ
to_u32 (pos n) = n % 2 ^ 32
to_u32 (negsuc n) = 2 ^ 32 - 1 - n % 2 ^ 32

unfoldable pub to_i32 : ℤ → ℤ
unfolding to_u32
to_i32 z = let w = to_u32 z in if ltb w (2 ^ 31) then pos w else negsuc (2 ^ 32 - 1 - w)

-- Conversion to `uint8_t`.
unfoldable pub to_u8 : ℤ → ℕ
to_u8 (pos n) = n % 256
to_u8 (negsuc n) = 255 - n % 256

unfoldable pub neg : ℤ → ℤ
unfolding ◌-ℤ◌
neg z = pos 0 -ℤ z

pub neg-pos_suc : (n : ℕ) → neg (pos (suc n)) ≡ negsuc n
unfolding neg
neg-pos_suc n = ground arith

-- `++i` and `i += delta` on a `size_t`.
unfoldable pub next : ℕ → ℕ
next ip = (ip + 1) % 2 ^ 64

unfoldable pub jump_by : ℕ → ℤ → ℕ
jump_by ip delta = to_u64 (pos ip +ℤ delta)

abbrev pub IsI64 : ℤ → Type 0
IsI64 z = (pos_part z < 2 ^ 63) × (neg_part z ≤ 2 ^ 63)

-- Storing loses nothing where the value is in range.
pub to_i64-eq_of_IsI64 : (z : ℤ) → IsI64 z → to_i64 z ≡ z
unfolding to_i64
to_i64-eq_of_IsI64 (pos n) h = ground arith
to_i64-eq_of_IsI64 (negsuc n) h = ground arith

-- What is stored is always in range.
pub to_i64-IsI64 : (z : ℤ) → IsI64 (to_i64 z)
unfolding to_i64
to_i64-IsI64 (pos n) = ground arith
to_i64-IsI64 (negsuc n) = ground arith

pub to_u8-lt : (z : ℤ) → to_u8 z < 256
unfolding to_u8
to_u8-lt (pos n) = omega arith
to_u8-lt (negsuc n) = omega arith

pub to_u64-lt : (z : ℤ) → to_u64 z < 2 ^ 64
unfolding to_u64
to_u64-lt (pos n) = omega arith
to_u64-lt (negsuc n) = omega arith
