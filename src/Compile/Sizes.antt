-- ===== src/Compile/Sizes.antt =====
-- The encodings that `emit_add_sub` of csrc/src/ir_compile.c chooses, by the size of the argument.
use bfcomp.Prelude.{
  ℕ, zero, suc, ◌^◌, ◌≡◌, ◌≢◌, ◌<◌, [], ◌∷◌, ◌++◌, Bool, true, arith, ltb, leb, if◌then◌else◌,
  Bool-cases, inl, inr,
}
use bfcomp.Prelude.Int.{ℤ, pos, negsuc, ◌-ℤ◌}
use bfcomp.Word.{to_u8, to_u32, neg}
use bfcomp.Emit.{
  operand_size, Mode, le_bytes, push_int32, too_big, emit_indirect, emit_direct, emit_other,
  emit_add_sub,
}

-- Where an argument falls.
pub data Size : ℤ → Type 0 where
  none_at_all : Size (pos zero)
  one_up : Size (pos 1)
  one_down : Size (negsuc zero)
  up : (n : ℕ) → 1 < n → n < 2 ^ 31 → Size (pos n)
  down : (n : ℕ) → 0 < n → n < 2 ^ 31 → Size (negsuc n)
  huge : (z : ℤ) → too_big z ≡ true → Size z

pub size : (z : ℤ) → Size z
unfolding too_big
size (pos zero) = none_at_all
size (pos (suc zero)) = one_up
size (pos (suc (suc n))) = elim (Bool-cases (ltb (suc (suc n)) (2 ^ 31))) [
  | inl e ↦ up (suc (suc n)) (omega arith) (ground arith)
  | inr e ↦ huge (pos (suc (suc n))) (ground arith)
]
size (negsuc zero) = one_down
size (negsuc (suc n)) = elim (Bool-cases (ltb (suc n) (2 ^ 31))) [
  | inl e ↦ down (suc n) (omega arith) (ground arith)
  | inr e ↦ huge (negsuc (suc n)) (ground arith)
]

pub neg-negsuc : (n : ℕ) → neg (negsuc n) ≡ pos (suc n)
unfolding neg ◌-ℤ◌
neg-negsuc n = ground arith

-- The immediate operand: a byte, or a word in `%eax` (or in the instruction).
abbrev pub fits_byte : ℕ → Bool
fits_byte n = leb n 127

module _ (m : Mode) (n : ℕ) where
  pub emit_add_sub-up : 1 < n → n < 2 ^ 31 → emit_add_sub m (pos n) [] ≡ emit_other m (pos n) []
  unfolding emit_add_sub too_big
  emit_add_sub-up h h' = ground arith

  pub emit_add_sub-down :
      0 < n → n < 2 ^ 31 → emit_add_sub m (negsuc n) [] ≡ emit_other m (negsuc n) []
  unfolding emit_add_sub too_big
  emit_add_sub-down h h' = ground arith

not_huge : too_big (pos zero) ≢ true
unfolding too_big
not_huge h = cc

pub emit_add_sub-huge :
    (m : Mode) (z : ℤ) → too_big z ≡ true → (emit_add_sub m z []).0 ≡ operand_size
unfolding emit_add_sub
emit_add_sub-huge m (pos zero) h = absurd (not_huge h)
emit_add_sub-huge m (pos (suc n)) h = ground (arith, h)
emit_add_sub-huge m (negsuc n) h = ground (arith, h)

pub emit_indirect-up :
    (n : ℕ)
    → 0 < n
    → emit_indirect (pos n) [] ≡ (
        if fits_byte n
        then 0x80 ∷ 0x07 ∷ to_u8 (pos n) ∷ []
        else 0xC7 ∷ 0xC0 ∷ (le_bytes (to_u32 (pos n)) ++ 0x00 ∷ 0x07 ∷ []))
unfolding emit_indirect push_int32
emit_indirect-up n h = ground arith

pub emit_indirect-down :
    (n : ℕ)
    → emit_indirect (negsuc n) [] ≡ (
        if fits_byte (suc n)
        then 0x80 ∷ 0x2F ∷ to_u8 (pos (suc n)) ∷ []
        else 0xC7 ∷ 0xC0 ∷ (le_bytes (to_u32 (pos (suc n))) ++ 0x28 ∷ 0x07 ∷ []))
unfolding emit_indirect push_int32
emit_indirect-down n = rw (neg-negsuc n) (ground arith)

pub emit_direct-up :
    (n : ℕ)
    → 0 < n
    → emit_direct (pos n) [] ≡ (
        if fits_byte n
        then 0x83 ∷ 0xC7 ∷ to_u8 (pos n) ∷ []
        else 0x81 ∷ 0xC7 ∷ le_bytes (to_u32 (pos n)))
unfolding emit_direct push_int32
emit_direct-up n h = ground arith

pub emit_direct-down :
    (n : ℕ)
    → emit_direct (negsuc n) [] ≡ (
        if fits_byte (suc n)
        then 0x83 ∷ 0xEF ∷ to_u8 (pos (suc n)) ∷ []
        else 0x81 ∷ 0xEF ∷ le_bytes (to_u32 (pos (suc n))))
unfolding emit_direct push_int32
emit_direct-down n = rw (neg-negsuc n) (ground arith)
