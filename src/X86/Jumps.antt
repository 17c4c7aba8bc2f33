-- ===== src/X86/Jumps.antt =====
-- The bytes of the comparison and of the jumps that csrc/src/ir_compile.c emits for a loop, and what they
-- decode to.
use bfcomp.Prelude.{
  ℕ, ◌+◌, ◌/◌, ◌%◌, ◌^◌, ◌≡◌, ◌<◌, ◌≤◌, refl, ap, ◌∙◌, List, [], ◌∷◌, ◌++◌, some, true, false,
  arith, length, length-append, leb, if◌then◌else◌, Bool-cases, inl, inr,
}
use mathlib.Core.List.{append_assoc}
use bfcomp.Prelude.Int.{ℤ, pos, negsuc, pos_part, neg_part, ◌+ℤ◌, ◌-ℤ◌, ltb_ℤ}
use bfcomp.Word.{to_u8, to_u32, to_i32, neg}
use bfcomp.Emit.{
  le_bytes, push_int32, emit_cmp, emit_code_loop_start, emit_jump_back, emit_code_loop_end,
  int8_min,
}
use bfcomp.X86.Decode.{
  jump_if, alu_byte, cmp, word_of, signed8, signed32, decode, decode_80, decode_short, decode_0f,
}
use bfcomp.X86.Steps.{word-le_bytes}

abbrev pub cmp_bytes : List ℕ
cmp_bytes = 0x80 ∷ 0x3F ∷ 0 ∷ []

pub cmp_decoded : (post : List ℕ) → decode (cmp_bytes ++ post) ≡ some (alu_byte cmp 7 0, 3)
unfolding decode decode_80
cmp_decoded post = refl

-- The jump over a loop whose code has `n` bytes, and the one back over `l` bytes and the comparison.
abbrev pub je : ℕ → List ℕ
je n =
    if leb (n + 2) 127 then 0x74 ∷ to_u8 (pos n) ∷ [] else 0x0F ∷ 0x84 ∷ le_bytes (to_u32 (pos n))

abbrev pub jne : ℕ → List ℕ
jne l =
    if leb (l + 5) 128
    then 0x75 ∷ to_u8 (negsuc (l + 4)) ∷ []
    else 0x0F ∷ 0x85 ∷ le_bytes (to_u32 (negsuc (l + 8)))

pub loop_start-bytes : (n : ℕ) → emit_code_loop_start n [] ≡ cmp_bytes ++ je n
unfolding emit_code_loop_start emit_cmp push_int32
loop_start-bytes n = elim (Bool-cases (leb (n + 2) 127)) [ inl e ↦ rw e | inr e ↦ rw e ]

offset-back : (l : ℕ) → l + 5 < 2 ^ 31 → to_i32 (neg (pos (l + 3 + 2))) ≡ negsuc (l + 4)
unfolding to_i32 neg ◌-ℤ◌ to_u32
offset-back l h = ground arith

short_back : (l : ℕ) → ltb_ℤ (negsuc (l + 4)) int8_min ≡ (if leb (l + 5) 128 then false else true)
short_back l = ground arith

farther : (l : ℕ) → negsuc (l + 4) -ℤ pos 4 ≡ negsuc (l + 8)
unfolding ◌-ℤ◌
farther l = ground arith

jump_back-bytes : (l : ℕ) (c : List ℕ) → emit_jump_back (negsuc (l + 4)) c ≡ c ++ jne l
unfolding emit_jump_back push_int32
jump_back-bytes l c = elim (Bool-cases (leb (l + 5) 128)) [
  | inl e ↦ rw (short_back l, e)
  | inr e ↦ rw (short_back l, e, farther l) (append_assoc c (0x0F ∷ 0x85 ∷ []) _)
]

pub loop_end-bytes :
    (inside : List ℕ)
    → length inside + 5 < 2 ^ 31
    → emit_code_loop_end inside ≡ inside ++ (cmp_bytes ++ jne (length inside))
unfolding emit_code_loop_end emit_cmp
loop_end-bytes inside h =
    ap (λ o. emit_jump_back o (inside ++ cmp_bytes))
      (ap (λ n. to_i32 (neg (pos (n + 2)))) (length-append inside cmp_bytes)
        ∙ offset-back (length inside) h)
    ∙ jump_back-bytes (length inside) (inside ++ cmp_bytes)
    ∙ append_assoc inside cmp_bytes (jne (length inside))

-- A displacement is read back from its bytes.
abbrev read_word : ℕ → ℤ
read_word w =
    signed32 (word_of (w % 256) (w / 256 % 256) (w / 256 / 256 % 256) (w / 256 / 256 / 256 % 256))

to_u32-lt : (z : ℤ) → to_u32 z < 2 ^ 32
unfolding to_u32
to_u32-lt (pos n) = omega arith
to_u32-lt (negsuc n) = omega arith

signed32-to_u32 : (z : ℤ) → pos_part z < 2 ^ 31 → neg_part z ≤ 2 ^ 31 → signed32 (to_u32 z) ≡ z
unfolding to_u32
signed32-to_u32 (pos n) h h' = ground arith
signed32-to_u32 (negsuc n) h h' = ground arith

word_read : (z : ℤ) → pos_part z < 2 ^ 31 → neg_part z ≤ 2 ^ 31 → read_word (to_u32 z) ≡ z
word_read z h h' = ap signed32 (word-le_bytes (to_u32 z) (to_u32-lt z)) ∙ signed32-to_u32 z h h'

byte_read_up : (n : ℕ) → leb (n + 2) 127 ≡ true → signed8 (to_u8 (pos n)) ≡ pos n
unfolding to_u8
byte_read_up n h = ground arith

byte_read_down :
    (n : ℕ) → leb (n + 5) 128 ≡ true → signed8 (to_u8 (negsuc (n + 4))) ≡ negsuc (n + 4)
unfolding to_u8
byte_read_down n h = ground arith

pub je-decoded :
    (n : ℕ)
    → n < 2 ^ 31
    → (post : List ℕ) → decode (je n ++ post) ≡ some (jump_if true (pos n), length (je n))
unfolding decode decode_short decode_0f
je-decoded n h post = elim (Bool-cases (leb (n + 2) 127)) [
  | inl e ↦ rw e (ap (λ d. some (jump_if true d, 2)) (byte_read_up n e))
  | inr e ↦ rw e (ap (λ d. some (jump_if true d, 6)) (word_read (pos n) h (omega arith)))
]

-- The displacement of the jump back, which is relative to its end.
abbrev pub back : ℕ → ℤ
back l = if leb (l + 5) 128 then negsuc (l + 4) else negsuc (l + 8)

pub jne-decoded :
    (l : ℕ)
    → l + 9 < 2 ^ 31
    → (post : List ℕ) → decode (jne l ++ post) ≡ some (jump_if false (back l), length (jne l))
unfolding decode decode_short decode_0f
jne-decoded l h post = elim (Bool-cases (leb (l + 5) 128)) [
  | inl e ↦ rw e (ap (λ d. some (jump_if false d, 2)) (byte_read_down l e))
  | inr e ↦
      rw e (
        ap (λ d. some (jump_if false d, 6))
          (word_read (negsuc (l + 8)) (omega arith) (omega arith)))
]

-- Where the jumps lead to.
pub over : (i n : ℕ) → i + n < 2 ^ 32 → to_u32 (pos i +ℤ pos n) ≡ i + n
unfolding to_u32 ◌+ℤ◌
over i n h = ground arith

pub back_to : (i l : ℕ) → i < 2 ^ 32 → to_u32 (pos (i + l + 3 + length (jne l)) +ℤ back l) ≡ i
unfolding to_u32 ◌+ℤ◌
back_to i l h = elim (Bool-cases (leb (l + 5) 128)) [
  | inl e ↦ rw e (ground arith)
  | inr e ↦ rw e (ground arith)
]
