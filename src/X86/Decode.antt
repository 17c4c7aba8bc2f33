-- ===== src/X86/Decode.antt =====
-- The part of the IA-32 instruction set that the code of csrc/src/ir_compile.c is written in, and its
-- encoding: the specification of what its bytes mean. Other bytes are no instruction.
use bfcomp.Prelude.{
  ℕ, ◌+◌, ◌-◌, ◌*◌, ◌/◌, ◌%◌, ◌^◌, List, [], ◌∷◌, Option, none, some, Bool, true, false, ◌==◌, ltb,
  if◌then◌else◌, ◌&&◌,
}
use bfcomp.Prelude.Int.{ℤ, pos, negsuc}

pub data Alu : Type 0 where
  add sub cmp : Alu

-- An instruction. The memory operands are bytes at the address in a register, and an immediate
-- operand of 32 bits is given as it is added or moved.
pub data Instr : Type 0 where
  mov_imm : ℕ → ℕ → Instr
  mov_reg : ℕ → ℕ → Instr
  alu_reg : Alu → ℕ → ℕ → Instr
  alu_byte : Alu → ℕ → ℕ → Instr
  alu_byte_al : Alu → ℕ → Instr
  jump_if : Bool → ℤ → Instr
  push_reg : ℕ → Instr
  interrupt : ℕ → Instr

-- Immediate operands: a sign-extended byte, as a word or as an integer, and four bytes.
abbrev pub sign_extend : ℕ → ℕ
sign_extend v = if ltb v 128 then v else v + (2 ^ 32 - 256)

abbrev pub signed8 : ℕ → ℤ
signed8 v = if ltb v 128 then pos v else negsuc (255 - v)

abbrev pub signed32 : ℕ → ℤ
signed32 w = if ltb w (2 ^ 31) then pos w else negsuc (2 ^ 32 - 1 - w)

abbrev pub word_of : ℕ → ℕ → ℕ → ℕ → ℕ
word_of a b c d = a + 256 * b + 65536 * c + 16777216 * d

-- The instruction and its length.
abbrev pub Decoded : Type 0
Decoded = Option (Instr × ℕ)

-- The operation that the middle bits of a ModRM byte select, in the groups 80, 81 and 83.
abbrev pub alu_of : ℕ → Option Alu
alu_of n =
    if n == 0 then some add else if n == 5 then some sub else if n == 7 then some cmp else none

abbrev pub with_alu : Option Alu → (Alu → Decoded) → Decoded
with_alu none f = none
with_alu (some a) f = f a

-- The mode of a ModRM byte: a byte in memory with no displacement (neither SIB nor disp32), or a
-- register.
abbrev pub in_memory : ℕ → Bool
in_memory m = (m / 64 == 0) && (if m % 8 == 4 then false else if m % 8 == 5 then false else true)

abbrev pub in_register : ℕ → Bool
in_register m = m / 64 == 3

abbrev pub middle : ℕ → ℕ
middle m = m / 8 % 8

unfoldable pub decode_80 : List ℕ → Decoded
decode_80 (m ∷ v ∷ xs) =
    if in_memory m then with_alu (alu_of (middle m)) (λ a. some (alu_byte a (m % 8) v, 3)) else none
decode_80 _ = none

unfoldable pub decode_81 : List ℕ → Decoded
decode_81 (m ∷ a ∷ b ∷ c ∷ d ∷ xs) =
    if in_register m
    then with_alu (alu_of (middle m)) (λ o. some (alu_reg o (m % 8) (word_of a b c d), 6))
    else none
decode_81 _ = none

unfoldable pub decode_83 : List ℕ → Decoded
decode_83 (m ∷ v ∷ xs) =
    if in_register m
    then with_alu (alu_of (middle m)) (λ o. some (alu_reg o (m % 8) (sign_extend v), 3))
    else none
decode_83 _ = none

unfoldable pub decode_c7 : List ℕ → Decoded
decode_c7 (m ∷ a ∷ b ∷ c ∷ d ∷ xs) =
    if in_register m && (middle m == 0) then some (mov_imm (m % 8) (word_of a b c d), 6) else none
decode_c7 _ = none

-- `add` and `sub` of `%al` to a byte in memory.
unfoldable pub decode_al : Alu → List ℕ → Decoded
decode_al o (m ∷ xs) =
    if in_memory m && (middle m == 0) then some (alu_byte_al o (m % 8), 2) else none
decode_al o [] = none

unfoldable pub decode_89 : List ℕ → Decoded
decode_89 (m ∷ xs) = if in_register m then some (mov_reg (m % 8) (middle m), 2) else none
decode_89 [] = none

-- `inc` and `dec` of a byte in memory, which are taken for an addition and a subtraction of 1.
unfoldable pub decode_fe : List ℕ → Decoded
decode_fe (m ∷ xs) =
    if in_memory m
    then if middle m == 0
      then some (alu_byte add (m % 8) 1, 2)
      else if middle m == 1
      then some (alu_byte sub (m % 8) 1, 2)
      else none
    else none
decode_fe [] = none

unfoldable pub decode_ff : List ℕ → Decoded
decode_ff (m ∷ xs) = if in_register m && (middle m == 6) then some (push_reg (m % 8), 2) else none
decode_ff [] = none

unfoldable pub decode_short : Bool → List ℕ → Decoded
decode_short z (v ∷ xs) = some (jump_if z (signed8 v), 2)
decode_short z [] = none

unfoldable pub decode_0f : List ℕ → Decoded
decode_0f (o ∷ a ∷ b ∷ c ∷ d ∷ xs) =
    if o == 0x84
    then some (jump_if true (signed32 (word_of a b c d)), 6)
    else if o == 0x85
    then some (jump_if false (signed32 (word_of a b c d)), 6)
    else none
decode_0f _ = none

unfoldable pub decode_cd : List ℕ → Decoded
decode_cd (v ∷ xs) = some (interrupt v, 2)
decode_cd [] = none

unfoldable pub decode_mov : ℕ → List ℕ → Decoded
decode_mov r (a ∷ b ∷ c ∷ d ∷ xs) = some (mov_imm r (word_of a b c d), 5)
decode_mov r _ = none

-- One-byte opcodes that hold a register: `inc`, `dec`, and `mov` of an immediate word.
unfoldable pub decode_reg : ℕ → List ℕ → Decoded
decode_reg x xs =
    if x / 8 == 8
    then some (alu_reg add (x % 8) 1, 1)
    else if x / 8 == 9
    then some (alu_reg sub (x % 8) 1, 1)
    else if x / 8 == 23
    then decode_mov (x % 8) xs
    else none

unfoldable pub decode : List ℕ → Decoded
decode [] = none
decode (x ∷ xs) =
    if x == 0x80
    then decode_80 xs
    else if x == 0x81
    then decode_81 xs
    else if x == 0x83
    then decode_83 xs
    else if x == 0xC7
    then decode_c7 xs
    else if x == 0x00
    then decode_al add xs
    else if x == 0x28
    then decode_al sub xs
    else if x == 0x89
    then decode_89 xs
    else if x == 0xFE
    then decode_fe xs
    else if x == 0xFF
    then decode_ff xs
    else if x == 0x74
    then decode_short true xs
    else if x == 0x75
    then decode_short false xs
    else if x == 0x0F
    then decode_0f xs
    else if x == 0xCD
    then decode_cd xs
    else decode_reg x xs
