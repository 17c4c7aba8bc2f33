-- ===== src/Emit.antt =====
-- The instruction encoder: csrc/include/ir_compile.h and the `emit_` functions of
-- csrc/src/ir_compile.c. A `compile_ctx` is the list of its bytes, and `ctx_push_code` and
-- `vec_push_as_bytes` append to it.
use Prim.Native.Nat.{bit_or}
use bfcomp.Prelude.{
  ℕ, zero, suc, ◌+◌, ◌-◌, ◌*◌, ◌/◌, ◌%◌, ◌^◌, Bool, List, [], ◌∷◌, ◌++◌, ◌==◌, leb, if◌then◌else◌,
  length, ◌&&◌, ◌||◌,
}
use bfcomp.Prelude.Int.{ℤ, pos, negsuc, pos_part, neg_part, ltb_ℤ, ◌-ℤ◌}
use bfcomp.Word.{to_u8, to_u32, to_i32, neg}
use bfcomp.Ir.{OpKind}

-- `compile_result`
pub data CompileResult : Type 0 where
  operand_size malformed_loop illegal_state ok : CompileResult

-- What an `emit_` function returns, and the bytes that the context holds then.
abbrev pub Emitted : Type 0
Emitted = CompileResult × List ℕ

-- `mod_rm_mode`
pub data Mode : Type 0 where
  reg_indirect sib_1 sib_2 reg_direct : Mode

abbrev pub mode_bits : Mode → ℕ
mode_bits reg_indirect = 0
mode_bits sib_1 = 1
mode_bits sib_2 = 2
mode_bits reg_direct = 3

-- The registers, and the numbers of the system calls, that the compiler names.
abbrev pub reg_eax : ℕ
reg_eax = 0

abbrev pub reg_ecx : ℕ
reg_ecx = 1

abbrev pub reg_edx : ℕ
reg_edx = 2

abbrev pub reg_ebx : ℕ
reg_ebx = 3

abbrev pub reg_edi : ℕ
reg_edi = 7

abbrev pub sp_reg : ℕ
sp_reg = reg_edi

abbrev pub sys_exit : ℕ
sys_exit = 1

abbrev pub sys_read : ℕ
sys_read = 3

abbrev pub sys_write : ℕ
sys_write = 4

-- `mod_rm(mode, reg, rm)`
abbrev pub mod_rm : Mode → ℕ → ℕ → ℕ
mod_rm mode reg rm = bit_or (bit_or (mode_bits mode * 2 ^ 6) (reg * 2 ^ 3)) rm

-- The bytes of an `int32_t`, for `vec_push_as_bytes`.
abbrev pub le_bytes : ℕ → List ℕ
le_bytes w = w % 256 ∷ w / 256 % 256 ∷ w / 256 / 256 % 256 ∷ w / 256 / 256 / 256 % 256 ∷ []

unfoldable pub push_int32 : ℤ → List ℕ → List ℕ
push_int32 z c = c ++ le_bytes (to_u32 z)

-- `INT32_MAX`, `INT32_MIN`, and the guard of the functions that take an operand.
abbrev pub int8_max : ℤ
int8_max = pos 127

abbrev pub int8_min : ℤ
int8_min = negsuc 127

abbrev pub int32_max : ℤ
int32_max = pos (2 ^ 31 - 1)

abbrev pub int32_min : ℤ
int32_min = negsuc (2 ^ 31 - 1)

unfoldable pub too_big : ℤ → Bool
too_big z = ltb_ℤ int32_max z || ltb_ℤ z int32_min

abbrev pub eq_ℤ : ℤ → ℤ → Bool
eq_ℤ a b = (pos_part a == pos_part b) && (neg_part a == neg_part b)

-- The `default` case of `emit_add_sub`, by mode.
unfoldable pub emit_indirect : ℤ → List ℕ → List ℕ
emit_indirect z c =
    if ltb_ℤ (pos 0) z
    then if ltb_ℤ int8_max z
      then push_int32 z (c ++ 0xC7 ∷ mod_rm reg_direct 0 reg_eax ∷ [])
        ++ 0x00 ∷ mod_rm reg_indirect reg_eax sp_reg ∷ []
      else c ++ 0x80 ∷ mod_rm reg_indirect 0 sp_reg ∷ to_u8 z ∷ []
    else if ltb_ℤ int8_max (neg z)
    then push_int32 (neg z) (c ++ 0xC7 ∷ mod_rm reg_direct 0 reg_eax ∷ [])
      ++ 0x28 ∷ mod_rm reg_indirect reg_eax sp_reg ∷ []
    else c ++ 0x80 ∷ mod_rm reg_indirect 5 sp_reg ∷ to_u8 (neg z) ∷ []

unfoldable pub emit_direct : ℤ → List ℕ → List ℕ
emit_direct z c =
    if ltb_ℤ (pos 0) z
    then if ltb_ℤ int8_max z
      then push_int32 z (c ++ 0x81 ∷ mod_rm reg_direct 0 sp_reg ∷ [])
      else c ++ 0x83 ∷ mod_rm reg_direct 0 sp_reg ∷ to_u8 z ∷ []
    else if ltb_ℤ int8_max (neg z)
    then push_int32 (neg z) (c ++ 0x81 ∷ mod_rm reg_direct 5 sp_reg ∷ [])
    else c ++ 0x83 ∷ mod_rm reg_direct 5 sp_reg ∷ to_u8 (neg z) ∷ []

unfoldable pub emit_other : Mode → ℤ → List ℕ → Emitted
emit_other reg_indirect z c = (ok, emit_indirect z c)
emit_other reg_direct z c = (ok, emit_direct z c)
emit_other _ z c = (illegal_state, c)

-- The cases `1` and `-1`: `step` is 0 for `inc` and 1 for `dec`.
unfoldable pub emit_step : Mode → ℕ → List ℕ → Emitted
emit_step reg_direct n c = (ok, c ++ (0x40 + 8 * n + sp_reg) ∷ [])
emit_step mode n c = (ok, c ++ 0xFE ∷ mod_rm mode n sp_reg ∷ [])

unfoldable pub emit_add_sub : Mode → ℤ → List ℕ → Emitted
emit_add_sub mode z c =
    if eq_ℤ z (pos 0)
    then (ok, c)
    else if too_big z
    then (operand_size, c)
    else if eq_ℤ z (pos 1)
    then emit_step mode 0 c
    else if eq_ℤ z (negsuc 0)
    then emit_step mode 1 c
    else emit_other mode z c

-- `cmp (%SP_REG), $0`, before both jumps of a loop.
unfoldable pub emit_cmp : List ℕ → List ℕ
emit_cmp c = c ++ 0x80 ∷ mod_rm reg_indirect 7 sp_reg ∷ 0x0 ∷ []

-- `emit_code_loop_start`, with the size of the code of the loop.
unfoldable pub emit_code_loop_start : ℕ → List ℕ → List ℕ
emit_code_loop_start size c =
    let c' = emit_cmp c in
    if leb (size + 2) 127
    then c' ++ 0x74 ∷ to_u8 (pos size) ∷ []
    else push_int32 (pos size) (c' ++ 0x0F ∷ 0x84 ∷ [])

-- The jump of `emit_code_loop_end`, with its `offset`.
unfoldable pub emit_jump_back : ℤ → List ℕ → List ℕ
emit_jump_back offset c =
    if ltb_ℤ offset int8_min
    then push_int32 (offset -ℤ pos 4) (c ++ 0x0F ∷ 0x85 ∷ [])
    else c ++ 0x75 ∷ to_u8 offset ∷ []

unfoldable pub emit_code_loop_end : List ℕ → List ℕ
emit_code_loop_end c = let c' = emit_cmp c in emit_jump_back (to_i32 (neg (pos (length c' + 2)))) c'

-- `syscall_const_arg`, by register, and `int $0x80`.
unfoldable pub const_arg : ℕ → ℤ → List ℕ → List ℕ
const_arg reg z c = push_int32 z (c ++ (0xb8 + reg) ∷ [])

-- The code for one call of `read` or `write` on the byte at `SP_REG`.
unfoldable pub emit_transfer : ℕ → ℕ → List ℕ → List ℕ
emit_transfer number fd c =
    let c₁ = const_arg reg_ebx (pos fd) (c ++ (0xb8 + reg_eax) ∷ number ∷ 0 ∷ 0 ∷ 0 ∷ []) in
    let c₂ = c₁ ++ 0x89 ∷ mod_rm reg_direct sp_reg reg_ecx ∷ [] in
    const_arg reg_edx (pos 1) c₂ ++ 0xcd ∷ 0x80 ∷ []

-- The loop of `emit_code_write`.
unfoldable pub emit_writes : ℕ → List ℕ → List ℕ
emit_writes zero c = c
emit_writes (suc n) c = emit_writes n (emit_transfer sys_write 1 c)

unfoldable pub emit_code_write : ℤ → List ℕ → Emitted
emit_code_write z c = if too_big z then (operand_size, c) else (ok, emit_writes (pos_part z) c)

-- `emit_code_read`: one call, whatever the argument.
unfoldable pub emit_code_read : ℤ → List ℕ → Emitted
emit_code_read z c = if too_big z then (operand_size, c) else (ok, emit_transfer sys_read 0 c)

unfoldable pub emit_code_trap : List ℕ → List ℕ
emit_code_trap c = c ++ 0xcd ∷ 0x03 ∷ []

unfoldable pub emit_code_exit : ℤ → List ℕ → Emitted
emit_code_exit z c = if too_big z then (operand_size, c) else (
  ok,
  const_arg reg_ebx z (c ++ (0xb8 + reg_eax) ∷ sys_exit ∷ 0 ∷ 0 ∷ 0 ∷ []) ++ 0xcd ∷ 0x80 ∷ [],
)

abbrev pub emit_code_tape : ℤ → List ℕ → Emitted
emit_code_tape z c = emit_add_sub reg_direct z c

abbrev pub emit_code_cell : ℤ → List ℕ → Emitted
emit_code_cell z c = emit_add_sub reg_indirect z c

-- `code_fn`, the table of the functions above by the kind of an instruction, at its index.
unfoldable pub emit_op : OpKind → ℕ → ℤ → List ℕ → Emitted
emit_op OpKind.tape i z c = emit_code_tape z c
emit_op OpKind.cell i z c = emit_code_cell z c
emit_op OpKind.loop_start i z c = (ok, emit_code_loop_start i c)
emit_op OpKind.loop_end i z c = (ok, emit_code_loop_end c)
emit_op OpKind.write i z c = emit_code_write z c
emit_op OpKind.read i z c = emit_code_read z c
emit_op OpKind.set i z c = (ok, emit_code_trap c)
emit_op OpKind.max i z c = emit_code_exit z c
