-- ===== src/Compile/Asm.antt =====
-- `ir_compile_dump_asm` of csrc/src/ir_compile.c: the text for an instruction.
use bfcomp.Prelude.{ℕ, suc, List, [], ◌∷◌, ◌++◌, if◌then◌else◌, ltb, ◌==◌}
use bfcomp.Prelude.Int.{ℤ, pos, negsuc, ltb_ℤ}
use bfcomp.Prelude.Text.{codes, digits_from, decimal_ℤ}
use bfcomp.Word.{to_u64, to_i64, neg}
use bfcomp.Ir.{OpKind}
use bfcomp.Emit.{sp_reg, eq_ℤ}

-- The registers by their numbers.
unfoldable pub reg_names : ℕ → List ℕ
reg_names r =
    if r == 0
    then codes "eax"
    else if r == 1
    then codes "ecx"
    else if r == 2
    then codes "edx"
    else if r == 3
    then codes "ebx"
    else if r == 4
    then codes "esp"
    else if r == 5
    then codes "ebp"
    else if r == 6
    then codes "esi"
    else codes "edi"

-- `%02lx`, of an `int64_t` that is taken for an `unsigned long`.
unfoldable pub hex2 : ℤ → List ℕ
hex2 z =
    let n = to_u64 z in
    let digits = digits_from (suc n) 16 n [] in if ltb n 16 then b'0' ∷ digits else digits

-- The cases of a step on the operand: `inc` and `dec`, or an addition or subtraction of a number.
unfoldable pub dump_step : List ℕ → ℤ → List ℕ
dump_step operand z =
    if ltb_ℤ (pos 0) z
    then if eq_ℤ z (pos 1)
      then codes "inc " ++ operand
      else codes "addl $" ++ (hex2 z ++ b',' ∷ operand)
    else if eq_ℤ z (negsuc 0)
    then codes "dec " ++ operand
    else codes "sub $" ++ (hex2 (to_i64 (neg z)) ++ b',' ∷ operand)

unfoldable pub ir_compile_dump_asm : OpKind → ℤ → List ℕ
ir_compile_dump_asm OpKind.read z = codes "<read>"
ir_compile_dump_asm OpKind.write z = codes "<write>"
ir_compile_dump_asm OpKind.cell z = dump_step (b'(' ∷ (reg_names sp_reg ++ b')' ∷ [])) z
ir_compile_dump_asm OpKind.tape z = dump_step (reg_names sp_reg) z
ir_compile_dump_asm OpKind.loop_start z = codes "je " ++ decimal_ℤ z
ir_compile_dump_asm OpKind.loop_end z = codes "jne " ++ decimal_ℤ z
ir_compile_dump_asm OpKind.max z = codes "<exit>"
ir_compile_dump_asm OpKind.set z = codes "invalid * " ++ decimal_ℤ z
