-- ===== src/Compile/Tests.antt =====
-- Code that csrc/src/ir_compile.c generates, and its theorems at concrete programs.
use bfcomp.Prelude.{◌++◌, ◌+◌, ◌*◌, ◌^◌, ◌≤◌, ℕ, ◌≡◌, refl, List, [], ◌∷◌, Option, some, arith}
use bfcomp.Prelude.Int.{pos, negsuc, ◌+ℤ◌, ◌-ℤ◌}
use bfcomp.Word.{to_u8, to_u64, to_u32, to_i32, to_i64, neg, next, jump_by}
use bfcomp.Ir.{OpKind, Ctx, ctx}
use bfcomp.Prog.{Basic, Prog, done, basic, loop, flatten}
use bfcomp.Prog.Placed.{Holds}
use bfcomp.Emit.{
  Emitted, ok, operand_size, push_int32, too_big, emit_indirect, emit_direct, emit_other, emit_step,
  emit_add_sub, emit_cmp, emit_code_loop_start, emit_jump_back, emit_code_loop_end, const_arg,
  emit_transfer, emit_writes, emit_code_write, emit_code_read, emit_code_trap, emit_code_exit,
  emit_op,
}
use bfcomp.Compile.{after_op, compile_from, ir_ctx_compile}
use bfcomp.Prog.Weight.{weight}
use bfcomp.Compile.Errors.{fits, outcome, ir_ctx_compile-outcome}
use bfcomp.Compile.Lengths.{ir_ctx_compile-length}
use bfcomp.Compile.Asm.{ir_compile_dump_asm, dump_step, hex2, reg_names}
use bfcomp.Prelude.Text.{codes, digits_from, digit, decimal, decimal_ℤ}
use bfcomp.Dump.{ir_fmt_op, add_sub, abs_arg}
use bfcomp.Compile.Messages.{error_text, compile_result_str, ir_ctx_compile_messages}
use bfcomp.Compile.Rounds.{report}
use bfcomp.Compile.Reports.{ir_ctx_compile_messages-report}
use bfcomp.Compile.Structure.{whole, ir_ctx_compile-whole}

compile : ℕ → Ctx → List ℕ → Option Emitted
unfolding ir_ctx_compile compile_from after_op emit_op emit_code_exit emit_code_trap emit_code_read
    emit_code_write emit_writes emit_transfer const_arg emit_code_loop_end emit_jump_back
    emit_code_loop_start emit_cmp emit_add_sub emit_step emit_other emit_direct emit_indirect
    too_big push_int32 to_u8 to_u64 to_u32 to_i32 to_i64 neg next jump_by ◌+ℤ◌ ◌-ℤ◌
compile = ir_ctx_compile

-- +[-]>>
abbrev clear : Prog
clear =
    basic Basic.cell (pos 1)
      (loop (basic Basic.cell (negsuc 0) done) (basic Basic.tape (pos 2) done))

abbrev clear_bytes : List ℕ
clear_bytes =
    0xFF ∷ 0xF7 ∷ 0xFE ∷ 0x07 ∷ 0x80 ∷ 0x3F ∷ 0 ∷ 0x74 ∷ 7 ∷ 0xFE ∷ 0x0F ∷ 0x80 ∷ 0x3F ∷ 0 ∷ 0x75
    ∷ 0xF9 ∷ 0x83 ∷ 0xC7 ∷ 2 ∷ 0xB8 ∷ 1 ∷ 0 ∷ 0 ∷ 0 ∷ 0xBB ∷ 0 ∷ 0 ∷ 0 ∷ 0 ∷ 0xCD ∷ 0x80 ∷ []

clear_code : compile 20 (ctx (flatten clear) []) [] ≡ some (ok, clear_bytes)
unfolding compile flatten
clear_code = refl

clear-Holds : Holds (ctx (flatten clear) []) clear
unfolding flatten
clear-Holds = record { layout = refl; fits = omega arith }

ir_ctx_compile-whole_example : ir_ctx_compile 20 (ctx (flatten clear) []) [] ≡ some (whole clear [])
unfolding flatten
ir_ctx_compile-whole_example =
    ir_ctx_compile-whole (ctx (flatten clear) []) clear 20 [] clear-Holds (omega arith)

-- A step on a cell that is too large for the operand of an instruction.
abbrev large : Prog
large = basic Basic.cell (pos (2 ^ 31)) done

large-Holds : Holds (ctx (flatten large) []) large
unfolding flatten
large-Holds = record { layout = refl; fits = omega arith }

ir_ctx_compile-outcome_example :
    (code : List ℕ) × (ir_ctx_compile 20 (ctx (flatten large) []) []
      ≡ some (outcome (fits large), code))
unfolding flatten
ir_ctx_compile-outcome_example =
    ir_ctx_compile-outcome (ctx (flatten large) []) large 20 [] large-Holds (omega arith)

large_refused : outcome (fits large) ≡ operand_size
unfolding fits too_big
large_refused = refl

ir_ctx_compile-length_example : 31 ≤ 0 + 14 + 19 * weight (flatten clear)
unfolding compile flatten
ir_ctx_compile-length_example =
    ir_ctx_compile-length (ctx (flatten clear) []) clear 20 [] clear_bytes clear-Holds (omega arith)
      refl

-- The same step, in a loop.
abbrev large_loop : Prog
large_loop = loop large (basic Basic.tape (pos (2 ^ 32)) done)

large_loop-Holds : Holds (ctx (flatten large_loop) []) large_loop
unfolding flatten
large_loop-Holds = record { layout = refl; fits = omega arith }

ir_ctx_compile_messages-report_example :
    ir_ctx_compile_messages 20 (ctx (flatten large_loop) []) [] ≡ report large_loop
unfolding flatten
ir_ctx_compile_messages-report_example =
    ir_ctx_compile_messages-report (ctx (flatten large_loop) []) large_loop 20 [] large_loop-Holds
      (omega arith)

large_text :
    error_text OpKind.cell (pos (2 ^ 31)) operand_size
    ≡ codes "compiler error: [add [$tape] 2147483648] operand size too big" ++ 10 ∷ []
unfolding error_text compile_result_str ir_fmt_op add_sub abs_arg decimal_ℤ decimal
large_text = refl

asm_texts :
    (ir_compile_dump_asm OpKind.cell (pos 26) ≡ codes "addl $1a,(edi)")
    × (ir_compile_dump_asm OpKind.tape (negsuc 4) ≡ codes "sub $05,edi")
    × (ir_compile_dump_asm OpKind.tape (negsuc 0) ≡ codes "dec edi")
    × (ir_compile_dump_asm OpKind.loop_end (negsuc 4) ≡ codes "jne -5")
unfolding ir_compile_dump_asm dump_step hex2 digits_from digit reg_names decimal_ℤ decimal to_u64
    to_i64 neg ◌+ℤ◌ ◌-ℤ◌
asm_texts = (refl, refl, refl, refl)
