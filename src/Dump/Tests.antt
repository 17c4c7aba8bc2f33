-- ===== src/Dump/Tests.antt =====
-- Runs of the printers of csrc/src/ir_gen.c.
use bfcomp.Prelude.{ℕ, List, ◌^◌, none, arith, ◌≡◌, refl, [], ◌∷◌, ◌++◌, some}
use bfcomp.Prelude.Int.{pos, negsuc, ◌-ℤ◌}
use bfcomp.Prelude.Text.{codes, decimal_ℤ}
use bfcomp.Word.{to_i64, neg}
use bfcomp.Ir.{OpKind, op, ctx, empty_ctx}
use bfcomp.Prog.{Basic, Prog, done, basic, loop, flatten}
use bfcomp.Parse.{ir_ctx_parse}
use bfcomp.Parse.Balance.{EndsWith}
use bfcomp.Dump.{
  appended, putcc, put_signed, dump_op, dump_code, ir_ctx_dump_bf, add_sub, abs_arg, ir_fmt_op,
  dump_ir_from, ir_ctx_dump_ir,
}
use bfcomp.Dump.Balance.{ir_ctx_parse-dump}
use bfcomp.Dump.Reparse.{Separate, ir_ctx_parse-reparses}

abbrev sample : Prog
sample =
    basic Basic.cell (pos 2)
      (loop (basic Basic.tape (negsuc 1) done) (basic Basic.write (pos 1) done))

sample_text : ir_ctx_dump_bf (ctx (flatten sample) []) ≡ some (codes "++[<<]." ++ 10 ∷ [])
unfolding ir_ctx_dump_bf appended dump_code dump_op put_signed putcc flatten neg ◌-ℤ◌ to_i64
sample_text = refl

sample_ir :
    ir_ctx_dump_ir (ctx (op OpKind.tape (negsuc 11) ∷ op OpKind.max (pos 0) ∷ []) [])
    ≡ codes "[0] sub $tape 12" ++ (10 ∷ (codes "[1] halt" ++ 10 ∷ []))
unfolding ir_ctx_dump_ir dump_ir_from ir_fmt_op add_sub abs_arg decimal_ℤ neg ◌-ℤ◌ to_i64
sample_ir = refl

-- More characters than `int j` counts.
too_many : ir_ctx_dump_bf (ctx (op OpKind.cell (pos (2 ^ 31)) ∷ []) []) ≡ none
unfolding ir_ctx_dump_bf appended dump_code dump_op put_signed putcc
too_many = refl

ir_ctx_parse-dump_example :
    (text : List ℕ) × (ir_ctx_dump_bf (ctx (flatten sample) []) ≡ some text)
    × EndsWith (some 0) (ir_ctx_parse empty_ctx text)
ir_ctx_parse-dump_example =
    ir_ctx_parse-dump (ctx (flatten sample) []) sample refl
      (omega arith, ((omega arith, tt), (omega arith, tt)))

sample-Separate : Separate none sample
sample-Separate = (
  λ e. absurd cc,
  omega arith,
  ((λ e. absurd cc, omega arith, tt), (λ e. absurd cc, omega arith, tt)),
)

ir_ctx_parse-reparses_example :
    (text : List ℕ) × (ir_ctx_dump_bf (ctx (flatten sample) []) ≡ some text)
    × (ir_ctx_parse empty_ctx text ≡ some (ctx (flatten sample) [], 0))
ir_ctx_parse-reparses_example =
    ir_ctx_parse-reparses (ctx (flatten sample) []) sample refl sample-Separate
