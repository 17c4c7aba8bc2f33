-- ===== src/Parse/Tests.antt =====
-- Runs of the parser of csrc/src/ir_gen.c, and its theorems at concrete texts.
use Prim.Native.String.{String}
use bfcomp.Prelude.{ℕ, ◌+◌, ◌*◌, length, ◌≡◌, refl, [], ◌∷◌, Option, some}
use bfcomp.Prelude.Text.{codes}
use bfcomp.Prelude.Int.{pos, negsuc, ◌+ℤ◌, ◌-ℤ◌}
use bfcomp.Word.{to_i64, neg}
use bfcomp.Ir.{OpKind, op, Ctx, ctx, empty_ctx}
use bfcomp.Prog.{flatten_open, open_addrs, done, flatten}
use bfcomp.Parse.{
  run_length, count_char, push_op, add_to_last, accumulate, open_loop, close_loop, parse_char,
  parse_loop, ir_ctx_parse,
}
use bfcomp.Parse.Balance.{EndsWith, balance, ir_ctx_parse-balance}
use bfcomp.Prog.Weight.{weight}
use bfcomp.Parse.Weight.{ResultWeight, ir_ctx_parse-weight}
use bfcomp.Parse.Nesting.{IsNested, ResultNested, ir_ctx_parse-IsNested}

parse : Ctx → String → Option (Ctx × ℕ)
unfolding ir_ctx_parse parse_loop parse_char count_char run_length push_op add_to_last accumulate
    open_loop close_loop to_i64 neg ◌+ℤ◌ ◌-ℤ◌
parse c s = ir_ctx_parse c (codes s)

runs_are_joined :
    parse empty_ctx "++-- >>x<,,."
    ≡ some (
      ctx
          (op OpKind.cell (pos 0)
            ∷ op OpKind.tape (pos 1)
            ∷ op OpKind.read (pos 2)
            ∷ op OpKind.write (pos 1)
            ∷ [])
          [],
      0,
    )
unfolding parse
runs_are_joined = refl

loops_are_patched :
    parse empty_ctx "[[-]+]"
    ≡ some (
      ctx
          (op OpKind.loop_start (pos 5)
            ∷ op OpKind.loop_start (pos 2)
            ∷ op OpKind.cell (negsuc 0)
            ∷ op OpKind.loop_end (negsuc 1)
            ∷ op OpKind.cell (pos 1)
            ∷ op OpKind.loop_end (negsuc 4)
            ∷ [])
          [],
      0,
    )
unfolding parse
loops_are_patched = refl

unmatched_close : parse empty_ctx "+]-" ≡ some (ctx (op OpKind.cell (pos 1) ∷ []) [], 1)
unfolding parse
unmatched_close = refl

unmatched_open :
    parse empty_ctx "[+"
    ≡ some (ctx (op OpKind.loop_start (pos 0) ∷ op OpKind.cell (pos 1) ∷ []) (0 ∷ []), 0)
unfolding parse
unmatched_open = refl

empty-IsNested : IsNested empty_ctx
unfolding flatten_open open_addrs flatten
empty-IsNested = (done, [], record { laid_out = refl; patched = refl })

ir_ctx_parse-IsNested_example : ResultNested (ir_ctx_parse empty_ctx (codes "+[>[-]<]["))
ir_ctx_parse-IsNested_example = ir_ctx_parse-IsNested empty_ctx (codes "+[>[-]<][") empty-IsNested

ir_ctx_parse-balance_example :
    EndsWith (balance 0 (codes "[+]-]")) (ir_ctx_parse empty_ctx (codes "[+]-]"))
ir_ctx_parse-balance_example = ir_ctx_parse-balance empty_ctx (codes "[+]-]")

ir_ctx_parse-weight_example :
    ResultWeight
      (weight empty_ctx.code + 2 * length (codes "++[-]"))
      (ir_ctx_parse empty_ctx (codes "++[-]"))
ir_ctx_parse-weight_example = ir_ctx_parse-weight empty_ctx (codes "++[-]")
