-- ===== src/Compile.antt =====
-- The code generator of csrc/src/ir_compile.c: `ir_ctx_compile__` and `ir_ctx_compile`.
pub mod Gen
pub mod Append
pub mod Sizes
mod Loops
pub mod Structure
pub mod Parts
pub mod Errors
pub mod Stopped
pub mod Lengths
pub mod Messages
pub mod Rounds
pub mod Reports
pub mod Asm
mod Tests
use bfcomp.Prelude.{
  ℕ, zero, suc, List, [], ◌∷◌, ◌++◌, Option, none, some, Bool, true, false, if◌then◌else◌, length,
  get_elem?,
}
use bfcomp.Prelude.Int.{ℤ, pos}
use bfcomp.Word.{next, jump_by}
use bfcomp.Ir.{OpKind, Op, op, Ctx, ctx, same_kind}
use bfcomp.Emit.{
  CompileResult, ok, Emitted, Mode, reg_direct, mod_rm, sp_reg, emit_op, emit_code_loop_start,
}

abbrev pub is_ok : CompileResult → Bool
is_ok ok = true
is_ok _ = false

-- An instruction that opens no loop, and whether the loop of `ir_ctx_compile__` ends with it.
unfoldable pub after_op : OpKind → Emitted → Option Emitted → Option Emitted
after_op k (err, c) rest =
    if is_ok err then if same_kind k OpKind.loop_end then some (ok, c) else rest else some (err, c)

-- `ir_ctx_compile__`, on fuel; `none` means that the fuel ran out. The code of a loop is generated
-- in a context of its own, and then behind the jump over it.
unfoldable pub compile_from : ℕ → List Op → ℕ → List ℕ → Option Emitted
compile_from zero code i c = none
compile_from (suc f) code i c = elim (get_elem? code i) [
  | none ↦ some (ok, c)
  | some o ↦
      let inner = compile_from f code (next i) [] in
      elim (same_kind o.kind OpKind.loop_start) [
        | true ↦ elim inner [
          | none ↦ none
          | some (err, loop_code) ↦ elim (is_ok err) [
            | true ↦
                compile_from f code (next (jump_by i o.arg))
                  (emit_code_loop_start (length loop_code) c ++ loop_code)
            | false ↦ some (err, c)
          ]
        ]
        | false ↦
            let emitted = emit_op o.kind i o.arg c in
            let rest = compile_from f code (next i) emitted.1 in after_op o.kind emitted rest
      ]
]

-- `ir_ctx_compile`: it pushes the halt instruction on the caller's list, and a `push %SP_REG`
-- before the code; it returns 1 if all went well.
unfoldable pub ir_ctx_compile : ℕ → Ctx → List ℕ → Option Emitted
ir_ctx_compile f c bytes =
    compile_from f (c.code ++ op OpKind.max (pos 0) ∷ []) 0
      (bytes ++ 0xFF ∷ mod_rm reg_direct 6 sp_reg ∷ [])
