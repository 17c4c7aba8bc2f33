-- ===== src/Compile/Messages.antt =====
-- What `ir_ctx_compile__` of csrc/src/ir_compile.c writes to the standard error.
use bfcomp.Prelude.{
  ℕ, zero, suc, List, [], ◌∷◌, ◌++◌, Option, none, some, true, false, if◌then◌else◌, length,
  get_elem?,
}
use bfcomp.Prelude.Int.{ℤ, pos}
use bfcomp.Prelude.Text.{codes}
use bfcomp.Word.{next, jump_by}
use bfcomp.Ir.{OpKind, Op, op, Ctx, same_kind}
use bfcomp.Dump.{ir_fmt_op}
use bfcomp.Emit.{
  CompileResult, ok, operand_size, malformed_loop, illegal_state, Emitted, reg_direct, mod_rm,
  sp_reg, emit_op, emit_code_loop_start,
}
use bfcomp.Compile.{is_ok, compile_from}

unfoldable pub compile_result_str : CompileResult → List ℕ
compile_result_str operand_size = codes "operand size too big"
compile_result_str malformed_loop = codes "malformed loop"
compile_result_str illegal_state = codes "illegal state"
compile_result_str ok = codes "ok"

-- The `fprintf` for an instruction.
unfoldable pub error_text : OpKind → ℤ → CompileResult → List ℕ
error_text k z err =
    codes "compiler error: ["
    ++ (ir_fmt_op k z ++ (codes "] " ++ (compile_result_str err ++ 10 ∷ [])))

-- Behind an instruction that opens no loop.
unfoldable pub messages_after : OpKind → ℤ → CompileResult → List ℕ → List ℕ
messages_after k z err rest =
    if is_ok err then if same_kind k OpKind.loop_end then [] else rest else error_text k z err

-- Behind the call for the inside of a loop, which has written `inside`.
unfoldable pub messages_behind : ℤ → List ℕ → Option Emitted → (List ℕ → List ℕ) → List ℕ
messages_behind z inside none more = inside
messages_behind z inside (some (err, loop_code)) more =
    inside ++ (if is_ok err then more loop_code else error_text OpKind.loop_start z err)

-- The messages of `ir_ctx_compile__`, on the same fuel and in the order in which they are written.
unfoldable pub messages_from : ℕ → List Op → ℕ → List ℕ → List ℕ
messages_from zero code i c = []
messages_from (suc f) code i c = elim (get_elem? code i) [
  | none ↦ []
  | some o ↦
      let inside = messages_from f code (next i) [] in
      elim (same_kind o.kind OpKind.loop_start) [
        | true ↦ messages_behind o.arg inside (compile_from f code (next i) []) (λ loop_code.
            messages_from f code (next (jump_by i o.arg))
              (emit_code_loop_start (length loop_code) c ++ loop_code))
        | false ↦
            let emitted = emit_op o.kind i o.arg c in
            let rest = messages_from f code (next i) emitted.1 in
            messages_after o.kind o.arg emitted.0 rest
      ]
]

-- Those of `ir_ctx_compile`.
unfoldable pub ir_ctx_compile_messages : ℕ → Ctx → List ℕ → List ℕ
ir_ctx_compile_messages f c bytes =
    messages_from f (c.code ++ op OpKind.max (pos 0) ∷ []) 0
      (bytes ++ 0xFF ∷ mod_rm reg_direct 6 sp_reg ∷ [])
