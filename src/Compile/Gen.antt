-- ===== src/Compile/Gen.antt =====
-- What the code of a well-nested program is, by its structure: the specification of the traversal
-- of csrc/src/ir_compile.c.
use bfcomp.Prelude.{ℕ, List, [], ◌++◌, true, false, length}
use bfcomp.Prog.{Prog, done, basic, loop, kind_of}
use bfcomp.Emit.{ok, Emitted, emit_op, emit_code_loop_start, emit_code_loop_end}
use bfcomp.Compile.{is_ok}

-- Go on behind code that was emitted without an error.
abbrev pub and_then {ℓ} : {A : Type ℓ} → Emitted → (Emitted → A) → (List ℕ → A) → A
and_then (err, c) stop go = elim (is_ok err) [ true ↦ go c | false ↦ stop (err, c) ]

unfoldable pub gen : Prog → List ℕ → Emitted
gen done c = (ok, c)
gen (basic b z p) c = and_then (emit_op (kind_of b) 0 z c) (λ e. e) (gen p)
gen (loop body p) c =
    and_then (gen body []) (λ e. (e.0, c))
      (λ inside.
        let loop_code = emit_code_loop_end inside in
        gen p (emit_code_loop_start (length loop_code) c ++ loop_code))
