-- ===== src/Compile/Structure.antt =====
-- The traversal of csrc/src/ir_compile.c over a whole program: its prologue, and its exit.
use bfcomp.Prelude.{
  ℕ, zero, suc, ◌+◌, ◌≤◌, ◌<◌, ◌≡◌, ap, fun_ext, ◌∙◌, inl, inr, List, [], ◌∷◌, ◌++◌, some, arith,
  Bool-cases, length, get_elem?, length-append,
}
use native.Mathlib.Nat.{zero-add}
use bfcomp.Prelude.Int.{pos}
use bfcomp.Word.{next}
use bfcomp.Ir.{OpKind, Op, op, Ctx}
use bfcomp.Prog.{Prog, flatten}
use bfcomp.Prog.Placed.{
  HasAt-start, get_elem?-append_right, IsShort, Holds, get_elem?-past, next-at, behind,
}
use bfcomp.Emit.{emit_code_exit, too_big, reg_direct, mod_rm, sp_reg, ok, Emitted, emit_op}
use bfcomp.Compile.{is_ok, after_op, compile_from, ir_ctx_compile}
use bfcomp.Compile.Gen.{and_then, gen}
use bfcomp.Compile.Loops.{Continues, compile-flatten}

module _ (code : List Op) (short : IsShort code) where
  compile_end :
      (f i : ℕ) (c : List ℕ) → length code ≤ i → compile_from (suc f) code i c ≡ some (ok, c)
  unfolding compile_from
  compile_end f i c h = rw (compile_from, get_elem?-past code i h)

  compile-halt :
      (f i : ℕ) (c : List ℕ)
      → get_elem? code i ≡ some (op OpKind.max (pos 0))
      → compile_from (suc f) code i c
        ≡ compile_from f code (next i) (emit_op OpKind.max 0 (pos 0) c).1
  unfolding compile_from emit_op emit_code_exit after_op too_big
  compile-halt f i c h = rw (compile_from, h)

  compile_exit :
      (f i : ℕ) (c : List ℕ)
      → 1 < f
      → get_elem? code i ≡ some (op OpKind.max (pos 0))
      → length code ≤ suc i
      → compile_from f code i c ≡ some (emit_op OpKind.max 0 (pos 0) c)
  unfolding emit_op emit_code_exit too_big
  compile_exit zero i c lt h h' = absurd (omega arith)
  compile_exit (suc zero) i c lt h h' = absurd (omega arith)
  compile_exit (suc (suc f)) i c lt h h' =
      compile-halt (suc f) i c h
      ∙ rw (next-at code short i _ h) (compile_end f (suc i) (emit_op OpKind.max 0 (pos 0) c).1 h')

-- The code of a whole program: `push %edi`, the program, and the call of `exit`.
abbrev pub whole : Prog → List ℕ → Emitted
whole p bytes =
    and_then (gen p (bytes ++ 0xFF ∷ mod_rm reg_direct 6 sp_reg ∷ [])) (λ e. e)
      (emit_op OpKind.max 0 (pos 0))

-- With the layout of a program as its instructions, fewer than 2^63 with the halt, and fuel for two
-- more of them, the compiler ends; its result and its code, errors included, are those that the structure of the program
-- gives.
pub ir_ctx_compile-whole :
    (c : Ctx) (p : Prog) (f : ℕ) (bytes : List ℕ)
    → Holds c p
    → length c.code + 2 ≤ f
    → ir_ctx_compile f c bytes ≡ some (whole p bytes)
unfolding ir_ctx_compile
ir_ctx_compile-whole c p f bytes h lt =
    r.continues prologue ∙ ap (and_then (gen p prologue) some) closes ∙ glue (gen p prologue)
  where
    code : List Op
    code = c.code ++ op OpKind.max (pos 0) ∷ []

    prologue : List ℕ
    prologue = bytes ++ 0xFF ∷ mod_rm reg_direct 6 sp_reg ∷ []

    size : length code ≡ length (flatten p) + 1
    size = rw h.layout (length-append (flatten p) _)

    short : IsShort code
    short = omega (arith, size, ap length h.layout, h.fits)

    r : Continues code short f 0 p
    r =
        compile-flatten code short p f 0 (rw h.layout (HasAt-start (flatten p) _))
          (omega (arith, ap length h.layout))

    halt_here : get_elem? code (behind 0 p) ≡ some (op OpKind.max (pos 0))
    halt_here = rw (h.layout, zero-add) (get_elem?-append_right (flatten p) _ [])

    closes : compile_from r.left code (behind 0 p) ≡ (λ c'. some (emit_op OpKind.max 0 (pos 0) c'))
    closes = fun_ext (λ c'.
        compile_exit code short r.left (behind 0 p) c' (omega (arith, r.enough, ap length h.layout))
          halt_here (omega (arith, size)))

    glue :
        (e : Emitted)
        → and_then e some (λ c'. some (emit_op OpKind.max 0 (pos 0) c'))
          ≡ some (and_then e (λ e. e) (emit_op OpKind.max 0 (pos 0)))
    glue (err, c') = elim (Bool-cases (is_ok err)) [
      | inl e ↦ rw (e, and_then)
      | inr e ↦ rw (e, and_then)
    ]
