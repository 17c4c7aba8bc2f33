-- ===== src/Compile/Stopped.antt =====
-- What the compiler of csrc/src/ir_compile.c has made, when it stops with an error.
use bfcomp.Prelude.{
  ℕ, ◌+◌, ◌≤◌, ◌≡◌, refl, sym, ap, ◌∙◌, List, [], ◌++◌, some, true, false, Bool-cases, inl, inr,
  length, arith, if◌then◌else◌,
}
use mathlib.Core.List.{append_assoc}
use bfcomp.Prelude.Int.{ℤ, pos}
use bfcomp.Ir.{OpKind, Ctx, ctx}
use bfcomp.Prog.{Basic, Prog, done, basic, loop, kind_of, flatten}
use bfcomp.Prog.Placed.{Holds}
use bfcomp.Emit.{
  Emitted, Mode, reg_indirect, reg_direct, ok, operand_size, too_big, emit_add_sub, eq_ℤ,
  emit_code_write, emit_code_read, emit_op,
}
use bfcomp.Compile.{ir_ctx_compile}
use bfcomp.Compile.Gen.{and_then, gen}
use bfcomp.Compile.Append.{loop_then, gen-append}
use bfcomp.Compile.Structure.{ir_ctx_compile-whole}
use bfcomp.Compile.Errors.{fits, outcome, zero_small, and_then-stops, op-Returns, gen-Returns}
use bfcomp.Compile.Parts.{push_bytes, exit_bytes, exit-emitted}

-- The steps and the loops of a program, up to the first that has an argument which does not fit. A
-- loop is left out as a whole.
unfoldable pub fitting_part : Prog → Prog
fitting_part done = done
fitting_part (basic b z p) = if too_big z then done else basic b z (fitting_part p)
fitting_part (loop body p) = if fits body then loop body (fitting_part p) else done

pub fitting_part-fits : (p : Prog) → fits (fitting_part p) ≡ true
unfolding fits fitting_part
fitting_part-fits done = refl
fitting_part-fits (basic b z p) = elim (Bool-cases (too_big z)) [
  | inl e ↦ rw e
  | inr e ↦ rw e (rw e (fitting_part-fits p))
]
fitting_part-fits (loop body p) = elim (Bool-cases (fits body)) [
  | inl e ↦ rw e (rw e (fitting_part-fits p))
  | inr e ↦ rw e
]

add_sub-stops :
    (m : Mode) (z : ℤ) (c : List ℕ) → too_big z ≡ true → emit_add_sub m z c ≡ (operand_size, c)
unfolding emit_add_sub
add_sub-stops m z c h = elim (Bool-cases (eq_ℤ z (pos 0))) [
  | inl e ↦ absurd (let q = zero_small z e in cc)
  | inr e ↦ rw (e, h)
]

-- A step whose argument does not fit adds no code.
op-stops :
    (b : Basic) (z : ℤ) (c : List ℕ)
    → too_big z ≡ true
    → emit_op (kind_of b) 0 z c ≡ (operand_size, c)
unfolding emit_op emit_code_write emit_code_read
op-stops Basic.tape z c h = add_sub-stops reg_direct z c h
op-stops Basic.cell z c h = add_sub-stops reg_indirect z c h
op-stops Basic.write z c h = rw h
op-stops Basic.read z c h = rw h

and_then-goes :
    (e : Emitted) (stop : Emitted → Emitted) (g : List ℕ → Emitted)
    → e.0 ≡ ok
    → and_then e stop g ≡ g e.1
and_then-goes (err, c) stop g h = rw (h, and_then)

and_then-ends :
    (e : Emitted) (stop : Emitted → Emitted) (g : List ℕ → Emitted)
    → e.0 ≡ operand_size
    → and_then e stop g ≡ stop e
and_then-ends (err, c) stop g h = and_then-stops err c stop g h

op-goes : (b : Basic) (z : ℤ) (c : List ℕ) → too_big z ≡ false → (emit_op (kind_of b) 0 z c).0 ≡ ok
op-goes b z c h = op-Returns b z c ∙ rw h

same_behind :
    (e : Emitted) (stop : Emitted → Emitted) (g g' : List ℕ → Emitted)
    → e.0 ≡ ok
    → ((c : List ℕ) → (g c).1 ≡ (g' c).1)
    → (and_then e stop g).1 ≡ (and_then e stop g').1
same_behind e stop g g' h k =
    ap (λ x. x.1) (and_then-goes e stop g h)
    ∙ k e.1
    ∙ ap (λ x. x.1) (sym (and_then-goes e stop g' h))

-- The code is that of the part that fits, whatever stands before it.
gen-fitting_part : (p : Prog) (c : List ℕ) → (gen p c).1 ≡ (gen (fitting_part p) c).1
unfolding gen fitting_part
gen-fitting_part done c = refl
gen-fitting_part (basic b z p) c = elim (Bool-cases (too_big z)) [
  | inl e ↦ rw e (
      ap (λ x. x.1)
        (and_then-ends (emit_op (kind_of b) 0 z c) (λ x. x) (gen p)
            (ap (λ x. x.0) (op-stops b z c e))
          ∙ op-stops b z c e))
  | inr e ↦ rw e (
      same_behind (emit_op (kind_of b) 0 z c) (λ x. x) (gen p) (gen (fitting_part p))
        (op-goes b z c e) (gen-fitting_part p))
]
gen-fitting_part (loop body p) c = elim (Bool-cases (fits body)) [
  | inl e ↦ rw e (
      same_behind (gen body []) (λ x. (x.0, c)) (λ b. loop_then (gen p) b c)
        (λ b. loop_then (gen (fitting_part p)) b c) (gen-Returns body [] ∙ ap outcome e)
        (λ b. gen-fitting_part p _))
  | inr e ↦ rw e (
      ap (λ x. x.1)
        (and_then-ends (gen body []) (λ x. (x.0, c)) (λ b. loop_then (gen p) b c)
          (gen-Returns body [] ∙ ap outcome e)))
]

-- The compiler on the part that fits.
pub fitting_part-compiles :
    (p : Prog) (before : List ℕ)
    → Holds (ctx (flatten (fitting_part p)) []) (fitting_part p)
    → ir_ctx_compile
        (length (flatten (fitting_part p)) + 2)
        (ctx (flatten (fitting_part p)) [])
        before
      ≡ some (ok, before ++ (push_bytes ++ ((gen (fitting_part p) []).1 ++ exit_bytes)))
fitting_part-compiles p before h =
    let q = fitting_part p in
    let start = before ++ push_bytes in
    let r = gen-Returns q start ∙ ap outcome (fitting_part-fits p) in
    ir_ctx_compile-whole (ctx (flatten q) []) q (length (flatten q) + 2) before h (omega arith)
    ∙ ap (λ e. some e)
        (and_then-goes (gen q start) (λ e. e) (emit_op OpKind.max 0 (pos 0)) r
          ∙ exit-emitted (gen q start).1)
    ∙ ap (λ t. some (ok, t ++ exit_bytes)) (ap (λ e. e.1) (gen-append q start))
    ∙ ap (λ t. some (ok, t))
        (append_assoc start (gen q []).1 exit_bytes
          ∙ append_assoc before push_bytes ((gen q []).1 ++ exit_bytes))

pub ir_ctx_compile-stops :
    (c : Ctx) (p : Prog) (f : ℕ) (before : List ℕ)
    → Holds c p
    → length c.code + 2 ≤ f
    → fits p ≡ false
    → ir_ctx_compile f c before
      ≡ some (operand_size, before ++ (push_bytes ++ (gen (fitting_part p) []).1))
ir_ctx_compile-stops c p f before h lt e =
    let start = before ++ push_bytes in
    let r = gen-Returns p start ∙ ap outcome e in
    ir_ctx_compile-whole c p f before h lt
    ∙ ap (λ e. some e) (and_then-ends (gen p start) (λ e. e) (emit_op OpKind.max 0 (pos 0)) r)
    ∙ ap (λ x. some (x, (gen p start).1)) r
    ∙ ap (λ t. some (operand_size, t))
        (gen-fitting_part p start
          ∙ ap (λ x. x.1) (gen-append (fitting_part p) start)
          ∙ append_assoc before push_bytes (gen (fitting_part p) []).1)
