-- ===== src/Compile/Errors.antt =====
-- Which result `ir_ctx_compile` of csrc/src/ir_compile.c returns.
use bfcomp.Prelude.{
  ℕ, zero, suc, ◌+◌, ◌<◌, ◌^◌, ◌≤◌, ◌≡◌, refl, sym, ap, ◌∙◌, List, [], ◌++◌, some, Bool, true,
  false, Bool-cases, inl, inr, length, arith, if◌then◌else◌,
}
use bfcomp.Prelude.Int.{ℤ, pos, negsuc}
use bfcomp.Ir.{OpKind, Ctx}
use bfcomp.Prog.{Basic, Prog, done, basic, loop, kind_of, flatten}
use bfcomp.Prog.Placed.{Holds}
use bfcomp.Prog.Weight.{size_ℤ, weight, weight-basic, weight-loop}
use bfcomp.Emit.{
  CompileResult, Emitted, Mode, reg_indirect, reg_direct, ok, operand_size, malformed_loop,
  illegal_state, too_big, emit_other, emit_step, emit_add_sub, eq_ℤ, emit_code_write,
  emit_code_read, emit_code_exit, emit_op, emit_code_loop_start, emit_code_loop_end,
}
use bfcomp.Compile.{ir_ctx_compile}
use bfcomp.Compile.Gen.{and_then, gen}
use bfcomp.Compile.Structure.{whole, ir_ctx_compile-whole}

-- Every argument of an instruction that is no jump is one of `int32_t`.
unfoldable pub fits : Prog → Bool
fits done = true
fits (basic b z p) = if too_big z then false else fits p
fits (loop body p) = if fits body then fits p else false

abbrev pub outcome : Bool → CompileResult
outcome true = ok
outcome false = operand_size

abbrev Returns : (List ℕ → Emitted) → CompileResult → Type 0
Returns f r = (c : List ℕ) → (f c).0 ≡ r

other-Returns :
    (z : ℤ) → Returns (emit_other reg_direct z) ok × Returns (emit_other reg_indirect z) ok
unfolding emit_other
other-Returns z = ((λ c. refl), (λ c. refl))

step-Returns : (n : ℕ) → Returns (emit_step reg_direct n) ok × Returns (emit_step reg_indirect n) ok
unfolding emit_step
step-Returns n = ((λ c. refl), (λ c. refl))

if-Returns :
    (b : Bool) (f g : List ℕ → Emitted) (r : CompileResult)
    → Returns f r
    → Returns g r
    → Returns (λ c. if b then f c else g c) r
if-Returns true f g r h k c = h c
if-Returns false f g r h k c = k c

pub zero_small : (z : ℤ) → eq_ℤ z (pos 0) ≡ true → too_big z ≡ false
unfolding too_big
zero_small (pos zero) e = refl
zero_small (pos (suc n)) e = absurd (ground (arith, e))
zero_small (negsuc n) e = absurd (ground (arith, e))

-- The result of `emit_add_sub`, in a mode whose other cases return no error.
add_sub-Returns :
    (m : Mode) (z : ℤ)
    → ((n : ℕ) → Returns (emit_step m n) ok)
    → Returns (emit_other m z) ok
    → Returns (emit_add_sub m z) (if too_big z then operand_size else ok)
unfolding emit_add_sub
add_sub-Returns m z step other c = elim (Bool-cases (eq_ℤ z (pos 0))) [
  | inl e ↦ rw (e, zero_small z e)
  | inr e ↦ elim (Bool-cases (too_big z)) [
    | inl t ↦ rw (e, t)
    | inr t ↦
        rw (e, t)
          (if-Returns (eq_ℤ z (pos 1)) (emit_step m 0)
            (λ c. if eq_ℤ z (negsuc 0) then emit_step m 1 c else emit_other m z c) ok (step 0)
            (if-Returns (eq_ℤ z (negsuc 0)) (emit_step m 1) (emit_other m z) ok (step 1) other) c)
  ]
]

checked-Returns :
    (b : Bool) (f : List ℕ → List ℕ)
    → Returns (λ c. if b then (operand_size, c) else (ok, f c)) (if b then operand_size else ok)
checked-Returns true f c = refl
checked-Returns false f c = refl

pub op-Returns :
    (b : Basic) (z : ℤ) → Returns (emit_op (kind_of b) 0 z) (if too_big z then operand_size else ok)
unfolding emit_op emit_code_write emit_code_read
op-Returns Basic.tape z = add_sub-Returns reg_direct z (λ n. (step-Returns n).0) (other-Returns z).0
op-Returns Basic.cell z =
    add_sub-Returns reg_indirect z (λ n. (step-Returns n).1) (other-Returns z).1
op-Returns Basic.write z = checked-Returns (too_big z) _
op-Returns Basic.read z = checked-Returns (too_big z) _

pub and_then-stops :
    (err : CompileResult) (c : List ℕ) (stop : Emitted → Emitted) (g : List ℕ → Emitted)
    → err ≡ operand_size
    → and_then (err, c) stop g ≡ stop (err, c)
and_then-stops ok c stop g h = absurd cc
and_then-stops operand_size c stop g h = refl
and_then-stops malformed_loop c stop g h = refl
and_then-stops illegal_state c stop g h = refl

-- What goes on behind code returns, if that was emitted without an error.
then-Returns :
    (e : Emitted) (b b' : Bool) (stop : Emitted → Emitted) (g : List ℕ → Emitted)
    → e.0 ≡ outcome b
    → ((c : List ℕ) → (stop (e.0, c)).0 ≡ e.0)
    → Returns g (outcome b')
    → (and_then e stop g).0 ≡ outcome (if b then b' else false)
then-Returns (err, c) true b' stop g h s k = rw (h, and_then) (k c)
then-Returns (err, c) false b' stop g h s k =
    ap (λ x. x.0) (and_then-stops err c stop g h) ∙ s c ∙ h

branches : (b : Bool) → (if b then operand_size else ok) ≡ outcome (if b then false else true)
branches true = refl
branches false = refl

same_tests :
    (b b' : Bool) → (if b then false else b') ≡ (if (if b then false else true) then b' else false)
same_tests true b' = refl
same_tests false b' = refl

pub gen-Returns : (p : Prog) → Returns (gen p) (outcome (fits p))
unfolding gen fits
gen-Returns done c = refl
gen-Returns (basic b z p) c =
    then-Returns (emit_op (kind_of b) 0 z c) (if too_big z then false else true) (fits p) (λ e. e)
      (gen p) (op-Returns b z c ∙ branches (too_big z)) (λ c. refl) (gen-Returns p)
    ∙ ap outcome (sym (same_tests (too_big z) (fits p)))
gen-Returns (loop body p) c =
    then-Returns (gen body []) (fits body) (fits p) (λ e. (e.0, c))
      (λ inside.
        let loop_code = emit_code_loop_end inside in
        gen p (emit_code_loop_start (length loop_code) c ++ loop_code))
      (gen-Returns body []) (λ c. refl) (λ inside. gen-Returns p _)

exit-Returns : Returns (emit_op OpKind.max 0 (pos 0)) ok
unfolding emit_op emit_code_exit too_big
exit-Returns c = refl

whole-Returns : (p : Prog) (bytes : List ℕ) → (whole p bytes).0 ≡ outcome (fits p)
whole-Returns p bytes =
    then-Returns (gen p _) (fits p) true (λ e. e) (emit_op OpKind.max 0 (pos 0)) (gen-Returns p _)
      (λ c. refl) exit-Returns
    ∙ ap outcome (and_true (fits p))
  where
    and_true : (b : Bool) → (if b then true else false) ≡ b
    and_true true = refl
    and_true false = refl

-- With the layout of a well-nested program as its instructions, fewer than 2^63 with the halt, and fuel
-- for two more of them, the compiler ends, whatever code stands before. It returns no error if all the
-- arguments of the instructions that are no jumps are numbers of 32 bits, with their sign, and the one for
-- the size of an operand if not; it never returns another error.
pub ir_ctx_compile-outcome :
    (c : Ctx) (p : Prog) (f : ℕ) (bytes : List ℕ)
    → Holds c p
    → length c.code + 2 ≤ f
    → (code : List ℕ) × (ir_ctx_compile f c bytes ≡ some (outcome (fits p), code))
ir_ctx_compile-outcome c p f bytes h lt = (
  (whole p bytes).1,
  ir_ctx_compile-whole c p f bytes h lt
      ∙ ap (λ r. some (r, (whole p bytes).1)) (whole-Returns p bytes),
)

small_argument : (z : ℤ) → size_ℤ z < 2 ^ 31 → too_big z ≡ false
unfolding too_big
small_argument (pos n) h = ground arith
small_argument (negsuc n) h = ground arith

-- Arguments are bounded by the measure of the instructions.
pub weight-fits : (p : Prog) → weight (flatten p) < 2 ^ 31 → fits p ≡ true
unfolding fits
weight-fits done h = refl
weight-fits (basic b z p) h =
    rw (small_argument z (omega (arith, weight-basic b z p, h)))
      (weight-fits p (omega (arith, weight-basic b z p, h)))
weight-fits (loop body p) h =
    rw (weight-fits body (omega (arith, weight-loop body p, h)))
      (weight-fits p (omega (arith, weight-loop body p, h)))
