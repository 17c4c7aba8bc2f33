-- ===== src/Prog/Weight.antt =====
-- A measure of instructions, which bounds their arguments and the length of their code.
use bfcomp.Prelude.{ℕ, ◌+◌, ◌≡◌, ◌≤◌, refl, ap, List, [], ◌∷◌, ◌++◌, arith, length}
use bfcomp.Prelude.Int.{ℤ, pos_part, neg_part}
use bfcomp.Word.{to_i64, neg}
use bfcomp.Ir.{OpKind, Op, op}
use bfcomp.Prog.{Basic, Prog, basic, loop, kind_of, jump, flatten}

abbrev pub size_ℤ : ℤ → ℕ
size_ℤ z = pos_part z + neg_part z

-- A measure of instructions: one for each, and the absolute value of its argument if it is no jump.
abbrev pub kind_weight : OpKind → ℤ → ℕ
kind_weight OpKind.loop_start z = 1
kind_weight OpKind.loop_end z = 1
kind_weight k z = 1 + size_ℤ z

abbrev pub op_weight : Op → ℕ
op_weight o = kind_weight o.kind o.arg

unfoldable pub weight : List Op → ℕ
weight [] = 0
weight (o ∷ os) = op_weight o + weight os

pub weight-append : (xs ys : List Op) → weight (xs ++ ys) ≡ weight xs + weight ys
unfolding weight
weight-append [] ys = omega arith
weight-append (x ∷ xs) ys = omega (arith, weight-append xs ys)

pub weight-kind : (b : Basic) (z : ℤ) → op_weight (op (kind_of b) z) ≡ 1 + size_ℤ z
weight-kind Basic.tape z = refl
weight-kind Basic.cell z = refl
weight-kind Basic.write z = refl
weight-kind Basic.read z = refl

pub weight-basic :
    (b : Basic) (z : ℤ) (p : Prog)
    → weight (flatten (basic b z p)) ≡ 1 + size_ℤ z + weight (flatten p)
unfolding weight flatten
weight-basic b z p = ap (λ n. n + weight (flatten p)) (weight-kind b z)

pub weight-loop :
    (body p : Prog)
    → weight (flatten (loop body p)) ≡ 2 + weight (flatten body) + weight (flatten p)
unfolding weight flatten
weight-loop body p = omega (
  arith,
  weight-append (flatten body)
      (op OpKind.loop_end (to_i64 (neg (jump (length (flatten body))))) ∷ flatten p),
)

pub kind_weight-pos : (k : OpKind) (z : ℤ) → 1 ≤ kind_weight k z
kind_weight-pos OpKind.tape z = omega arith
kind_weight-pos OpKind.cell z = omega arith
kind_weight-pos OpKind.loop_start z = omega arith
kind_weight-pos OpKind.loop_end z = omega arith
kind_weight-pos OpKind.write z = omega arith
kind_weight-pos OpKind.read z = omega arith
kind_weight-pos OpKind.set z = omega arith
kind_weight-pos OpKind.max z = omega arith

pub weight-le : (xs : List Op) → length xs ≤ weight xs
unfolding weight
weight-le [] = omega arith
weight-le (x ∷ xs) = omega (arith, kind_weight-pos x.kind x.arg, weight-le xs)
