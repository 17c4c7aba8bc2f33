-- ===== src/Ir.antt =====
-- The intermediate representation: csrc/include/ir_gen.h. A `vec_t(ir_op_t)` is the list of its
-- elements, and the chain of `ir_patch_t` is the list of the addresses, innermost loop first.
use bfcomp.Prelude.{ℕ, ◌≡◌, List, [], ◌∷◌, ◌++◌, Option, none, some, refl, Bool, ◌==◌}
use bfcomp.Prelude.Int.{ℤ}

-- `ir_op_kind_t`. The last one, `IR_OP_MAX`, is the halt instruction.
pub data OpKind : Type 0 where
  tape cell loop_start loop_end write read set max : OpKind

-- `ir_op_t`
pub record Op : Type 0 where
  pub kind : OpKind
  pub arg : ℤ

abbrev pub op : OpKind → ℤ → Op
op k z = record { kind = k; arg = z }

-- `ir_ctx`
pub record Ctx : Type 0 where
  pub code : List Op
  pub patch : List ℕ

abbrev pub ctx : List Op → List ℕ → Ctx
ctx c p = record { code = c; patch = p }

abbrev pub empty_ctx : Ctx
empty_ctx = ctx [] []

-- `==` on kinds.
abbrev pub code_of : OpKind → ℕ
code_of OpKind.tape = 0
code_of OpKind.cell = 1
code_of OpKind.loop_start = 2
code_of OpKind.loop_end = 3
code_of OpKind.write = 4
code_of OpKind.read = 5
code_of OpKind.set = 6
code_of OpKind.max = 7

abbrev pub same_kind : OpKind → OpKind → Bool
same_kind a b = code_of a == code_of b

-- `vec_last(ctx)`, where the vector is not empty, and the assignment to it.
module _ {ℓ} {A : Type ℓ} where
  abbrev pub last? : List A → Option A
  last? [] = none
  last? (x ∷ []) = some x
  last? (x ∷ y ∷ xs) = last? (y ∷ xs)

  abbrev pub set_last : List A → A → List A
  set_last [] v = []
  set_last (x ∷ []) v = v ∷ []
  set_last (x ∷ y ∷ xs) v = x ∷ set_last (y ∷ xs) v

  pub last?-append : (xs : List A) (x : A) → last? (xs ++ x ∷ []) ≡ some x
  last?-append [] x = refl
  last?-append (y ∷ []) x = refl
  last?-append (y ∷ z ∷ xs) x = last?-append (z ∷ xs) x

  pub set_last-append : (xs : List A) (x v : A) → set_last (xs ++ x ∷ []) v ≡ xs ++ v ∷ []
  set_last-append [] x v = refl
  set_last-append (y ∷ []) x v = refl
  set_last-append (y ∷ z ∷ xs) x v = λ i. y ∷ set_last-append (z ∷ xs) x v i
