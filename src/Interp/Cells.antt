-- ===== src/Interp/Cells.antt =====
-- Two steps on one cell, one after the other, in the interpreter of csrc/src/ir_interpret.c.
use bfcomp.Prelude.{
  ℕ, zero, suc, ◌+◌, ◌-◌, ◌*◌, ◌/◌, ◌%◌, ◌^◌, ◌≡◌, refl, ap, ◌∙◌, List, [], ◌∷◌, Option, none, some,
  arith, get_elem?, set, ltb, if◌then◌else◌, Option-cases, inl, inr, fun_ext,
}
use bfcomp.Prelude.Int.{ℤ, pos, negsuc, pos_part, neg_part, ◌+ℤ◌, int_laws}
use bfcomp.Word.{to_u8, to_i64, to_u64, signed64}
use bfcomp.Ir.{OpKind}
use bfcomp.Interp.{Store, load, load_at, store_at, update, act}

-- Two integers that differ by a multiple of 256 leave the same byte.
to_u8-congruent :
    (x y : ℤ) (k l : ℕ)
    → pos_part x + neg_part y + 256 * k ≡ pos_part y + neg_part x + 256 * l
    → to_u8 x ≡ to_u8 y
unfolding to_u8
to_u8-congruent (pos a) (pos b) k l h = omega arith
to_u8-congruent (pos a) (negsuc b) k l h = omega arith
to_u8-congruent (negsuc a) (pos b) k l h = omega arith
to_u8-congruent (negsuc a) (negsuc b) k l h = omega arith

to_u8-parts : (z : ℤ) → (k : ℕ) × (l : ℕ) × (to_u8 z + neg_part z + 256 * k ≡ pos_part z + 256 * l)
unfolding to_u8
to_u8-parts (pos n) = (n / 256, 0, omega arith)
to_u8-parts (negsuc n) = (0, n / 256 + 1, omega arith)

to_i64-parts :
    (z : ℤ)
    → (k : ℕ) × (l : ℕ) × (pos_part (to_i64 z) + neg_part z + 256 * k
        ≡ pos_part z + neg_part (to_i64 z) + 256 * l)
unfolding to_i64 to_u64 signed64
to_i64-parts (pos n) =
    ((n / 2 ^ 64 + 1) * 2 ^ 56, if ltb (n % 2 ^ 64) (2 ^ 63) then 2 ^ 56 else 0, ground arith)
to_i64-parts (negsuc n) = (
  if ltb (2 ^ 64 - 1 - n % 2 ^ 64) (2 ^ 63) then 0 else 2 ^ 56,
  (n / 2 ^ 64 + 1) * 2 ^ 56,
  ground arith,
)

-- A byte plus two arguments, one after the other or joined.
byte-joined :
    (v : ℕ) (a d : ℤ)
    → to_u8 (pos (to_u8 (pos v +ℤ a)) +ℤ to_i64 d) ≡ to_u8 (pos v +ℤ to_i64 (a +ℤ d))
byte-joined v a d =
    let first = to_u8-parts (pos v +ℤ a) in
    let second = to_i64-parts d in
    let joined = to_i64-parts (a +ℤ d) in
    to_u8-congruent _ _ (first.0 + second.0 + joined.1) (first.1 + second.1 + joined.0)
      (omega (int_laws, first.2, second.2, joined.2))

set-set : (xs : List ℕ) (i u v : ℕ) → set (set xs i u) i v ≡ set xs i v
set-set [] i u v = refl
set-set (x ∷ xs) zero u v = refl
set-set (x ∷ xs) (suc i) u v = ap (λ t. x ∷ t) (set-set xs i u v)

get_elem?-set_found :
    (xs : List ℕ) (i v w : ℕ) → get_elem? xs i ≡ some v → get_elem? (set xs i w) i ≡ some w
get_elem?-set_found [] i v w e = absurd cc
get_elem?-set_found (x ∷ xs) zero v w e = refl
get_elem?-set_found (x ∷ xs) (suc i) v w e = get_elem?-set_found xs i v w e

-- One step, and then another on what it leaves.
abbrev pub then_act : Option Store → (Store → Option Store) → Option Store
then_act none f = none
then_act (some s) f = f s

module _ (f g : ℕ → ℕ) (cells input output : List ℕ) where
  abbrev at_cell : ℤ → List ℕ → Store
  at_cell sp cs = record { sp = sp; cells = cs; input = input; output = output }

  update-found :
      (i v : ℕ)
      → get_elem? cells i ≡ some v
      → then_act (update f (at_cell (pos i) cells)) (update g)
        ≡ update (λ x. g (f x)) (at_cell (pos i) cells)
  unfolding update load load_at store_at
  update-found i v e =
      rw e
        (rw (update, load, get_elem?-set_found cells i v (f v) e, set-set cells i (f v) (g (f v))))

  update-missing :
      (i : ℕ)
      → get_elem? cells i ≡ none
      → then_act (update f (at_cell (pos i) cells)) (update g)
        ≡ update (λ x. g (f x)) (at_cell (pos i) cells)
  unfolding update load load_at store_at
  update-missing i e = rw e

  update-update :
      (sp : ℤ)
      → then_act (update f (at_cell sp cells)) (update g) ≡ update (λ x. g (f x)) (at_cell sp cells)
  update-update (pos i) = elim (Option-cases (get_elem? cells i)) [
    | inl e ↦ update-missing i e
    | inr (v, e) ↦ update-found i v e
  ]
  update-update (negsuc n) = unfold update load load_at in refl

-- Two steps on a cell are the step that `accumulate` joins them to, also where an argument
-- wraps around.
pub act-cell_joined :
    (a d : ℤ) (s : Store)
    → then_act (act OpKind.cell a s) (act OpKind.cell (to_i64 d))
      ≡ act OpKind.cell (to_i64 (a +ℤ d)) s
unfolding act
act-cell_joined a d s =
    update-update (λ v. to_u8 (pos v +ℤ a)) (λ v. to_u8 (pos v +ℤ to_i64 d)) s.cells s.input
      s.output s.sp
    ∙ ap (λ f. update f s) (fun_ext (λ v. byte-joined v a d))
