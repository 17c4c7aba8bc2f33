-- ===== src/Parse/Weight.antt =====
-- How much a text adds to the measure of the instructions of `ir_ctx_parse` (csrc/src/ir_gen.c).
use bfcomp.Prelude.{
  ℕ, zero, suc, ◌+◌, ◌*◌, ◌≡◌, ◌<◌, ◌≤◌, refl, ap, inl, inr, List, [], ◌∷◌, Option, none, some,
  ◌==◌, Bool-cases, length, drop, length-drop, set, arith,
}
use bfcomp.Prelude.Int.{ℤ, pos, negsuc, ◌+ℤ◌, ◌-ℤ◌}
use bfcomp.Word.{to_i64, neg}
use bfcomp.Ir.{OpKind, Op, op, Ctx, same_kind}
use bfcomp.Prog.{Basic, kind_of}
use bfcomp.Prog.Weight.{size_ℤ, kind_weight, weight, weight-append, weight-kind, kind_weight-pos}
use bfcomp.Parse.{
  Flow, advance, reject, run_length, count_char, push_op, accumulate, open_loop, close_loop,
  parse_char, parse_loop, ir_ctx_parse,
}
use bfcomp.Parse.Round.{parse_char_counted}
use bfcomp.Parse.Merge.{merged, code-accumulate}

size-to_i64 : (z : ℤ) → size_ℤ (to_i64 z) ≤ size_ℤ z
unfolding to_i64
size-to_i64 (pos n) = ground arith
size-to_i64 (negsuc n) = ground arith

size-+ℤ : (a b : ℤ) → size_ℤ (a +ℤ b) ≤ size_ℤ a + size_ℤ b
unfolding ◌+ℤ◌
size-+ℤ (pos n) (pos m) = ground arith
size-+ℤ (pos n) (negsuc m) = ground arith
size-+ℤ (negsuc n) (pos m) = ground arith
size-+ℤ (negsuc n) (negsuc m) = ground arith

kind_weight-le :
    (k : OpKind) (a b : ℤ) (n : ℕ) → size_ℤ b ≤ size_ℤ a + n → kind_weight k b ≤ kind_weight k a + n
kind_weight-le OpKind.tape a b n h = omega arith
kind_weight-le OpKind.cell a b n h = omega arith
kind_weight-le OpKind.loop_start a b n h = omega arith
kind_weight-le OpKind.loop_end a b n h = omega arith
kind_weight-le OpKind.write a b n h = omega arith
kind_weight-le OpKind.read a b n h = omega arith
kind_weight-le OpKind.set a b n h = omega arith
kind_weight-le OpKind.max a b n h = omega arith

weight-new : (b : Basic) (z : ℤ) → weight (op (kind_of b) (to_i64 z) ∷ []) ≤ 1 + size_ℤ z
unfolding weight
weight-new b z = omega (arith, weight-kind b (to_i64 z), size-to_i64 z)

weight-merged :
    (b : Basic) (d : ℤ) (xs : List Op)
    → weight (merged (kind_of b) d xs) ≤ weight xs + (1 + size_ℤ d)
unfolding merged weight
weight-merged b d [] = omega (arith, weight-new b d)
weight-merged b d (x ∷ []) = elim (Bool-cases (same_kind x.kind (kind_of b))) [
  | inl e ↦ rw e (
      omega (
        arith,
        kind_weight-le x.kind x.arg (to_i64 (x.arg +ℤ d)) (size_ℤ d)
            (omega (arith, size-to_i64 (x.arg +ℤ d), size-+ℤ x.arg d)),
      ))
  | inr e ↦ rw e (omega (arith, weight-kind b (to_i64 d), size-to_i64 d))
]
weight-merged b d (x ∷ y ∷ xs) = omega (arith, weight-merged b d (y ∷ xs))

weight-set : (xs : List Op) (i : ℕ) (z : ℤ) → weight (set xs i (op OpKind.loop_start z)) ≤ weight xs
unfolding weight
weight-set [] i z = omega arith
weight-set (x ∷ xs) zero z = omega (arith, kind_weight-pos x.kind x.arg)
weight-set (x ∷ xs) (suc i) z = omega (arith, weight-set xs i z)

last_one : (z : ℤ) → weight (op OpKind.loop_end z ∷ []) ≡ 1
unfolding weight
last_one z = refl

-- A round takes at most as many characters as were counted, and adds at most two for each.
abbrev Adds : ℕ → ℕ → Flow → Type 0
Adds m w (advance n c) = (0 < n) × (n ≤ m) × (weight c.code ≤ w + 2 * n)
Adds m w (reject c) = weight c.code ≤ w

module _ (c : Ctx) where
  push_op-weight :
      (b : Basic) (z : ℤ) (n : ℕ)
      → size_ℤ z ≤ n
      → 0 < n
      → weight (push_op (kind_of b) z c).code ≤ weight c.code + 2 * n
  unfolding push_op
  push_op-weight b z n h h' =
      omega (arith, weight-append c.code (op (kind_of b) (to_i64 z) ∷ []), weight-new b z)

  accumulate-weight :
      (b : Basic) (z : ℤ) (n : ℕ)
      → size_ℤ z ≤ n
      → 0 < n
      → weight (accumulate (kind_of b) z c).code ≤ weight c.code + 2 * n
  unfolding accumulate
  accumulate-weight b z n h h' =
      omega
        (arith, ap weight (code-accumulate (kind_of b) z c.code c.patch), weight-merged b z c.code)

  open_loop-weight : weight (open_loop c).code ≤ weight c.code + 2 * 1
  unfolding open_loop weight
  open_loop-weight = omega (arith, weight-append c.code (op OpKind.loop_start (pos 0) ∷ []))

  close_loop-Adds : (m : ℕ) (p : List ℕ) → 0 < m → Adds m (weight c.code) (close_loop c p)
  unfolding close_loop
  close_loop-Adds m [] h = omega arith
  close_loop-Adds m (a ∷ p) h =
      let delta = to_i64 (pos (length c.code) -ℤ pos a) in
      (
        omega arith,
        omega arith,
        omega (
          arith,
          weight-append (set c.code a (op OpKind.loop_start delta))
              (op OpKind.loop_end (to_i64 (neg delta)) ∷ []),
          weight-set c.code a delta,
          last_one (to_i64 (neg delta)),
        ),
      )

  parse_char-Adds : (x n : ℕ) → 0 < n → Adds n (weight c.code) (parse_char x n c)
  parse_char-Adds x n h = parse_char_counted (Adds n (weight c.code)) x n c (record {
    pushes = λ b z s. (h, omega arith, push_op-weight b z n s h);
    joins = λ b z s. (h, omega arith, accumulate-weight b z n s h);
    opens = (omega arith, omega arith, open_loop-weight);
    closes = close_loop-Adds n c.patch h;
    skips = (h, omega arith, omega arith);
  })

pub run_length-le : (xs : List ℕ) (c : ℕ) → run_length xs c ≤ length xs
unfolding run_length
run_length-le [] c = omega arith
run_length-le (x ∷ xs) c = elim (Bool-cases (x == c)) [
  | inl e ↦ rw e (omega (arith, run_length-le xs c))
  | inr e ↦ rw e (omega arith)
]

-- A result whose instructions have a bounded measure.
abbrev pub ResultWeight : ℕ → Option (Ctx × ℕ) → Type 0
ResultWeight w none = Unit
ResultWeight w (some (c, r)) = weight c.code ≤ w

pub ResultWeight-mono :
    (w w' : ℕ) (o : Option (Ctx × ℕ)) → w ≤ w' → ResultWeight w o → ResultWeight w' o
ResultWeight-mono w w' none h k = tt
ResultWeight-mono w w' (some (c, r)) h k = omega (arith, h, k)

after_round-weight :
    (go : ℕ → Ctx → Option (Ctx × ℕ)) (fl : Flow) (m w total : ℕ)
    → Adds m w fl
    → w ≤ total
    → ((n : ℕ) (c : Ctx) → 0 < n → n ≤ m → weight c.code ≤ w + 2 * n → ResultWeight total (go n c))
    → ResultWeight total (elim fl [ advance n c ↦ go n c | reject c ↦ some (c, 1) ])
after_round-weight go (advance n c) m w total k le h = h n c k.0 k.1 k.2
after_round-weight go (reject c) m w total k le h = omega (arith, k, le)

parse_loop-weight :
    (f : ℕ) (src : List ℕ) (c : Ctx)
    → ResultWeight (weight c.code + 2 * length src) (parse_loop f src c)
unfolding parse_loop count_char
parse_loop-weight zero src c = tt
parse_loop-weight (suc f) [] c = omega arith
parse_loop-weight (suc f) (x ∷ xs) c = elim (Bool-cases (x == 0)) [
  | inl e ↦ rw e (omega arith)
  | inr e ↦ rw e (
      after_round-weight _ (parse_char x (suc (run_length xs x)) c) (suc (run_length xs x))
        (weight c.code) _ (parse_char-Adds c x (suc (run_length xs x)) (omega arith)) (omega arith)
        (λ n c' p le k.
          ResultWeight-mono _ _ (parse_loop f (drop n (x ∷ xs)) c')
            (omega (arith, k, le, run_length-le xs x, length-drop n (x ∷ xs)))
            (parse_loop-weight f (drop n (x ∷ xs)) c')))
]

-- Parsing a text, whether it is accepted or not, adds at most two for each of its characters to the sum
-- of the number of instructions and the absolute values of the arguments that are no jumps.
pub ir_ctx_parse-weight :
    (c : Ctx) (src : List ℕ) → ResultWeight (weight c.code + 2 * length src) (ir_ctx_parse c src)
unfolding ir_ctx_parse
ir_ctx_parse-weight c src = parse_loop-weight (suc (length src)) src c
