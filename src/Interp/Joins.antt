-- ===== src/Interp/Joins.antt =====
-- The steps on a cell that the parser of csrc/src/ir_gen.c joins, run by the interpreter.
use bfcomp.Prelude.{
  ℕ, ◌+◌, ◌^◌, ◌<◌, ◌≤◌, ◌≡◌, refl, sym, ap, ◌∙◌, ◌↔◌, List, [], ◌∷◌, Option, none, some, arith,
  length, length-append, Bool-cases, inl, inr,
}
use bfcomp.Prelude.Int.{ℤ, ◌+ℤ◌}
use bfcomp.Word.{to_i64}
use bfcomp.Ir.{OpKind, Op, op, Ctx, same_kind}
use bfcomp.Prog.{Basic, Prog, done, basic, loop, kind_of, flatten, seq, join_last}
use bfcomp.Prog.Laws.{flatten-seq}
use bfcomp.Prog.Placed.{Holds}
use bfcomp.Parse.{push_op, accumulate}
use bfcomp.Parse.Merge.{merged, code-accumulate, merged-flatten}
use bfcomp.Interp.{Store, act, halted, reset, ir_interpret}
use bfcomp.Interp.Exec.{Exec, acts, skips, again}
use bfcomp.Interp.Cells.{then_act, act-cell_joined}
use bfcomp.Interp.Refine.{ir_interpret-Exec}

acts-first :
    (b : Basic) (z : ℤ) (p : Prog) (s t : Store)
    → Exec (basic b z p) s t
    → (mid : Store) × (act (kind_of b) z s ≡ some mid) × Exec p mid t
acts-first b z p s t (acts {s₁} e r) = (s₁, e, r)

-- A program behind a loop is replaced by another.
behind_loop :
    (body p q : Prog)
    → ((s t : Store) → Exec p s t → Exec q s t)
    → (s t : Store) → Exec (loop body p) s t
    → Exec (loop body q) s t
behind_loop body p q h s t (skips e r) = skips e (h s t r)
behind_loop body p q h s t (again {s₁} v e d r) = again v e d (behind_loop body p q h s₁ t r)

then_act-some :
    (o : Option Store) (f : Store → Option Store) (t : Store)
    → then_act o f ≡ some t
    → (mid : Store) × (o ≡ some mid) × (f mid ≡ some t)
then_act-some none f t e = absurd cc
then_act-some (some s) f t e = (s, refl, e)

module _ (d : ℤ) where
  abbrev step : Prog
  step = basic Basic.cell (to_i64 d) done

  abbrev joined : Prog → Prog
  joined p = join_last Basic.cell d p

  split_cell :
      (z : ℤ) (s t : Store)
      → Exec (basic Basic.cell (to_i64 (z +ℤ d)) done) s t
      → Exec (basic Basic.cell z step) s t
  split_cell z s t x =
      let r = acts-first Basic.cell _ done s t x in
      let w =
        then_act-some (act OpKind.cell z s) (act OpKind.cell (to_i64 d)) r.0
          (act-cell_joined z d s ∙ r.1) in
      acts w.1 (acts w.2 r.2)

  join_cell :
      (z : ℤ) (s t : Store)
      → Exec (basic Basic.cell z step) s t
      → Exec (basic Basic.cell (to_i64 (z +ℤ d)) done) s t
  join_cell z s t x =
      let r = acts-first Basic.cell z step s t x in
      let r' = acts-first Basic.cell _ done r.0 t r.2 in
      acts
        (sym (act-cell_joined z d s) ∙ ap (λ o. then_act o (act OpKind.cell (to_i64 d))) r.1 ∙ r'.1)
        r'.2

  joined-apart : (p : Prog) (s t : Store) → Exec (joined p) s t → Exec (seq p step) s t
  unfolding join_last seq
  joined-apart done s t x = x
  joined-apart (basic Basic.cell z done) s t x = split_cell z s t x
  joined-apart (basic Basic.tape z done) s t x = x
  joined-apart (basic Basic.write z done) s t x = x
  joined-apart (basic Basic.read z done) s t x = x
  joined-apart (basic b z (basic b' z' p)) s t x =
      let r = acts-first b z (joined (basic b' z' p)) s t x in
      acts r.1 (joined-apart (basic b' z' p) r.0 t r.2)
  joined-apart (basic b z (loop body p)) s t x =
      let r = acts-first b z (joined (loop body p)) s t x in
      acts r.1 (joined-apart (loop body p) r.0 t r.2)
  joined-apart (loop body p) s t x =
      behind_loop body (joined p) (seq p step) (λ s t. joined-apart p s t) s t x

  apart-joined : (p : Prog) (s t : Store) → Exec (seq p step) s t → Exec (joined p) s t
  unfolding join_last seq
  apart-joined done s t x = x
  apart-joined (basic Basic.cell z done) s t x = join_cell z s t x
  apart-joined (basic Basic.tape z done) s t x = x
  apart-joined (basic Basic.write z done) s t x = x
  apart-joined (basic Basic.read z done) s t x = x
  apart-joined (basic b z (basic b' z' p)) s t x =
      let r = acts-first b z (seq (basic b' z' p) step) s t x in
      acts r.1 (apart-joined (basic b' z' p) r.0 t r.2)
  apart-joined (basic b z (loop body p)) s t x =
      let r = acts-first b z (seq (loop body p) step) s t x in
      acts r.1 (apart-joined (loop body p) r.0 t r.2)
  apart-joined (loop body p) s t x =
      behind_loop body (seq p step) (joined p) (λ s t. apart-joined p s t) s t x

length-merged : (k : OpKind) (d : ℤ) (xs : List Op) → length (merged k d xs) ≤ length xs + 1
unfolding merged
length-merged k d [] = omega arith
length-merged k d (x ∷ []) = elim (Bool-cases (same_kind x.kind k)) [
  | inl e ↦ rw e (omega arith)
  | inr e ↦ rw e (omega arith)
]
length-merged k d (x ∷ y ∷ xs) = omega (arith, length-merged k d (y ∷ xs))

module _ (c : Ctx) (p : Prog) (d : ℤ) (h : Holds c p) (fits : length c.code + 2 < 2 ^ 63) where
  code-joined : (accumulate OpKind.cell d c).code ≡ merged OpKind.cell d c.code
  unfolding accumulate
  code-joined = code-accumulate OpKind.cell d c.code c.patch

  accumulate-Holds : Holds (accumulate OpKind.cell d c) (join_last Basic.cell d p)
  accumulate-Holds = record {
    layout = code-joined ∙ ap (merged OpKind.cell d) h.layout ∙ merged-flatten Basic.cell d p;
    fits = omega (arith, ap length code-joined, length-merged OpKind.cell d c.code);
  }

  push_op-Holds : Holds (push_op OpKind.cell d c) (seq p (basic Basic.cell (to_i64 d) done))
  unfolding push_op flatten
  push_op-Holds = record {
    layout = rw (h.layout, flatten-seq);
    fits = omega (arith, length-append c.code (op OpKind.cell (to_i64 d) ∷ []));
  }

  -- Behind a well-nested program of fewer than 2^63 - 2 instructions, joining a step on a cell with
  -- the last instruction changes nothing of what the interpreter does, compared to an instruction of
  -- its own: also where the joined argument wraps around, it halts with the same stores.
  pub accumulate-cell :
      (s t : Store)
      → ((f : ℕ) × (ir_interpret f (accumulate OpKind.cell d c) s ≡ halted t))
        ↔ ((f : ℕ) × (ir_interpret f (push_op OpKind.cell d c) s ≡ halted t))
  accumulate-cell s t =
      let one =
        ir_interpret-Exec (accumulate OpKind.cell d c) (join_last Basic.cell d p) accumulate-Holds s
          t in
      let two =
        ir_interpret-Exec (push_op OpKind.cell d c) (seq p (basic Basic.cell (to_i64 d) done))
          push_op-Holds s t in
      (
        (λ r. two.0 (joined-apart d p (reset s) t (one.1 r))),
        (λ r. one.0 (apart-joined d p (reset s) t (two.1 r))),
      )
