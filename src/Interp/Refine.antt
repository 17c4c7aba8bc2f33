-- ===== src/Interp/Refine.antt =====
-- The interpreter against the specification.
use bfcomp.Prelude.{
  ℕ, zero, suc, ◌+◌, ◌≡◌, subst, ◌∙◌, List, [], ◌∷◌, some, arith, get_elem?, length-append,
}
use bfcomp.Prelude.Int.{pos}
use bfcomp.Ir.{OpKind, Op, op, Ctx}
use bfcomp.Prog.{Prog, flatten}
use bfcomp.Prog.Placed.{Holds, HasAt, HasAt-start, IsShort, behind, get_elem?-append_right}
use bfcomp.Interp.{Store, at, halted, dispatch, step, run, push_halt, ir_interpret}
use bfcomp.Interp.Exec.{Exec}
use bfcomp.Prelude.{◌↔◌}
use bfcomp.Interp.{reset}
use native.Mathlib.Nat.{zero-add}
use bfcomp.Interp.Forward.{Exec-both}
use bfcomp.Interp.Inversion.{run_inversion}

module _ (c : Ctx) (p : Prog) (h : Holds c p) where
  abbrev code : List Op
  code = (push_halt c).code

  short : IsShort code
  unfolding push_halt
  short = omega (arith, length-append c.code (op OpKind.max (pos 0) ∷ []), h.fits)

  program_here : HasAt code 0 (flatten p)
  unfolding push_halt
  program_here = rw h.layout (HasAt-start (flatten p) (op OpKind.max (pos 0) ∷ []))

  halt_here : get_elem? code (behind 0 p) ≡ some (op OpKind.max (pos 0))
  unfolding push_halt
  halt_here = rw (h.layout, zero-add) (get_elem?-append_right (flatten p) _ [])

  run-halt : (f : ℕ) (s : Store) → run (suc f) code (at (behind 0 p) s) ≡ halted s
  unfolding run step dispatch
  run-halt f s = rw (run, step, halt_here)

  halted_store : (f : ℕ) (s s' : Store) → run f code (at (behind 0 p) s) ≡ halted s' → s ≡ s'
  halted_store zero s s' e = unfold run in cc
  halted_store (suc f) s s' e = cc (run-halt f s)

  -- With the layout of a program as its instructions, fewer than 2^63 with the halt, the interpreter
  -- halts for some fuel with a store exactly when the structured semantics, from the same streams and
  -- tape with `sp` at cell 0, gives this store.
  pub ir_interpret-Exec :
      (s s' : Store) → Exec p (reset s) s' ↔ ((f : ℕ) × (ir_interpret f c s ≡ halted s'))
  unfolding ir_interpret
  ir_interpret-Exec s s' = (forward, backward)
    where
      forward : Exec p (reset s) s' → (f : ℕ) × (ir_interpret f c s ≡ halted s')
      forward d =
          let r = (Exec-both code short d 0 program_here).0 in
          (r.rounds + 1, r.same 1 ∙ run-halt 0 s')

      backward : ((f : ℕ) × (ir_interpret f c s ≡ halted s')) → Exec p (reset s) s'
      backward (f, e) =
          let r = (run_inversion code short s' f).0 f (omega arith) p 0 (reset s) program_here e in
          subst (λ t. Exec p (reset s) t) (halted_store r.left r.between s' r.rest) r.exec
