-- ===== src/Interp/Brackets.antt =====
-- The steps of the machine at an instruction of a well-nested program, and at the brackets of a
-- loop.
use bfcomp.Prelude.{ℕ, suc, ◌≡◌, refl, ◌∙◌, List, none, some, get_elem?}
use bfcomp.Prelude.Int.{ℤ}
use bfcomp.Ir.{Op, op}
use bfcomp.Prog.{Basic, Prog, loop, kind_of, flatten}
use bfcomp.Interp.{Store, at, running, fault, loop_ip, branch, proceed, load, act, dispatch, step}
use bfcomp.Prog.Placed.{close_at, parts, next-at, next-over, next-back, HasAt, IsShort}

-- The store after an instruction that is no jump.
pub dispatch-basic :
    (b : Basic) (z : ℤ) (i : ℕ) (s : Store)
    → dispatch (kind_of b) z (at i s) ≡ proceed i (act (kind_of b) z s)
unfolding dispatch
dispatch-basic Basic.tape z i s = refl
dispatch-basic Basic.cell z i s = refl
dispatch-basic Basic.write z i s = refl
dispatch-basic Basic.read z i s = refl

module _ (code : List Op) (short : IsShort code) where
  pub step-at :
      (i : ℕ) (s : Store) (o : Op)
      → get_elem? code i ≡ some o
      → step code (at i s) ≡ dispatch o.kind o.arg (at i s)
  unfolding step
  step-at i s o h = rw (h, step)

  pub step-basic_fault :
      (b : Basic) (z : ℤ) (i : ℕ) (s : Store)
      → get_elem? code i ≡ some (op (kind_of b) z)
      → act (kind_of b) z s ≡ none
      → step code (at i s) ≡ fault
  unfolding proceed
  step-basic_fault b z i s h e = step-at i s _ h ∙ dispatch-basic b z i s ∙ rw (e, proceed)

  pub step-basic :
      (b : Basic) (z : ℤ) (i : ℕ) (s s' : Store)
      → get_elem? code i ≡ some (op (kind_of b) z)
      → act (kind_of b) z s ≡ some s'
      → step code (at i s) ≡ running (at (suc i) s')
  unfolding proceed
  step-basic b z i s s' h e =
      step-at i s _ h ∙ dispatch-basic b z i s ∙ rw (e, proceed, next-at code short i _ h)

-- The four ways past the brackets of a loop that stands at `i`.
module _ (code : List Op) (short : IsShort code) (i : ℕ) (body p : Prog)
    (here : HasAt code i (flatten (loop body p))) where
  module _ (s : Store) where
    pub step-skip_start :
        load s ≡ some 0 → step code (at i s) ≡ running (at (suc (close_at code i body p here)) s)
    unfolding dispatch branch loop_ip
    step-skip_start e =
        step-at code short i s _ (parts code i body p here).0
        ∙ rw (e, branch, next-over code i body p here short)

    pub step-skip_end :
        load s ≡ some 0
        → step code (at (close_at code i body p here) s)
          ≡ running (at (suc (close_at code i body p here)) s)
    unfolding dispatch branch loop_ip
    step-skip_end e =
        step-at code short (close_at code i body p here) s _ (parts code i body p here).2
        ∙ rw (
          e,
          branch,
          next-at code short (close_at code i body p here) _ (parts code i body p here).2,
        )

    pub step-enter : (v : ℕ) → load s ≡ some (suc v) → step code (at i s) ≡ running (at (suc i) s)
    unfolding dispatch branch loop_ip
    step-enter v e =
        step-at code short i s _ (parts code i body p here).0
        ∙ rw (e, branch, next-at code short i _ (parts code i body p here).0)

    pub step-back :
        (v : ℕ)
        → load s ≡ some (suc v)
        → step code (at (close_at code i body p here) s) ≡ running (at (suc i) s)
    unfolding dispatch branch loop_ip
    step-back v e =
        step-at code short (close_at code i body p here) s _ (parts code i body p here).2
        ∙ rw (e, branch, next-back code i body p here short)

    pub step-fault_start : load s ≡ none → step code (at i s) ≡ fault
    unfolding dispatch branch
    step-fault_start e = step-at code short i s _ (parts code i body p here).0 ∙ rw (e, branch)

    pub step-fault_end : load s ≡ none → step code (at (close_at code i body p here) s) ≡ fault
    unfolding dispatch branch
    step-fault_end e =
        step-at code short (close_at code i body p here) s _ (parts code i body p here).2
        ∙ rw (e, branch)
