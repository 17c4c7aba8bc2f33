-- ===== src/Interp/Forward.antt =====
-- From the structured semantics to the machine of csrc/src/ir_interpret.c.
use bfcomp.Prelude.{ℕ, suc, ◌+◌, ◌≡◌, sym, subst, List, length}
use bfcomp.Ir.{Op}
use bfcomp.Prog.{Prog, loop, flatten}
use bfcomp.Prog.Placed.{
  HasAt, IsShort, parts, behind-loop, behind, behind-done, behind-basic, basic-here,
}
use bfcomp.Interp.{Store, Machine, at}
use bfcomp.Interp.Flow.{Reaches, Reaches-refl, Reaches-trans, Reaches-step}
use bfcomp.Interp.Exec.{Exec, ends, acts, skips, again}
use bfcomp.Interp.Brackets.{step-basic, step-skip_start, step-skip_end, step-enter, step-back}

-- The machine that comes to the closing bracket of the loop at the head of a program.
abbrev pub FromEnd : List Op → ℕ → Prog → Store → Machine → Type 0
FromEnd code i (loop body p) s m = Reaches code (at (suc i + length (flatten body)) s) m
FromEnd code i _ s m = Unit

pub Reaches-ip :
    (code : List Op) (m : Machine) (s : Store) {i j : ℕ}
    → i ≡ j
    → Reaches code m (at i s)
    → Reaches code m (at j s)
Reaches-ip code m s e = subst (λ k. Reaches code m (at k s)) e

module _ (code : List Op) (short : IsShort code) where
  pub Exec-both :
      {p : Prog} {s s' : Store} (d : Exec p s s') (i : ℕ)
      → HasAt code i (flatten p)
      → Reaches code (at i s) (at (behind i p) s') × FromEnd code i p s (at (behind i p) s')
  Exec-both (ends {s}) i h =
      (Reaches-ip code (at i s) s (sym (behind-done i)) (Reaches-refl code (at i s)), tt)
  Exec-both {s' = s'} (acts {b} {z} {p} {s} e d) i h =
      let (first, rest) = basic-here code i b z p h in
      (
        Reaches-ip code (at i s) s' (behind-basic i b z p)
            (Reaches-step (step-basic code short b z i s _ first e) (Exec-both d (suc i) rest).0),
        tt,
      )
  Exec-both {s' = s'} (skips {body} {p} {s} e d) i h =
      let hp = parts code i body p h in
      let rest = Reaches-ip code _ s' (behind-loop code i body p h) (Exec-both d _ hp.3).0 in
      (
        Reaches-step (step-skip_start code short i body p h s e) rest,
        Reaches-step (step-skip_end code short i body p h s e) rest,
      )
  Exec-both (again {body} {p} {s} v e d d') i h =
      let hp = parts code i body p h in
      let rest = Reaches-trans (Exec-both d (suc i) hp.1).0 (Exec-both d' i h).1 in
      (
        Reaches-step (step-enter code short i body p h s v e) rest,
        Reaches-step (step-back code short i body p h s v e) rest,
      )
