-- ===== src/Interp/Unique.antt =====
-- A program has one run from a store: the structured semantics of the interpreter of
-- csrc/src/ir_interpret.c is a partial function.
use bfcomp.Prelude.{ℕ, suc, ◌≡◌, refl, sym, subst, ◌∙◌, some, some_injective, arith}
use bfcomp.Prelude.Int.{ℤ}
use bfcomp.Prog.{Basic, Prog, done, basic, loop, kind_of}
use bfcomp.Interp.{Store, load, act}
use bfcomp.Interp.Exec.{Exec, ends, acts, skips, again}

Exec-done : (s t : Store) → Exec done s t → s ≡ t
Exec-done s t ends = refl

Exec-basic :
    (b : Basic) (z : ℤ) (p : Prog) (s t : Store)
    → Exec (basic b z p) s t
    → (m : Store) × (act (kind_of b) z s ≡ some m) × Exec p m t
Exec-basic b z p s t (acts {s₁} e d) = (s₁, e, d)

Exec-zero : (body p : Prog) (s t : Store) → load s ≡ some 0 → Exec (loop body p) s t → Exec p s t
Exec-zero body p s t e (skips e' d) = d
Exec-zero body p s t e (again v e' d d') =
    absurd (let q : 0 ≡ suc v = some_injective (sym e ∙ e') in omega arith)

Exec-more :
    (body p : Prog) (s t : Store) (v : ℕ)
    → load s ≡ some (suc v)
    → Exec (loop body p) s t
    → (m : Store) × Exec body s m × Exec (loop body p) m t
Exec-more body p s t v e (skips e' d) =
    absurd (let q : suc v ≡ 0 = some_injective (sym e ∙ e') in omega arith)
Exec-more body p s t v e (again {s₁} w e' d d') = (s₁, d, d')

pub Exec-unique : {p : Prog} {s t : Store} → Exec p s t → (t' : Store) → Exec p s t' → t ≡ t'
Exec-unique (ends {s}) t' y = Exec-done s t' y
Exec-unique (acts {b} {z} {p} {s} {s₁} e d) t' y =
    let (m, e', x) = Exec-basic b z p s t' y in
    Exec-unique d t' (subst (λ u. Exec p u t') (some_injective (sym e' ∙ e)) x)
Exec-unique (skips {body} {p} {s} e d) t' y = Exec-unique d t' (Exec-zero body p s t' e y)
Exec-unique (again {body} {p} {s} {s₁} v e d d') t' y =
    let (m, x, x') = Exec-more body p s t' v e y in
    Exec-unique d' t' (subst (λ u. Exec (loop body p) u t') (sym (Exec-unique d m x)) x')
