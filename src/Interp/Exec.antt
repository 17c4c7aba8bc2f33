-- ===== src/Interp/Exec.antt =====
-- What a well-nested program does, by its structure: the specification of the interpreter.
use bfcomp.Prelude.{ℕ, suc, ◌≡◌, some}
use bfcomp.Prelude.Int.{ℤ}
use bfcomp.Prog.{Basic, Prog, done, basic, loop, kind_of}
use bfcomp.Interp.{Store, load, act}

-- The structured semantics: a run of a program from one store to another.
pub data Exec : Prog → Store → Store → Type 0 where
  ends : {s : Store} → Exec done s s
  acts :
      {b : Basic} {z : ℤ} {p : Prog} {s s₁ s₂ : Store}
      → act (kind_of b) z s ≡ some s₁
      → Exec p s₁ s₂
      → Exec (basic b z p) s s₂
  skips : {body p : Prog} {s s₁ : Store} → load s ≡ some 0 → Exec p s s₁ → Exec (loop body p) s s₁
  again :
      {body p : Prog} {s s₁ s₂ : Store} (v : ℕ)
      → load s ≡ some (suc v)
      → Exec body s s₁
      → Exec (loop body p) s₁ s₂
      → Exec (loop body p) s s₂
