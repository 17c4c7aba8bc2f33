-- ===== src/X86/Safety.antt =====
-- The outcomes of the code of csrc/src/ir_compile.c, whatever the number of steps.
use bfcomp.Prelude.{
  ℕ, zero, suc, ◌+◌, ◌^◌, ◌≡◌, ◌<◌, ◌≤◌, ◌⊎◌, inl, inr, refl, sym, subst, ◌≢◌, ◌∙◌, List, some,
  length,
}
use bfcomp.Ir.{Ctx}
use bfcomp.Prog.{Prog}
use bfcomp.Prog.Placed.{Holds}
use bfcomp.Interp.{Store, reset}
use bfcomp.Emit.{ok}
use bfcomp.Compile.{ir_ctx_compile}
use bfcomp.X86.Machine.{Cpu, Outcome, running, exited, fault, step, run}
use bfcomp.X86.Flow.{at}
use bfcomp.X86.Steps.{Regs, cpu}
use bfcomp.X86.Straight.{Straight, Sound}
use bfcomp.X86.Whole.{load_edi}
use bfcomp.X86.Agree.{ir_ctx_compile-Exits}

module _ (base : ℕ) (code : List ℕ) where
  -- After some steps, a run is still going on or has come to this exit.
  abbrev pub OnTheWay : ℕ → Cpu → ℕ → Cpu → Type 0
  OnTheWay g m status last =
      ((m' : Cpu) × (run base g code m ≡ running m')) ⊎ (run base g code m ≡ exited status last)

  after_step : ℕ → Outcome → Outcome
  after_step f (running m) = run base f code m
  after_step f (exited n m) = exited n m
  after_step f fault = fault

  run-step : (f : ℕ) (m : Cpu) → run base (suc f) code m ≡ after_step f (step base code m)
  unfolding run after_step
  run-step f m = refl

  not_begun : (m : Cpu) → run base 0 code m ≡ running m
  unfolding run
  not_begun m = refl

  not_ended : (m : Cpu) {status : ℕ} {last : Cpu} → run base 0 code m ≢ exited status last
  not_ended m e = let q = sym (not_begun m) ∙ e in absurd cc

  abbrev Ends : Outcome → ℕ → Cpu → Type 0
  Ends o status last = ((m' : Cpu) × (o ≡ running m')) ⊎ (o ≡ exited status last)

  after_step-Ends :
      (f g : ℕ) (o : Outcome) (status : ℕ) (last : Cpu)
      → after_step f o ≡ exited status last
      → ((m : Cpu) → run base f code m ≡ exited status last → OnTheWay g m status last)
      → Ends (after_step g o) status last
  unfolding after_step
  after_step-Ends f g (running m) status last e more = more m e
  after_step-Ends f g (exited n m) status last e more = inr e
  after_step-Ends f g fault status last e more = absurd cc

  run-OnTheWay :
      (f g : ℕ) (m : Cpu) (status : ℕ) (last : Cpu)
      → run base f code m ≡ exited status last
      → OnTheWay g m status last
  run-OnTheWay zero g m status last e = absurd (not_ended m e)
  run-OnTheWay (suc f) zero m status last e = inl (m, not_begun m)
  run-OnTheWay (suc f) (suc g) m status last e =
      subst (λ o. Ends o status last) (sym (run-step g m))
        (after_step-Ends f g (step base code m) status last (sym (run-step f m) ∙ e)
          (λ m' e'. run-OnTheWay f g m' status last e'))

module _ (c : Ctx) (p : Prog) (h : Holds c p) (s t : Store) (d : Straight p (reset s) t) where
  -- Take the layout of a well-nested program as the instructions, fewer than 2^63 with the halt, a tape of
  -- bytes below the address 2^32 and an input of bytes, fuel for two more instructions, and a load of the
  -- tape's address to `%edi` as the code before. If the program has a run to a store in which no move wraps
  -- around the tape and each `,` reads one byte, and if the compiler returns no error and less than 2^30
  -- bytes, then the processor, from any registers and after any number of steps, has met no fault (no other
  -- byte than an instruction's, no access outside of the tape, no other system call): it is still running,
  -- or it has exited with 0, with the output of that store.
  pub ir_ctx_compile-Safe :
      (f base : ℕ) (code : List ℕ) (r : Regs) (edi steps : ℕ)
      → Sound base (reset s)
      → length c.code + 2 ≤ f
      → ir_ctx_compile f c (load_edi base) ≡ some (ok, code)
      → length code < 2 ^ 30
      → ((m : Cpu) × (run base steps code (at 0 (cpu r edi (reset s))) ≡ running m))
        ⊎ ((m : Cpu) × (run base steps code (at 0 (cpu r edi (reset s))) ≡ exited 0 m)
            × (m.output ≡ t.output))
  ir_ctx_compile-Safe f base code r edi steps sound lt e short =
      let x = (ir_ctx_compile-Exits c p h s t d f base code r edi sound lt e short).0 in
      elim (run-OnTheWay base code x.fuel steps (at 0 (cpu r edi (reset s))) 0 x.last x.exits) [
        | inl going ↦ inl going
        | inr ended ↦ inr (x.last, ended, x.output)
      ]
