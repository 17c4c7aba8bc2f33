-- ===== src/X86/Agree.antt =====
-- What csrc/src/ir_compile.c makes of a program, and what csrc/src/ir_interpret.c does with it.
use bfcomp.Prelude.{ℕ, ◌+◌, ◌^◌, ◌≡◌, ◌<◌, ◌≤◌, refl, sym, ap, subst, List, some, arith, length}
use bfcomp.Ir.{Ctx}
use bfcomp.Prog.{Prog}
use bfcomp.Prog.Placed.{Holds}
use bfcomp.Interp.{Store, reset, halted, ir_interpret}
use bfcomp.Interp.Refine.{ir_interpret-Exec}
use bfcomp.Emit.{ok}
use bfcomp.Compile.{ir_ctx_compile}
use bfcomp.Compile.Parts.{compiled-WholeCode, inside-short}
use bfcomp.X86.Flow.{at}
use bfcomp.X86.Steps.{Regs, cpu}
use bfcomp.X86.Straight.{Straight, Straight-Exec, Sound}
use bfcomp.X86.Whole.{load_edi, Exits, program-Exits}

module _ (c : Ctx) (p : Prog) (h : Holds c p) (s t : Store) (d : Straight p (reset s) t) where
  pub interprets : (f : ℕ) × (ir_interpret f c s ≡ halted t)
  interprets = (ir_interpret-Exec c p h s t).0 (Straight-Exec d)

  -- Take the layout of a well-nested program as the instructions, fewer than 2^63 with the halt, a tape of
  -- bytes below the address 2^32 and an input of bytes, fuel for two more instructions, and a load of the
  -- tape's address to `%edi` as the code before. If the program has a run to a store in which no move wraps
  -- around the tape and each `,` reads one byte, and if the compiler returns no error and less than 2^30
  -- bytes, then these bytes, from any registers, run to an exit with 0, with the tape and the streams of that
  -- store; and the interpreter halts with the same store.
  pub ir_ctx_compile-Exits :
      (f base : ℕ) (code : List ℕ) (r : Regs) (edi : ℕ)
      → Sound base (reset s)
      → length c.code + 2 ≤ f
      → ir_ctx_compile f c (load_edi base) ≡ some (ok, code)
      → length code < 2 ^ 30
      → Exits base code (at 0 (cpu r edi (reset s))) 0 t
        × ((g : ℕ) × (ir_interpret g c s ≡ halted t))
  unfolding reset
  ir_ctx_compile-Exits f base code r edi sound lt e short =
      let w = compiled-WholeCode c p f (load_edi base) code h lt e in
      let small : length w.inside < 2 ^ 30 =
        omega (arith, ap length w.whole, inside-short (load_edi base) w.inside, short) in
      (
        subst (λ bs. Exits base bs (at 0 (cpu r edi (reset s))) 0 t) (sym w.whole)
            (program-Exits base p (reset s) t w.inside r edi d sound refl w.gens small),
        interprets,
      )
