-- ===== src/X86/Executable.antt =====
-- The executable that `main` (csrc/src/main.c) makes of a source file.
use bfcomp.Prelude.{
  ℕ, ◌+◌, ◌*◌, ◌^◌, ◌≡◌, ◌<◌, ◌≤◌, ap, subst, ◌∙◌, List, Option, some, arith, length,
}
use bfcomp.Ir.{Ctx}
use bfcomp.Map.{MapOf}
use bfcomp.Prog.{Prog, flatten}
use bfcomp.Prog.Placed.{Holds}
use bfcomp.Prog.Weight.{weight, weight-le}
use bfcomp.Interp.{Store, halted, ir_interpret}
use bfcomp.Emit.{ok}
use bfcomp.Compile.{ir_ctx_compile}
use bfcomp.Compile.Errors.{outcome, weight-fits, ir_ctx_compile-outcome}
use bfcomp.Compile.Lengths.{ir_ctx_compile-length}
use bfcomp.Options.{Text, Options, success}
use bfcomp.Elf.{Program, Section, ElfCtx}
use bfcomp.Elf.Build.{preload, build_elf}
use bfcomp.Main.{fresh_tape, main, compiles}
use bfcomp.Main.Weight.{ActionWeight, main-weight}
use bfcomp.X86.Steps.{Regs}
use bfcomp.X86.Straight.{Straight, AreBytes}
use bfcomp.X86.Process.{Process, write_elf_file-Process}

-- A small program is compiled, and to little code.
pub record Compiled (c : Ctx) (p : Prog) : Type 0 where
  pub code : List ℕ
  pub holds : Holds c p
  pub compiled : ir_ctx_compile (length c.code + 2) c preload ≡ some (ok, code)
  pub short : length code < 2 ^ 30

pub small-Compiled :
    (c : Ctx) (p : Prog) → c.code ≡ flatten p → weight c.code < 2 ^ 25 → Compiled c p
small-Compiled c p e h =
    let holds : Holds c p = record { layout = e; fits = omega (arith, weight-le c.code, h) } in
    let w : weight (flatten p) < 2 ^ 25 = omega (arith, ap weight e, h) in
    let r = ir_ctx_compile-outcome c p (length c.code + 2) preload holds (omega arith) in
    let compiled : ir_ctx_compile (length c.code + 2) c preload ≡ some (ok, r.0) =
      r.1 ∙ ap (λ b. some (outcome b, r.0)) (weight-fits p (omega (arith, w))) in
    record {
      code = r.0;
      holds = holds;
      compiled = compiled;
      short = omega (
        arith,
        ir_ctx_compile-length c p (length c.code + 2) preload r.0 holds (omega arith) compiled,
        h,
      );
    }

module _ (Segs : MapOf Program) (Secs : MapOf Section) (files : Text → Option (List ℕ))
    (o : Options) (name : Text) (src : List ℕ) (named : o.input_name ≡ some name)
    (found : files name ≡ some src) where
  -- Take a source file of less than 2^24 bytes for which `main` goes on to compile, and let the instructions
  -- be the layout of a well-nested program. If the program has, from an input of bytes, a run to a store in
  -- which no move wraps around the tape and each `,` reads one byte, then the compiler returns no error, the
  -- context of the ELF file is built, and the process of its two segments, from any registers, exits with 0,
  -- with the tape and the output of that store; and the interpreter halts with the same store.
  pub main-Process :
      (c : Ctx) (output_name : Text) (p : Prog) (input : List ℕ) (r : Regs) (edi : ℕ) (t : Store)
      → length src < 2 ^ 24
      → main files (success o) ≡ some (compiles c output_name)
      → c.code ≡ flatten p
      → AreBytes input
      → Straight p (fresh_tape input) t
      → (code : List ℕ) × (ir_ctx_compile (length c.code + 2) c preload ≡ some (ok, code))
        × ((elf : ElfCtx Segs Secs) × (build_elf code ≡ some elf)
            × Process Segs Secs elf r edi input t)
        × ((g : ℕ) × (ir_interpret g c (fresh_tape input) ≡ halted t))
  main-Process c output_name p input r edi t lt e laid b d =
      let w : weight c.code ≤ 2 * length src =
        subst (ActionWeight (2 * length src)) e (main-weight files o name src named found) in
      let m = small-Compiled c p laid (omega (arith, w, lt)) in
      let x =
        write_elf_file-Process Segs Secs c p m.holds (length c.code + 2) m.code input r edi t d b
          (omega arith) m.compiled m.short in
      (m.code, m.compiled, x.0, x.1)
