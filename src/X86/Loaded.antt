-- ===== src/X86/Loaded.antt =====
-- The executable that csrc/src/main.c writes, loaded from the bytes of its file and run.
use bfcomp.Prelude.{
  ℕ, suc, ◌+◌, ◌*◌, ◌^◌, ◌≡◌, ◌<◌, ◌≤◌, refl, ap, subst, ◌∙◌, List, ◌++◌, Option, some, arith,
  length, length-append,
}
use bfcomp.Ir.{Ctx}
use bfcomp.Map.{MapOf}
use bfcomp.Prog.{Prog, flatten}
use bfcomp.Prog.Placed.{Holds}
use bfcomp.Prog.Weight.{weight}
use bfcomp.Interp.{Store}
use bfcomp.Emit.{ok}
use bfcomp.Compile.{ir_ctx_compile}
use bfcomp.Compile.Parts.{push_bytes, exit_bytes, compiled-WholeCode, inside-short}
use bfcomp.Options.{Text, Options, success}
use bfcomp.Elf.{Program, Section}
use bfcomp.Elf.Build.{preload, write_code, write_elf_file}
use bfcomp.Elf.Ready.{code_bytes, Executable, write_code-Executable}
use bfcomp.Main.{fresh_tape, main, compiles}
use bfcomp.Main.Weight.{ActionWeight, main-weight}
use bfcomp.X86.Flow.{at}
use bfcomp.X86.Steps.{Regs, cpu}
use bfcomp.X86.Straight.{Straight, AreBytes}
use bfcomp.X86.Whole.{Exits, program-Exits}
use bfcomp.X86.Process.{blank, blank-Sound, from_start}
use bfcomp.X86.Executable.{small-Compiled}

-- The file is loaded as its code and a zeroed tape, and the processor, which starts at the first byte of
-- the code with any registers, exits with 0, with this tape and output.
pub record Runs (file input : List ℕ) (t : Store) : Type 0 where
  pub rest : List ℕ
  pub executable : Executable file rest
  pub exits :
      (r : Regs) (edi : ℕ)
      → Exits executable.tape_addr
          (code_bytes executable.tape_addr rest)
          (at 0 (cpu r edi (blank 30000 input)))
          0
          t

module _ (Segs : MapOf Program) (Secs : MapOf Section) where
  -- The file for a program that is compiled without an error.
  pub write_elf_file-Runs :
      (c : Ctx) (p : Prog) (code input : List ℕ) (t : Store)
      → Holds c p
      → Straight p (fresh_tape input) t
      → AreBytes input
      → ir_ctx_compile (length c.code + 2) c preload ≡ some (ok, code)
      → length code < 2 ^ 30
      → (file : List ℕ) × (write_elf_file Segs Secs c ≡ some file) × Runs file input t
  unfolding write_elf_file
  write_elf_file-Runs c p code input t h d b e short =
      let w = compiled-WholeCode c p (length c.code + 2) preload code h (omega arith) e in
      let rest = push_bytes ++ (w.inside ++ exit_bytes) in
      let small : length rest < 2 ^ 30 =
        omega (arith, ap length w.whole, length-append preload rest, short) in
      let inside_small : length w.inside < 2 ^ 30 =
        omega (arith, ap length w.whole, inside-short preload w.inside, short) in
      let (file, written, x) = write_code-Executable Segs Secs ok rest small in
      let same : suc (suc (length c.code)) ≡ length c.code + 2 = omega arith in
      (
        file,
        ap (λ f. write_code Segs Secs (ir_ctx_compile f c preload)) same
            ∙ ap (write_code Segs Secs) (e ∙ ap (λ bs. some (ok, bs)) w.whole)
            ∙ written,
        record {
          rest = rest;
          executable = x;
          exits = λ r edi.
              program-Exits x.tape_addr p (blank 30000 input) t w.inside r edi
                (from_start input t d)
                (blank-Sound x.tape_addr 30000 input (omega arith) x.in_range b) refl w.gens
                inside_small;
        },
      )

module _ (Segs : MapOf Program) (Secs : MapOf Section) (files : Text → Option (List ℕ))
    (o : Options) (name : Text) (src : List ℕ) (named : o.input_name ≡ some name)
    (found : files name ≡ some src) where
  -- The file for the program of a small source file.
  pub main-Runs :
      (c : Ctx) (output_name : Text) (p : Prog) (input : List ℕ) (t : Store)
      → length src < 2 ^ 24
      → main files (success o) ≡ some (compiles c output_name)
      → c.code ≡ flatten p
      → AreBytes input
      → Straight p (fresh_tape input) t
      → (file : List ℕ) × (write_elf_file Segs Secs c ≡ some file) × Runs file input t
  main-Runs c output_name p input t lt e laid b d =
      let w : weight c.code ≤ 2 * length src =
        subst (ActionWeight (2 * length src)) e (main-weight files o name src named found) in
      let m = small-Compiled c p laid (omega (arith, w, lt)) in
      write_elf_file-Runs Segs Secs c p m.code input t m.holds d b m.compiled m.short
