-- ===== src/Elf/Result.antt =====
-- What `write_elf_file` of csrc/src/main.c writes, when the compiler stops with an error.
use bfcomp.Prelude.{
  ℕ, suc, ◌+◌, ◌^◌, ◌<◌, ◌≡◌, ap, ◌∙◌, List, [], ◌++◌, some, false, arith, length, length-append,
  refl,
}
use bfcomp.Ir.{Ctx, ctx}
use bfcomp.Map.{MapOf}
use bfcomp.Prog.{Prog, flatten}
use bfcomp.Prog.Placed.{Holds}
use bfcomp.Prog.Weight.{weight, weight-le}
use bfcomp.Emit.{ok, operand_size}
use bfcomp.Compile.{ir_ctx_compile}
use bfcomp.Compile.Errors.{fits}
use bfcomp.Compile.Gen.{gen}
use bfcomp.Compile.Lengths.{ir_ctx_compile-length}
use bfcomp.Compile.Parts.{push_bytes, exit_bytes}
use bfcomp.Compile.Stopped.{fitting_part, fitting_part-compiles, ir_ctx_compile-stops}
use bfcomp.Elf.{Program, Section}
use bfcomp.Elf.Build.{preload, write_code, write_elf_file}
use bfcomp.Elf.Ready.{Executable, write_code-Executable}

fitting_part-Holds :
    (p : Prog)
    → weight (flatten (fitting_part p)) < 2 ^ 24
    → Holds (ctx (flatten (fitting_part p)) []) (fitting_part p)
fitting_part-Holds p lt = record {
  layout = refl;
  fits = omega (arith, weight-le (flatten (fitting_part p)));
}

-- Take the layout of a well-nested program as the instructions, fewer than 2^63 with the halt, with an
-- argument that is no number of 32 bits, and any maps. The measure of the part in front of the first step
-- or loop with such an argument is to be below 2^24. Compiled on its own, this part gives, without an
-- error, a code that ends with the call of `exit`. For the whole program a file is written all the same,
-- and it is loaded with exactly this code, but without that call.
pub write_elf_file-fitting_part :
    (Segs : MapOf Program) (Secs : MapOf Section) (c : Ctx) (p : Prog)
    → Holds c p
    → fits p ≡ false
    → weight (flatten (fitting_part p)) < 2 ^ 24
    → (inside : List ℕ) × (file : List ℕ) × (ir_ctx_compile
          (length (flatten (fitting_part p)) + 2)
          (ctx (flatten (fitting_part p)) [])
          preload
        ≡ some (ok, preload ++ (push_bytes ++ (inside ++ exit_bytes))))
      × (write_elf_file Segs Secs c ≡ some file)
      × Executable file (push_bytes ++ inside)
unfolding write_elf_file
write_elf_file-fitting_part Segs Secs c p h e lt =
    let inside = (gen (fitting_part p) []).1 in
    let k = fitting_part-Holds p lt in
    let compiled = fitting_part-compiles p preload k in
    let long =
      ir_ctx_compile-length (ctx (flatten (fitting_part p)) []) (fitting_part p) _ preload _ k
        (omega arith) compiled in
    let (file, written, x) =
      write_code-Executable Segs Secs operand_size (push_bytes ++ inside)
        (omega (arith, long, length-append inside exit_bytes)) in
    (
      inside,
      file,
      compiled,
      ap (write_code Segs Secs)
            (ir_ctx_compile-stops c p (suc (suc (length c.code))) preload h (omega arith) e)
          ∙ written,
      x,
    )
