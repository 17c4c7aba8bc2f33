-- ===== src/X86/Process.antt =====
-- The process of an executable that `write_elf_file` of csrc/src/main.c writes: its code, and the
-- zeroed bytes of its `.bss`.
use bfcomp.Prelude.{
  ℕ, zero, suc, ◌+◌, ◌^◌, ◌≡◌, ◌<◌, ◌≤◌, refl, sym, ap, subst, ◌∙◌, List, [], ◌++◌, some,
  some_injective, arith, length, length-append, length-replicate, replicate, get_elem?,
}
use bfcomp.Prelude.Int.{pos}
use bfcomp.Prelude.Text.{codes}
use bfcomp.Ir.{Ctx}
use bfcomp.Map.{MapOf}
use bfcomp.Prog.{Prog}
use bfcomp.Prog.Placed.{Holds}
use bfcomp.Interp.{Store, reset, halted, ir_interpret}
use bfcomp.Emit.{ok}
use bfcomp.Compile.{ir_ctx_compile}
use bfcomp.Compile.Gen.{gen}
use bfcomp.Compile.Parts.{push_bytes, exit_bytes, compiled-WholeCode, inside-short}
use bfcomp.Elf.{Program, Section, ElfCtx}
use bfcomp.Elf.Build.{preload, build_elf}
use bfcomp.Elf.Image.{ImageOf, build_elf-ImageOf}
use bfcomp.Main.{fresh_tape}
use bfcomp.X86.Flow.{at}
use bfcomp.X86.Steps.{Regs, cpu}
use bfcomp.X86.Straight.{Straight, Sound, AreBytes}
use bfcomp.X86.Whole.{load_edi, Exits, program-Exits}
use bfcomp.X86.Agree.{interprets}

-- A tape of zeros, with `sp` at its start.
abbrev pub blank : ℕ → List ℕ → Store
blank n input = record { sp = pos 0; cells = replicate n 0; input = input; output = [] }

-- A segment with no bytes in the file is zeroed when it is loaded.
abbrev pub zeroed : Program → List ℕ → Store
zeroed bss input = blank bss.len input

-- The segments of a context that is to be written, and the run of their process from some registers:
-- it starts at the first byte of `.text`.
pub record Process (Segs : MapOf Program) (Secs : MapOf Section) (c : ElfCtx Segs Secs) (r : Regs)
    (edi : ℕ) (input : List ℕ) (t : Store) : Type 0 where
  pub text : Program
  pub bss : Program
  pub text_found : Segs.get (codes ".text") c.segments ≡ some text
  pub bss_found : Segs.get (codes ".bss") c.segments ≡ some bss
  pub entered : c.elf_header.e_entry ≡ text.phdr.p_vaddr
  pub exits : Exits bss.phdr.p_vaddr text.bytes (at 0 (cpu r edi (zeroed bss input))) 0 t

zeros : (n i v : ℕ) → get_elem? (replicate n 0) i ≡ some v → v < 256
zeros zero i v e = absurd cc
zeros (suc n) zero v e = subst (λ x. x < 256) (some_injective e) (omega arith)
zeros (suc n) (suc i) v e = zeros n i v e

pub blank-Sound :
    (base n : ℕ) (input : List ℕ)
    → 0 < n
    → base + n ≤ 2 ^ 32
    → AreBytes input
    → Sound base (blank n input)
blank-Sound base n input some_cells h b = record {
  index = 0;
  here = refl;
  inside = omega (arith, length-replicate {A = ℕ} n 0, some_cells);
  fits = omega (arith, length-replicate {A = ℕ} n 0, h);
  cell_bytes = record { byte = zeros n };
  input_bytes = b;
}

module _ (Segs : MapOf Program) (Secs : MapOf Section) (p : Prog) (elf : ElfCtx Segs Secs)
    (r : Regs) (edi : ℕ) where
  -- The code of a program, in the context that its bytes are put into.
  image-Process :
      {rest : List ℕ} (image : ImageOf Segs Secs rest elf) (input : List ℕ) (t : Store)
      (inside : List ℕ)
      → rest ≡ push_bytes ++ (inside ++ exit_bytes)
      → Straight p (blank 30000 input) t
      → AreBytes input
      → gen p [] ≡ (ok, inside)
      → length inside < 2 ^ 30
      → Process Segs Secs elf r edi input t
  image-Process {rest} image input t inside e d b g lt = record {
    text = image.text;
    bss = image.bss;
    text_found = image.text_found;
    bss_found = image.bss_found;
    entered = image.entered ∙ sym image.loaded;
    exits =
        subst (λ base. Exits base image.text.bytes (at 0 (cpu r edi start)) 0 t)
          (sym image.bss_placed)
          (subst (λ bs. Exits image.addr bs (at 0 (cpu r edi start)) 0 t) (sym as_code)
            (program-Exits image.addr p start t inside r edi straight sound refl g lt));
  }
    where
      start : Store
      start = zeroed image.bss input

      as_code : image.text.bytes ≡ load_edi image.addr ++ (push_bytes ++ (inside ++ exit_bytes))
      as_code = image.text_bytes ∙ ap (λ bs. load_edi image.addr ++ bs) e

      straight : Straight p start t
      straight = subst (λ n. Straight p (blank n input) t) (sym image.bss_len) d

      sound : Sound image.addr start
      sound =
          blank-Sound image.addr image.bss.len input (omega (arith, image.bss_len))
            (omega (arith, image.bss_len, image.in_range)) b

pub from_start :
    {p : Prog} (input : List ℕ) (t : Store)
    → Straight p (fresh_tape input) t
    → Straight p (blank 30000 input) t
unfolding fresh_tape
from_start input t d = d

from_reset :
    {p : Prog} (input : List ℕ) (t : Store)
    → Straight p (fresh_tape input) t
    → Straight p (reset (fresh_tape input)) t
unfolding fresh_tape reset
from_reset input t d = d

module _ (Segs : MapOf Program) (Secs : MapOf Section) (c : Ctx) (p : Prog) (h : Holds c p) where
  -- Take the layout of a well-nested program as the instructions, fewer than 2^63 with the halt, fuel for
  -- two more of them, and any maps. If the program has, from an input of bytes, a run to a store in which
  -- no move wraps around the tape and each `,` reads one byte, and if the compiler returns no error and
  -- less than 2^30 bytes, then the context of the ELF file is built. The process of its two segments, from
  -- any registers, exits with 0, with the tape and the output of that store; and the interpreter halts
  -- with the same store.
  pub write_elf_file-Process :
      (f : ℕ) (code input : List ℕ) (r : Regs) (edi : ℕ) (t : Store)
      → Straight p (fresh_tape input) t
      → AreBytes input
      → length c.code + 2 ≤ f
      → ir_ctx_compile f c preload ≡ some (ok, code)
      → length code < 2 ^ 30
      → ((elf : ElfCtx Segs Secs) × (build_elf code ≡ some elf)
          × Process Segs Secs elf r edi input t)
        × ((g : ℕ) × (ir_interpret g c (fresh_tape input) ≡ halted t))
  write_elf_file-Process f code input r edi t d b lt e short =
      let w = compiled-WholeCode c p f preload code h lt e in
      let rest = push_bytes ++ (w.inside ++ exit_bytes) in
      let small : length rest < 2 ^ 30 =
        omega (arith, ap length w.whole, length-append preload rest, short) in
      let inside_small : length w.inside < 2 ^ 30 =
        omega (arith, ap length w.whole, inside-short preload w.inside, short) in
      let (elf, built, image) = build_elf-ImageOf Segs Secs rest small in
      (
        (
          elf,
          ap build_elf w.whole ∙ built,
          image-Process Segs Secs p elf r edi image input t w.inside refl (from_start input t d) b
              w.gens inside_small,
        ),
        interprets c p h (fresh_tape input) t (from_reset input t d),
      )
