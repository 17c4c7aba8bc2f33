-- ===== src/Main/Modes.antt =====
-- What the modes of `main` (csrc/src/main.c) do, and what the process ends with. Whether the output can
-- be opened, and with which permissions, is a parameter; so are the maps of the ELF writer.
use Prim.Native.Nat.{bit_or}
use bfcomp.Prelude.{
  ℕ, ◌*◌, ◌^◌, ◌≡◌, ◌≤◌, ◌<◌, ◌↔◌, refl, sym, ap, subst, ◌∙◌, List, [], Option, none, some,
  some_injective, true, false, arith, length,
}
use bfcomp.Ir.{Ctx}
use bfcomp.Dump.{ir_ctx_dump_ir}
use bfcomp.Map.{MapOf}
use bfcomp.Options.{Text, Options, Parsed, success}
use bfcomp.Prog.Weight.{weight, weight-le}
use bfcomp.Main.Weight.{ActionWeight, main-weight}
use bfcomp.Prog.{Prog, flatten}
use bfcomp.Prog.Placed.{Holds}
use bfcomp.Interp.{Store, Outcome, running, halted, fault, ir_interpret, reset}
use bfcomp.Interp.Exec.{Exec}
use bfcomp.Interp.Refine.{ir_interpret-Exec}
use bfcomp.Elf.{Program, Section}
use bfcomp.Elf.Build.{write_elf_file}
use bfcomp.Main.{
  Action, bad_options, crashed, cannot_open, rejected, printed, interprets, compiles, choose_mode,
  fresh_tape, main,
}

-- `make_exe`: S_IXUSR | S_IXGRP | S_IXOTH are added to the mode of the file.
unfoldable pub make_exe : ℕ → ℕ
make_exe mode = bit_or mode 0o111

-- The output, with its mode.
pub record Written : Type 0 where
  pub name : Text
  pub mode : ℕ
  pub bytes : List ℕ

-- The status that `main` returns (or `exit` is called with), what stands on the standard output, and
-- the file that was written. `unfinished` means that the fuel of the interpreter ran out.
pub data Ending : Type 0 where
  returns : ℕ → List ℕ → Option Written → Ending
  unfinished : Ending
  crashes : Ending

unfoldable pub after_interpret : Outcome → Ending
after_interpret (running m) = unfinished
after_interpret (halted s) = returns 0 s.output none
after_interpret fault = crashes

module _ (Segs : MapOf Program) (Secs : MapOf Section) (writable : Text → Option ℕ) where
  unfoldable pub write_output : Text → ℕ → Option (List ℕ) → Ending
  write_output name mode none = crashes
  write_output name mode (some bytes) =
      returns 0 [] (some (record { name = name; mode = make_exe mode; bytes = bytes }))

  unfoldable pub perform : ℕ → List ℕ → Action → Ending
  perform f input bad_options = returns 1 [] none
  perform f input crashed = crashes
  perform f input (cannot_open name) = returns 1 [] none
  perform f input rejected = returns 1 [] none
  perform f input (printed out) = returns 0 out none
  perform f input (interprets c) = after_interpret (ir_interpret f c (fresh_tape input))
  perform f input (compiles c name) = elim (writable name) [
    | none ↦ returns 1 [] none
    | some mode ↦ write_output name mode (write_elf_file Segs Secs c)
  ]

  -- The whole of `main`, with the standard input of the process.
  unfoldable pub run_main : ℕ → List ℕ → (Text → Option (List ℕ)) → Parsed → Option Ending
  run_main f input files parsed = elim (main files parsed) [
    | none ↦ none
    | some a ↦ some (perform f input a)
  ]

-- Which mode the options choose.
pub choose_mode-interprets :
    (o : Options) (c : Ctx)
    → o.dump_ir ≡ false
    → o.output_name ≡ none
    → choose_mode o c ≡ interprets c
unfolding choose_mode
choose_mode-interprets o c d e = rw (d, e)

pub choose_mode-compiles :
    (o : Options) (c : Ctx) (name : Text)
    → o.dump_ir ≡ false
    → o.output_name ≡ some name
    → choose_mode o c ≡ compiles c name
unfolding choose_mode
choose_mode-compiles o c name d e = rw (d, e)

pub choose_mode-prints :
    (o : Options) (c : Ctx) → o.dump_ir ≡ true → choose_mode o c ≡ printed (ir_ctx_dump_ir c)
unfolding choose_mode
choose_mode-prints o c d = rw d

-- The mode that prints, whatever the output is.
pub run_main-prints :
    (Segs : MapOf Program) (Secs : MapOf Section) (writable : Text → Option ℕ) (f : ℕ)
    (input : List ℕ) (files : Text → Option (List ℕ)) (parsed : Parsed) (out : List ℕ)
    → main files parsed ≡ some (printed out)
    → run_main Segs Secs writable f input files parsed ≡ some (returns 0 out none)
unfolding run_main perform
run_main-prints Segs Secs writable f input files parsed out e = rw (run_main, e)

-- The mode that compiles, with an output that can be opened.
pub run_main-compiles :
    (Segs : MapOf Program) (Secs : MapOf Section) (writable : Text → Option ℕ) (f : ℕ)
    (input : List ℕ) (files : Text → Option (List ℕ)) (parsed : Parsed) (c : Ctx) (name : Text)
    (mode : ℕ) (file : List ℕ)
    → main files parsed ≡ some (compiles c name)
    → writable name ≡ some mode
    → write_elf_file Segs Secs c ≡ some file
    → run_main Segs Secs writable f input files parsed
      ≡ some (returns 0 [] (some (record { name = name; mode = make_exe mode; bytes = file })))
unfolding run_main perform write_output
run_main-compiles Segs Secs writable f input files parsed c name mode file e w z =
    rw (run_main, e) (rw (perform, w) (rw z))

to_reset :
    (p : Prog) (input : List ℕ) (t : Store)
    → Exec p (fresh_tape input) t
    → Exec p (reset (fresh_tape input)) t
unfolding fresh_tape reset
to_reset p input t d = d

from_reset :
    (p : Prog) (input : List ℕ) (t : Store)
    → Exec p (reset (fresh_tape input)) t
    → Exec p (fresh_tape input) t
unfolding fresh_tape reset
from_reset p input t d = d

halted_output :
    (r : Outcome) (out : List ℕ)
    → after_interpret r ≡ returns 0 out none
    → (t : Store) × (r ≡ halted t) × (t.output ≡ out)
unfolding after_interpret
halted_output (running m) out e = absurd cc
halted_output (halted s) out e = (s, refl, cc)
halted_output fault out e = absurd cc

module _ (Segs : MapOf Program) (Secs : MapOf Section) (writable : Text → Option ℕ)
    (files : Text → Option (List ℕ)) (o : Options) (name : Text) (src : List ℕ)
    (named : o.input_name ≡ some name) (found : files name ≡ some src) where
  -- Take a source file of less than 2^61 bytes for which `main` goes on to interpret, and let the
  -- instructions be the layout of a well-nested program. Then `main` returns 0 with some text on the standard
  -- output, for some fuel, exactly if the structured semantics of the program, from a zeroed tape, gives
  -- this output.
  pub run_main-Exec :
      (c : Ctx) (p : Prog) (input out : List ℕ)
      → length src < 2 ^ 61
      → main files (success o) ≡ some (interprets c)
      → c.code ≡ flatten p
      → ((t : Store) × Exec p (fresh_tape input) t × (t.output ≡ out)) ↔ (
          (f : ℕ) × (run_main Segs Secs writable f input files (success o)
            ≡ some (returns 0 out none)))
  unfolding run_main perform after_interpret
  run_main-Exec c p input out lt e laid = (forward, backward)
    where
      w : weight c.code ≤ 2 * length src
      w = subst (ActionWeight (2 * length src)) e (main-weight files o name src named found)

      holds : Holds c p
      holds = record { layout = laid; fits = omega (arith, weight-le c.code, w, lt) }

      ending :
          (f : ℕ)
          → run_main Segs Secs writable f input files (success o)
            ≡ some (after_interpret (ir_interpret f c (fresh_tape input)))
      ending f = rw (run_main, e) refl

      forward :
          ((t : Store) × Exec p (fresh_tape input) t × (t.output ≡ out))
          → (f : ℕ) × (run_main Segs Secs writable f input files (success o)
              ≡ some (returns 0 out none))
      forward (t, d, q) =
          let (f, h) =
            (ir_interpret-Exec c p holds (fresh_tape input) t).0 (to_reset p input t d) in
          (f, ending f ∙ ap (λ r. some (after_interpret r)) h ∙ ap (λ x. some (returns 0 x none)) q)

      backward :
          ((f : ℕ) × (run_main Segs Secs writable f input files (success o)
              ≡ some (returns 0 out none)))
          → (t : Store) × Exec p (fresh_tape input) t × (t.output ≡ out)
      backward (f, h) =
          let (t, r, q) =
            halted_output (ir_interpret f c (fresh_tape input)) out
              (some_injective (sym (ending f) ∙ h)) in
          (t, from_reset p input t ((ir_interpret-Exec c p holds (fresh_tape input) t).1 (f, r)), q)
