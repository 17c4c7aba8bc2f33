-- ===== src/Meaning/File.antt =====
-- From the text of the source file to what its interpreter, and its executable, do: `main` of
-- csrc/src/main.c against the specification.
use bfcomp.Prelude.{
  ℕ, zero, suc, ◌^◌, ◌≡◌, ◌<◌, refl, sym, ap, subst, ◌∙◌, ◌↔◌, List, [], Option, none, some, true,
  false, arith, length, replicate, length-replicate,
}
use bfcomp.Prelude.Int.{ℤ}
use bfcomp.Ir.{Ctx, empty_ctx}
use bfcomp.Dump.{ir_ctx_dump_ir}
use bfcomp.Map.{MapOf}
use bfcomp.Prog.{Prog, flatten}
use bfcomp.Interp.{Store}
use bfcomp.Interp.Exec.{Exec}
use bfcomp.Interp.Unique.{Exec-unique}
use bfcomp.Options.{Text, Options, success}
use bfcomp.Elf.{Program, Section}
use bfcomp.Main.{tape_len, read_loop, fresh_tape, main, compiles, choose_mode, after_source}
use bfcomp.Main.Source.{NoNul}
use bfcomp.Main.Weight.{opened}
use bfcomp.Main.Modes.{
  choose_mode-prints, choose_mode-interprets, choose_mode-compiles, returns, make_exe,
  run_main-prints, run_main-compiles, run_main, run_main-Exec,
}
use bfcomp.X86.Straight.{Straight, AreBytes}
use bfcomp.X86.Loaded.{Runs, main-Runs}
use bfcomp.Meaning.{Source, State, Means, reading, read_text, nothing_read, as_store, Fits}
use bfcomp.Meaning.Tame.{Single, Tame-Exec, Tame-Straight}
use bfcomp.Meaning.Simulates.{Refines}
use bfcomp.Meaning.Parser.{ResultSimulates}
use bfcomp.Meaning.Chunks.{ForChunks, read_loop-ResultSimulates, Simulates-flatten}
use bfcomp.Meaning.Commas.{
  AnyNumber, AnyText, AnyText-ForChunks, CommasApart, CommasApart-ForChunks,
}

-- A zeroed tape, with the position at its left end.
abbrev pub beginning : List ℕ → State
beginning input = record { here = 0; cells = replicate tape_len 0; input = input; output = [] }

output_as_store : (t : State) → (as_store t).output ≡ t.output
unfolding as_store
output_as_store t = refl

beginning-Fits : (input : List ℕ) → Fits (beginning input)
beginning-Fits input = record {
  on_tape = omega (arith, length-replicate {A = ℕ} tape_len 0);
  small = omega (arith, length-replicate {A = ℕ} tape_len 0);
}

module _ (files : Text → Option (List ℕ)) (o : Options) (name : Text) (src : List ℕ)
    (named : o.input_name ≡ some name) (found : files name ≡ some src) (p : Source)
    (no_nul : NoNul src) (means : read_text src nothing_read ≡ some (reading p [])) where
  -- The program that `main` goes on with.
  record Accepted (Reads : ℤ → Type 0) : Type 0 where
    context : Ctx
    program : Prog
    accepted : main files (success o) ≡ some (choose_mode o context)
    layout : context.code ≡ flatten program
    refines : Refines Reads p program

  parsed :
      (Reads : ℤ → Type 0) (Good : List ℕ → Type 0)
      → ForChunks Reads Good
      → length src < 2 ^ 63
      → Good src
      → Accepted Reads
  parsed Reads Good g lt a = by_result (read_loop (suc (length src)) empty_ctx src) refl
    where
      simulated :
          ResultSimulates Reads (read_loop (suc (length src)) empty_ctx src) (some (reading p []))
      simulated =
          subst (ResultSimulates Reads (read_loop (suc (length src)) empty_ctx src)) means
            (read_loop-ResultSimulates Reads Good g src lt no_nul a)

      by_result :
          (r : Option (Ctx × ℕ)) → read_loop (suc (length src)) empty_ctx src ≡ r → Accepted Reads
      by_result none e = absurd (
          unfold ResultSimulates in
          subst (λ r. ResultSimulates Reads r (some (reading p []))) e simulated)
      by_result (some (c, suc k)) e = absurd (
          unfold ResultSimulates in
          subst (λ r. ResultSimulates Reads r (some (reading p []))) e simulated)
      by_result (some (c, zero)) e =
          let (q, l, h) = Simulates-flatten Reads c p (
            unfold ResultSimulates in
            subst (λ r. ResultSimulates Reads r (some (reading p []))) e simulated) in
          record {
            context = c;
            program = q;
            accepted =
                opened files o name src named found
                ∙ ap (after_source o) e
                ∙ (unfold after_source in refl);
            layout = l;
            refines = h;
          }

  -- Take a source file with no NUL, of less than 2^63 bytes, that the reader of the specification takes with
  -- no bracket left open, and let the options ask for the instructions, with or without an output. Then
  -- `main` returns 0, writes no file, and prints the listing of instructions that are the layout of a
  -- well-nested program. From any position on a tape of less than 2^61 cells, this program has every run that
  -- the text means, character by character.
  pub main-ir_ctx_dump_ir :
      (Segs : MapOf Program) (Secs : MapOf Section) (writable : Text → Option ℕ) (f : ℕ)
      (input : List ℕ)
      → o.dump_ir ≡ true
      → length src < 2 ^ 63
      → (c : Ctx) × (q : Prog) × (run_main Segs Secs writable f input files (success o)
          ≡ some (returns 0 (ir_ctx_dump_ir c) none))
        × (c.code ≡ flatten q)
        × Refines AnyNumber p q
  main-ir_ctx_dump_ir Segs Secs writable f input d lt =
      let x = parsed AnyNumber AnyText AnyText-ForChunks lt (unfold AnyText in tt) in
      (
        x.context,
        x.program,
        run_main-prints Segs Secs writable f input files (success o) (ir_ctx_dump_ir x.context)
            (x.accepted ∙ ap (λ a. some a) (choose_mode-prints o x.context d)),
        x.layout,
        x.refines,
      )

  -- Take a source file with no NUL, of less than 2^61 bytes, that the reader of the specification takes with
  -- no bracket left open, and let the options ask for the program to be interpreted. If the text, character
  -- by character, means a run from a zeroed tape to a state, with the input that is given, then `main` returns
  -- 0 with some text on the standard output, for some fuel, exactly if this is the output of that state.
  pub main-Means :
      (Segs : MapOf Program) (Secs : MapOf Section) (writable : Text → Option ℕ)
      (input out : List ℕ) (t : State)
      → o.dump_ir ≡ false
      → o.output_name ≡ none
      → length src < 2 ^ 61
      → Means p (beginning input) t
      → (t.output ≡ out) ↔ (
          (f : ℕ) × (run_main Segs Secs writable f input files (success o)
            ≡ some (returns 0 out none)))
  main-Means Segs Secs writable input out t d e lt m =
      let x = parsed AnyNumber AnyText AnyText-ForChunks (omega arith) (unfold AnyText in tt) in
      let (there, back) =
        run_main-Exec Segs Secs writable files o name src named found x.context x.program input out
          lt (x.accepted ∙ ap (λ a. some a) (choose_mode-interprets o x.context d e)) x.layout in
      ((λ q. there (as_store t, runs x, output_as_store t ∙ q)), (λ y. same_output x (back y)))
    where
      runs : (x : Accepted AnyNumber) → Exec x.program (fresh_tape input) (as_store t)
      runs x =
          unfold Refines fresh_tape as_store in
          Tame-Exec AnyNumber (x.refines (beginning input) t (beginning-Fits input) m)

      same_output :
          (x : Accepted AnyNumber)
          → ((t' : Store) × Exec x.program (fresh_tape input) t' × (t'.output ≡ out))
          → t.output ≡ out
      same_output x (t', y, q) =
          sym (output_as_store t) ∙ ap (λ u. u.output) (Exec-unique (runs x) t' y) ∙ q

  -- Take a source file with no NUL, of less than 2^24 bytes, in which no `,` stands directly behind another
  -- and that the reader of the specification takes with no bracket left open; let the options ask for the
  -- program to be compiled, and let the output be writable. If the text, character by character, means a run
  -- from a zeroed tape to a state, with an input of bytes, then `main` returns 0 and has written a file, made
  -- executable. A loader that reads the bytes of this file finds its code at the entry, and 30000 zeroed bytes
  -- behind it; run from there, with any registers and with this input, the processor exits with 0, with the
  -- tape and the output of that state.
  pub output-Means :
      (Segs : MapOf Program) (Secs : MapOf Section) (writable : Text → Option ℕ)
      (output_name : Text) (mode f : ℕ) (stdin input : List ℕ) (t : State)
      → o.dump_ir ≡ false
      → o.output_name ≡ some output_name
      → writable output_name ≡ some mode
      → length src < 2 ^ 24
      → CommasApart src
      → AreBytes input
      → Means p (beginning input) t
      → (file : List ℕ) × (run_main Segs Secs writable f stdin files (success o)
          ≡ some (
              returns 0 []
                (some (record { name = output_name; mode = make_exe mode; bytes = file }))))
        × Runs file input (as_store t)
  output-Means Segs Secs writable output_name mode f stdin input t d e w lt a b m =
      let x = parsed Single CommasApart CommasApart-ForChunks (omega arith) a in
      let accepts : main files (success o) ≡ some (compiles x.context output_name) =
        x.accepted ∙ ap (λ a. some a) (choose_mode-compiles o x.context output_name d e) in
      let (file, written, process) =
        main-Runs Segs Secs files o name src named found x.context output_name x.program input
          (as_store t) lt accepts x.layout b (runs x) in
      (
        file,
        run_main-compiles Segs Secs writable f stdin files (success o) x.context output_name mode
            file accepts w written,
        process,
      )
    where
      runs : (x : Accepted Single) → Straight x.program (fresh_tape input) (as_store t)
      runs x =
          unfold Refines fresh_tape as_store in
          Tame-Straight (x.refines (beginning input) t (beginning-Fits input) m)
