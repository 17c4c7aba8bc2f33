-- ===== src/X86/Whole.antt =====
-- The code of csrc/src/ir_compile.c for a whole program: its start, and its exit.
use bfcomp.Prelude.{
  ℕ, ◌+◌, ◌^◌, ◌≡◌, ◌<◌, refl, sym, ap, subst, ◌∙◌, List, [], ◌∷◌, ◌++◌, some, arith, length,
}
use mathlib.Core.List.{append-nil}
use native.Mathlib.Nat.{add-zero}
use bfcomp.Prelude.Int.{pos, pos_part}
use bfcomp.Prog.{Prog}
use bfcomp.Interp.{Store}
use bfcomp.Emit.{ok, le_bytes}
use bfcomp.Compile.Gen.{gen}
use bfcomp.Compile.Parts.{push_bytes, exit_bytes}
use bfcomp.X86.Decode.{
  mov_imm, push_reg, interrupt, decode, decode_reg, decode_mov, decode_ff, decode_cd,
}
use bfcomp.X86.Machine.{Cpu, exited, get_reg, set_reg, execute, system_call, step, run}
use bfcomp.X86.Flow.{At, At-left, At-right, at, Reaches, Runs, Runs-one, Runs-append, step-at}
use bfcomp.X86.Steps.{Regs, cpu, word-le_bytes}
use bfcomp.X86.Brackets.{idx}
use bfcomp.X86.Straight.{Straight, Sound}
use bfcomp.X86.Correct.{Straight-Arrives}

-- `mov` of an address to `%edi`.
abbrev pub load_edi : ℕ → List ℕ
load_edi w = 0xBF ∷ le_bytes w

module _ (base : ℕ) where
  -- A run that ends with a status, and with the tape and the streams of a store.
  pub record Exits (code : List ℕ) (m : Cpu) (status : ℕ) (t : Store) : Type 0 where
    pub fuel : ℕ
    pub last : Cpu
    pub exits : run base fuel code m ≡ exited status last
    pub cells : last.cells ≡ t.cells
    pub input : last.input ≡ t.input
    pub output : last.output ≡ t.output

  load_edi-Runs :
      (r : Regs) (e w : ℕ) (s : Store) → w < 2 ^ 32 → Runs base (load_edi w) (cpu r e s) (cpu r w s)
  unfolding decode decode_reg decode_mov execute set_reg
  load_edi-Runs r e w s h =
      Runs-one base (load_edi w) (mov_imm 7 w) (cpu r e s) (cpu r w s)
        (λ post. ap (λ x. some (mov_imm 7 x, 5)) (word-le_bytes w h)) (λ i. refl)

  push_edi-Runs :
      (r : Regs) (e : ℕ) (s : Store)
      → Runs base push_bytes (cpu r e s) (cpu (record r { stack = e ∷ r.stack }) e s)
  unfolding decode decode_ff execute get_reg
  push_edi-Runs r e s =
      Runs-one base push_bytes (push_reg 7) (cpu r e s) (cpu (record r { stack = e ∷ r.stack }) e s)
        (λ post. refl) (λ i. refl)

  abbrev arguments : List ℕ
  arguments = 0xB8 ∷ 1 ∷ 0 ∷ 0 ∷ 0 ∷ 0xBB ∷ 0 ∷ 0 ∷ 0 ∷ 0 ∷ []

  arguments-Runs :
      (r : Regs) (e : ℕ) (s : Store)
      → Runs base arguments (cpu r e s) (cpu (record r { eax = 1; ebx = 0 }) e s)
  unfolding decode decode_reg decode_mov execute set_reg
  arguments-Runs r e s =
      Runs-append base
        (Runs-one base (0xB8 ∷ 1 ∷ 0 ∷ 0 ∷ 0 ∷ []) (mov_imm 0 1) (cpu r e s)
          (cpu (record r { eax = 1 }) e s) (λ post. refl) (λ i. refl))
        (Runs-one base (0xBB ∷ 0 ∷ 0 ∷ 0 ∷ 0 ∷ []) (mov_imm 3 0) (cpu (record r { eax = 1 }) e s)
          (cpu (record r { eax = 1; ebx = 0 }) e s) (λ post. refl) (λ i. refl))

  run-exited :
      (code : List ℕ) (m m' : Cpu) (n : ℕ)
      → step base code m ≡ exited n m'
      → run base 1 code m ≡ exited n m'
  unfolding run
  run-exited code m m' n e = rw (run, e)

  call-Exits :
      (code : List ℕ) (i e : ℕ) (r : Regs) (s : Store)
      → At code i (0xCD ∷ 0x80 ∷ [])
      → Exits code (at i (cpu (record r { eax = 1; ebx = 0 }) e s)) 0 s
  unfolding decode decode_cd execute system_call
  call-Exits code i e r s a = record {
    fuel = 1;
    last = at (i + 2) (cpu (record r { eax = 1; ebx = 0 }) e s);
    exits = run-exited code _ _ 0 (
        step-at base code i (cpu (record r { eax = 1; ebx = 0 }) e s) (0xCD ∷ 0x80 ∷ [])
          (interrupt 0x80) a (λ post. refl));
    cells = refl;
    input = refl;
    output = refl;
  }

  Reaches-Exits :
      (code : List ℕ) (m m' : Cpu) (n : ℕ) (t : Store)
      → Reaches base code m m'
      → Exits code m' n t
      → Exits code m n t
  Reaches-Exits code m m' n t p x = record {
    fuel = p.rounds + x.fuel;
    last = x.last;
    exits = p.same x.fuel ∙ x.exits;
    cells = x.cells;
    input = x.input;
    output = x.output;
  }

  exit-Exits :
      (code : List ℕ) (i e : ℕ) (r : Regs) (s : Store)
      → At code i exit_bytes
      → Exits code (at i (cpu r e s)) 0 s
  exit-Exits code i e r s a =
      Reaches-Exits code _ _ 0 s
        ((arguments-Runs r e s).goes code i (At-left code i arguments (0xCD ∷ 0x80 ∷ []) a))
        (call-Exits code (i + 10) e r s (At-right code i arguments (0xCD ∷ 0x80 ∷ []) a))

  -- The code of a program, from the load of `%edi` to the exit.
  pub program-Exits :
      (p : Prog) (s t : Store) (inside : List ℕ) (r : Regs) (e : ℕ)
      → Straight p s t
      → Sound base s
      → s.sp ≡ pos 0
      → gen p [] ≡ (ok, inside)
      → length inside < 2 ^ 30
      → Exits (load_edi base ++ (push_bytes ++ (inside ++ exit_bytes))) (at 0 (cpu r e s)) 0 t
  program-Exits p s t inside r e d h z g lt =
      let code = load_edi base ++ (push_bytes ++ (inside ++ exit_bytes)) in
      let start : Runs base (load_edi base ++ push_bytes) (cpu r e s)
          (cpu (record r { stack = base ∷ r.stack }) base s) =
        Runs-append base (load_edi-Runs r e base s (omega (arith, h.fits, h.inside)))
          (push_edi-Runs r base s) in
      let at_start : At code 0 (load_edi base ++ push_bytes) = record {
        post = inside ++ exit_bytes;
        here = refl;
      } in
      let at_inside : At code 7 inside = record { post = exit_bytes; here = refl } in
      let at_exit : At code (7 + length inside) exit_bytes =
        At-right code 7 inside exit_bytes
          (record { post = []; here = sym (append-nil (inside ++ exit_bytes)) }) in
      let at_tape : base ≡ base + idx s = sym (ap (λ i. base + pos_part i) z ∙ add-zero base) in
      let r' = record r { stack = base ∷ r.stack } in
      let begin : Reaches base code (at 0 (cpu r e s)) (at 7 (cpu r' (base + idx s) s)) =
        subst (λ a. Reaches base code (at 0 (cpu r e s)) (at 7 (cpu r' a s))) at_tape
          (start.goes code 0 at_start) in
      let goes = Straight-Arrives base code d 7 inside h g at_inside (omega arith) r' in
      Reaches-Exits code _ _ 0 t begin (
        Reaches-Exits code _ _ 0 t goes.1
          (exit-Exits code (7 + length inside) (base + idx t) goes.0 t at_exit))
