-- ===== src/X86/Tests.antt =====
-- Compiled programs on the machine, and the theorems on it at concrete programs.
use bfcomp.Prelude.{
  ◌⊎◌, ℕ, ◌+◌, ◌≡◌, ◌<◌, refl, List, [], ◌∷◌, ◌++◌, Option, some, false, arith, length, drop,
  replicate,
}
use bfcomp.Prelude.Int.{ℤ, pos, negsuc, ◌+ℤ◌, ◌-ℤ◌}
use bfcomp.Word.{to_u8, to_u64, to_u32, to_i32, to_i64, neg, next, jump_by}
use bfcomp.Ir.{OpKind, Ctx, ctx}
use bfcomp.Prog.{Basic, Prog, done, basic, loop, flatten}
use bfcomp.Prog.Placed.{Holds}
use bfcomp.Interp.{
  Store, load, load_at, store_at, update, wrap_sp, move, write_byte, read_from, read_byte, repeat,
  act, reset, halted, ir_interpret,
}
use bfcomp.Emit.{
  Emitted, ok, le_bytes, sys_read, push_int32, too_big, emit_indirect, emit_direct, emit_other,
  emit_step, emit_add_sub, emit_cmp, emit_code_loop_start, emit_jump_back, emit_code_loop_end,
  const_arg, emit_transfer, emit_writes, emit_code_write, emit_code_read, emit_code_trap,
  emit_code_exit, emit_op,
}
use bfcomp.Map.Assoc.{assoc}
use bfcomp.Elf.{Program, Section, ElfCtx}
use bfcomp.Elf.Build.{preload, text_addr, build_elf}
use bfcomp.Compile.{after_op, compile_from, ir_ctx_compile}
use bfcomp.Main.{
  fresh_tape, main, compiles, open_source, after_source, choose_mode, read_loop, after_chunk,
}
use bfcomp.X86.Decode.{
  decode, decode_reg, decode_mov, decode_cd, decode_0f, decode_short, decode_ff, decode_fe,
  decode_89, decode_al, decode_c7, decode_83, decode_81, decode_80,
}
use bfcomp.X86.Machine.{
  running, Cpu, Outcome, exited, run, step, execute, system_call, write_call, read_call, on_reg,
  on_byte, store_byte, load_byte, set_reg, get_reg,
}
use bfcomp.X86.Flow.{at}
use bfcomp.X86.Steps.{Regs, cpu}
use bfcomp.X86.CellCode.{Does}
use bfcomp.X86.Brackets.{idx}
use bfcomp.X86.Basics.{basic-Emits}
use bfcomp.X86.Straight.{
  Straight, ends, acts, skips, again, Lands, Keeps, Sound, AreBytes-nil, AreBytes-cons,
}
use bfcomp.X86.Whole.{load_edi, Exits}
use bfcomp.Options.{Text, Options, success}
use bfcomp.Prelude.Text.{codes}
use bfcomp.Parse.{
  ir_ctx_parse, parse_loop, parse_char, count_char, run_length, push_op, add_to_last, accumulate,
  open_loop, close_loop,
}
use bfcomp.X86.Executable.{main-Process}
use bfcomp.X86.Process.{Process, write_elf_file-Process}
use bfcomp.X86.Safety.{ir_ctx_compile-Safe}
use bfcomp.X86.Agree.{ir_ctx_compile-Exits}

machine : ℕ → ℕ → List ℕ → Cpu → Outcome
unfolding to_u32 ◌+ℤ◌ run step execute system_call write_call read_call on_reg on_byte store_byte
    load_byte set_reg get_reg decode decode_reg decode_mov decode_cd decode_0f decode_short
    decode_ff decode_fe decode_89 decode_al decode_c7 decode_83 decode_81 decode_80
machine = run

compile : ℕ → Ctx → List ℕ → Option Emitted
unfolding ir_ctx_compile compile_from after_op emit_op emit_code_exit emit_code_trap emit_code_read
    emit_code_write emit_writes emit_transfer const_arg emit_code_loop_end emit_jump_back
    emit_code_loop_start emit_cmp emit_add_sub emit_step emit_other emit_direct emit_indirect
    too_big push_int32 to_u8 to_u64 to_u32 to_i32 to_i64 neg next jump_by ◌+ℤ◌ ◌-ℤ◌
compile = ir_ctx_compile

abbrev start : List ℕ → Store
start input = record { sp = pos 0; cells = 0 ∷ 0 ∷ 0 ∷ []; input = input; output = [] }

abbrev regs : Regs
regs = record { eax = 7; ecx = 7; edx = 7; ebx = 7; zf = false; stack = [] }

-- ,[>+<-]>.
abbrev copy : Prog
copy = basic Basic.read (pos 1) (
    loop
      (basic Basic.tape (pos 1)
        (basic Basic.cell (pos 1) (basic Basic.tape (negsuc 0) (basic Basic.cell (negsuc 0) done))))
      (basic Basic.tape (pos 1) (basic Basic.write (pos 1) done)))

abbrev copy_code : List ℕ
copy_code =
    0xBF ∷ 0 ∷ 0x10 ∷ 0 ∷ 0 ∷ 0xFF ∷ 0xF7 ∷ 0xB8 ∷ 3 ∷ 0 ∷ 0 ∷ 0 ∷ 0xBB ∷ 0 ∷ 0 ∷ 0 ∷ 0 ∷ 0x89
    ∷ 0xF9 ∷ 0xBA ∷ 1 ∷ 0 ∷ 0 ∷ 0 ∷ 0xCD ∷ 0x80 ∷ 0x80 ∷ 0x3F ∷ 0 ∷ 0x74 ∷ 0x0B ∷ 0x47 ∷ 0xFE ∷ 7
    ∷ 0x4F ∷ 0xFE ∷ 0x0F ∷ 0x80 ∷ 0x3F ∷ 0 ∷ 0x75 ∷ 0xF5 ∷ 0x47 ∷ 0xB8 ∷ 4 ∷ 0 ∷ 0 ∷ 0 ∷ 0xBB ∷ 1
    ∷ 0 ∷ 0 ∷ 0 ∷ 0x89 ∷ 0xF9 ∷ 0xBA ∷ 1 ∷ 0 ∷ 0 ∷ 0 ∷ 0xCD ∷ 0x80 ∷ 0xB8 ∷ 1 ∷ 0 ∷ 0 ∷ 0 ∷ 0xBB ∷ 0
    ∷ 0 ∷ 0 ∷ 0 ∷ 0xCD ∷ 0x80 ∷ []

copy_compiled : compile 20 (ctx (flatten copy) []) (load_edi 4096) ≡ some (ok, copy_code)
unfolding compile flatten
copy_compiled = refl

abbrev copied : Store
copied = record { sp = pos 1; cells = 0 ∷ 2 ∷ 0 ∷ []; input = []; output = 2 ∷ [] }

copy_exits :
    machine 4096 60 copy_code (at 0 (cpu regs 0 (start (2 ∷ []))))
    ≡ exited 0 (
        at 74 (
          cpu
            (record { eax = 1; ecx = 4097; edx = 1; ebx = 0; zf = false; stack = 4096 ∷ [] })
            4097
            copied))
unfolding machine
copy_exits = refl

abbrev lands :
    (z : ℤ) (s s' : Store) (n : ℕ)
    → s.sp +ℤ z ≡ pos n
    → s'.sp ≡ pos n
    → n < length s.cells
    → Lands z s s'
lands z s s' n e e' h = record { to = n; moved = e; lands = e'; inside = h }

copy-Straight : Straight copy (reset (start (2 ∷ []))) copied
unfolding act move wrap_sp update store_at load load_at repeat read_byte read_from write_byte to_u8
    to_u64 to_i64 ◌+ℤ◌ ◌-ℤ◌ reset Keeps
copy-Straight = acts refl refl (
    again 1 refl
      (acts refl (lands _ _ _ 1 refl refl (omega arith))
        (acts refl tt (acts refl (lands _ _ _ 0 refl refl (omega arith)) (acts refl tt ends))))
      (again 0 refl
        (acts refl (lands _ _ _ 1 refl refl (omega arith))
          (acts refl tt (acts refl (lands _ _ _ 0 refl refl (omega arith)) (acts refl tt ends))))
        (skips refl (acts refl (lands _ _ _ 1 refl refl (omega arith)) (acts refl tt ends)))))

start-Sound : Sound 4096 (reset (start (2 ∷ [])))
unfolding reset
start-Sound = record {
  index = 0;
  here = refl;
  inside = omega arith;
  fits = omega arith;
  cell_bytes =
      AreBytes-cons 0 _ (omega arith)
        (AreBytes-cons 0 _ (omega arith) (AreBytes-cons 0 _ (omega arith) AreBytes-nil));
  input_bytes = AreBytes-cons 2 _ (omega arith) AreBytes-nil;
}

copy-Holds : Holds (ctx (flatten copy) []) copy
unfolding flatten
copy-Holds = record { layout = refl; fits = omega arith }

ir_ctx_compile-Exits_example :
    Exits 4096 copy_code (at 0 (cpu regs 7 (reset (start (2 ∷ []))))) 0 copied
    × ((g : ℕ) × (ir_interpret g (ctx (flatten copy) []) (start (2 ∷ [])) ≡ halted copied))
unfolding compile flatten
ir_ctx_compile-Exits_example =
    ir_ctx_compile-Exits (ctx (flatten copy) []) copy copy-Holds (start (2 ∷ [])) copied
      copy-Straight 20 4096 copy_code regs 7 start-Sound (omega arith) refl (omega arith)

-- The executable of the same program.
abbrev executable_code : List ℕ
executable_code = 0xBF ∷ (le_bytes text_addr ++ drop 5 copy_code)

abbrev copied_full : Store
copied_full = record { sp = pos 1; cells = 0 ∷ 2 ∷ replicate 29998 0; input = []; output = 2 ∷ [] }

copy-Straight_full : Straight copy (fresh_tape (2 ∷ [])) copied_full
unfolding fresh_tape act move wrap_sp update store_at load load_at repeat read_byte read_from
    write_byte to_u8 to_u64 to_i64 ◌+ℤ◌ ◌-ℤ◌ Keeps
copy-Straight_full = acts refl refl (
    again 1 refl
      (acts refl (lands _ _ _ 1 refl refl (omega arith))
        (acts refl tt (acts refl (lands _ _ _ 0 refl refl (omega arith)) (acts refl tt ends))))
      (again 0 refl
        (acts refl (lands _ _ _ 1 refl refl (omega arith))
          (acts refl tt (acts refl (lands _ _ _ 0 refl refl (omega arith)) (acts refl tt ends))))
        (skips refl (acts refl (lands _ _ _ 1 refl refl (omega arith)) (acts refl tt ends)))))

write_elf_file-Process_example :
    ((elf : ElfCtx (assoc Program) (assoc Section)) × (build_elf executable_code ≡ some elf)
      × Process (assoc Program) (assoc Section) elf regs 7 (2 ∷ []) copied_full)
    × ((g : ℕ) × (ir_interpret g (ctx (flatten copy) []) (fresh_tape (2 ∷ []))
          ≡ halted copied_full))
unfolding compile flatten
write_elf_file-Process_example =
    write_elf_file-Process (assoc Program) (assoc Section) (ctx (flatten copy) []) copy copy-Holds
      20 executable_code (2 ∷ []) regs 7 copied_full copy-Straight_full
      (AreBytes-cons 2 _ (omega arith) AreBytes-nil) (omega arith) refl (omega arith)

abbrev read_store : Store
read_store = record { sp = pos 0; cells = 2 ∷ 0 ∷ 0 ∷ []; input = []; output = [] }

read_emitted : emit_op OpKind.read 0 (pos 1) [] ≡ (ok, emit_transfer sys_read 0 [])
unfolding emit_op emit_code_read too_big
read_emitted = refl

read_acts : act OpKind.read (pos 1) (start (2 ∷ [])) ≡ some read_store
unfolding act repeat read_byte read_from update store_at load load_at
read_acts = refl

basic-Emits_example :
    Does 4096
      (emit_transfer sys_read 0 [])
      (4096 + idx (start (2 ∷ [])))
      (start (2 ∷ []))
      (4096 + idx read_store)
      read_store
unfolding reset Keeps
basic-Emits_example =
    basic-Emits 4096 (start (2 ∷ [])) read_store start-Sound Basic.read (pos 1)
      (emit_transfer sys_read 0 []) read_emitted read_acts refl

abbrev options : Options
options = record {
  input_name = some (codes "a.bf");
  output_name = some (codes "a");
  dump_ir = false;
}

abbrev disk : Text → Option (List ℕ)
disk file = some (codes ",[>+<-]>.")

copy_read : main disk (success options) ≡ some (compiles (ctx (flatten copy) []) (codes "a"))
unfolding main open_source after_source choose_mode read_loop after_chunk ir_ctx_parse parse_loop
    parse_char count_char run_length push_op add_to_last accumulate open_loop close_loop flatten
    to_i64 to_u64 neg next ◌+ℤ◌ ◌-ℤ◌
copy_read = refl

main-Process_example :
    (code : List ℕ) × (ir_ctx_compile (length (flatten copy) + 2) (ctx (flatten copy) []) preload
      ≡ some (ok, code))
    × ((elf : ElfCtx (assoc Program) (assoc Section)) × (build_elf code ≡ some elf)
        × Process (assoc Program) (assoc Section) elf regs 7 (2 ∷ []) copied_full)
    × ((g : ℕ) × (ir_interpret g (ctx (flatten copy) []) (fresh_tape (2 ∷ []))
          ≡ halted copied_full))
main-Process_example =
    main-Process (assoc Program) (assoc Section) disk options (codes "a.bf") (codes ",[>+<-]>.")
      refl refl (ctx (flatten copy) []) (codes "a") copy (2 ∷ []) regs 7 copied_full (omega arith)
      copy_read refl (AreBytes-cons 2 _ (omega arith) AreBytes-nil) copy-Straight_full

ir_ctx_compile-Safe_example :
    ((m : Cpu) × (run 4096 30 copy_code (at 0 (cpu regs 7 (reset (start (2 ∷ []))))) ≡ running m))
    ⊎ ((m : Cpu) × (run 4096 30 copy_code (at 0 (cpu regs 7 (reset (start (2 ∷ []))))) ≡ exited 0 m)
        × (m.output ≡ 2 ∷ []))
unfolding compile flatten
ir_ctx_compile-Safe_example =
    ir_ctx_compile-Safe (ctx (flatten copy) []) copy copy-Holds (start (2 ∷ [])) copied
      copy-Straight 20 4096 copy_code regs 7 30 start-Sound (omega arith) refl (omega arith)
