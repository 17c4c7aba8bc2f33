-- ===== src/Main/Tests.antt =====
-- The theorems on the reading of csrc/src/main.c, at concrete files.
use bfcomp.Prelude.{ℕ, [], ◌∷◌, ◌↔◌, suc, ◌≡◌, refl, List, Option, some, none, false, arith, length}
use bfcomp.Prelude.Text.{codes}
use bfcomp.Prelude.Int.{pos, ◌+ℤ◌}
use bfcomp.Word.{to_i64, to_u64, to_u8, next, jump_by}
use bfcomp.Ir.{empty_ctx, ctx}
use bfcomp.Prog.{Basic, Prog, done, basic, flatten}
use bfcomp.Map.Assoc.{assoc}
use bfcomp.Elf.{Program, Section}
use bfcomp.Interp.{
  Store, ir_interpret, run, step, dispatch, proceed, branch, loop_ip, act, repeat, read_byte,
  read_from, write_byte, update, store_at, load, load_at, push_halt, reset,
}
use bfcomp.Interp.Exec.{Exec}
use bfcomp.Parse.{
  ir_ctx_parse, parse_loop, parse_char, count_char, run_length, push_op, add_to_last, accumulate,
  open_loop,
}
use bfcomp.Main.Modes.{make_exe, returns, perform, after_interpret, run_main, run_main-Exec}
use bfcomp.Options.{Text, Options, success}
use bfcomp.Parse.Balance.{balance, change, EndsWith}
use bfcomp.Main.{
  read_loop, main, rejected, interprets, fresh_tape, open_source, after_source, choose_mode,
  after_chunk,
}
use bfcomp.Main.Messages.{bracket_report, main_messages, main_messages-bracket_report}
use bfcomp.Main.Source.{NoNul, read_loop-balance, main-rejected}

abbrev options : Options
options = record { input_name = some (codes "a.bf"); output_name = none; dump_ir = false }

abbrev disk : List ℕ → Text → Option (List ℕ)
disk content name = some content

loop_text-NoNul : NoNul (codes "[-]")
loop_text-NoNul = (omega arith, (omega arith, (omega arith, tt)))

closing_text-NoNul : NoNul (codes "+]")
closing_text-NoNul = (omega arith, (omega arith, tt))

read_loop-balance_example :
    EndsWith (balance 0 (codes "+]")) (read_loop (suc (length (codes "+]"))) empty_ctx (codes "+]"))
read_loop-balance_example = read_loop-balance (codes "+]") closing_text-NoNul

main-rejected_example : main (disk (codes "+]")) (success options) ≡ some rejected
main-rejected_example =
    main-rejected (disk (codes "+]")) options (codes "a.bf") (codes "+]") refl refl
      closing_text-NoNul (unfold balance change in refl)

-- ,.
abbrev echo : Prog
echo = basic Basic.read (pos 1) (basic Basic.write (pos 1) done)

echo_read : main (disk (codes ",.")) (success options) ≡ some (interprets (ctx (flatten echo) []))
unfolding main open_source after_source choose_mode read_loop after_chunk ir_ctx_parse parse_loop
    parse_char count_char run_length push_op add_to_last accumulate flatten to_i64
echo_read = refl

abbrev anywhere : Text → Option ℕ
anywhere name = some 0o644

run_main-Exec_example :
    ((t : Store) × Exec echo (fresh_tape (b'a' ∷ [])) t × (t.output ≡ b'a' ∷ [])) ↔ (
      (f : ℕ) × (run_main
          (assoc Program)
          (assoc Section)
          anywhere
          f
          (b'a' ∷ [])
          (disk (codes ",."))
          (success options)
        ≡ some (returns 0 (b'a' ∷ []) none)))
run_main-Exec_example =
    run_main-Exec (assoc Program) (assoc Section) anywhere (disk (codes ",.")) options
      (codes "a.bf") (codes ",.") refl refl (ctx (flatten echo) []) echo (b'a' ∷ []) (b'a' ∷ [])
      (omega arith) echo_read refl

echo_runs :
    run_main
      (assoc Program)
      (assoc Section)
      anywhere
      9
      (b'a' ∷ [])
      (disk (codes ",."))
      (success options)
    ≡ some (returns 0 (b'a' ∷ []) none)
unfolding run_main perform after_interpret fresh_tape ir_interpret run step dispatch proceed act
    repeat read_byte read_from write_byte update store_at load load_at push_halt reset next main
    open_source after_source choose_mode read_loop after_chunk ir_ctx_parse parse_loop parse_char
    count_char run_length push_op add_to_last accumulate flatten to_i64
echo_runs = refl

executable_mode : make_exe 0o644 ≡ 0o755
unfolding make_exe
executable_mode = refl

-- A loop that is left open: `main` runs the program, and returns 0.
open_runs :
    run_main (assoc Program) (assoc Section) anywhere 9 [] (disk (codes "[+")) (success options)
    ≡ some (returns 0 [] none)
unfolding run_main perform after_interpret fresh_tape ir_interpret run step dispatch proceed branch
    loop_ip jump_by act update store_at load load_at push_halt reset next main open_source
    after_source choose_mode read_loop after_chunk ir_ctx_parse parse_loop parse_char count_char
    run_length push_op add_to_last accumulate open_loop flatten to_i64 to_u64 to_u8 ◌+ℤ◌
open_runs = refl

open_text-NoNul : NoNul (codes "[+")
open_text-NoNul = (omega arith, (omega arith, tt))

main_messages-bracket_report_example :
    main_messages
      (assoc Program)
      (assoc Section)
      anywhere
      9
      []
      (disk (codes "[+"))
      (success options)
    ≡ bracket_report (balance 0 (codes "[+"))
main_messages-bracket_report_example =
    main_messages-bracket_report (assoc Program) (assoc Section) anywhere 9 [] (disk (codes "[+"))
      options (codes "a.bf") (codes "[+") 0 [] none refl refl open_text-NoNul refl open_runs

open_told : bracket_report (balance 0 (codes "[+")) ≡ codes "unmatched '['"
unfolding bracket_report balance change
open_told = refl
