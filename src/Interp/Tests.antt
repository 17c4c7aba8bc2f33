-- ===== src/Interp/Tests.antt =====
-- Runs of the interpreter of csrc/src/ir_interpret.c, and its theorems at concrete programs.
use bfcomp.Prelude.{ℕ, ◌≡◌, refl, List, [], ◌∷◌, none, inl, arith, ◌↔◌}
use bfcomp.Prelude.Int.{pos, negsuc, ◌+ℤ◌, ◌-ℤ◌}
use bfcomp.Word.{to_u8, to_u64, to_i64, neg, next, jump_by}
use bfcomp.Ir.{OpKind, op, Ctx, ctx}
use bfcomp.Prog.{Basic, Prog, done, basic, loop, flatten}
use bfcomp.Prog.Placed.{Holds}
use bfcomp.Interp.{
  Store, Outcome, halted, fault, load, store_at, load_at, update, wrap_sp, move, write_byte,
  read_from, read_byte, repeat, act, loop_ip, branch, proceed, dispatch, step, run, push_halt,
  reset, ir_interpret,
}
use bfcomp.Interp.Exec.{Exec}
use bfcomp.Parse.{push_op, accumulate}
use bfcomp.Interp.Joins.{accumulate-cell}
use bfcomp.Interp.Tape.{PointsAt, move-mod, load-move_off}
use bfcomp.Interp.Refine.{ir_interpret-Exec}

interpret : ℕ → Ctx → Store → Outcome
unfolding ir_interpret run step dispatch proceed branch loop_ip act repeat read_byte read_from
    write_byte move wrap_sp update store_at load load_at push_halt reset to_u8 to_u64 to_i64 next
    jump_by ◌+ℤ◌ ◌-ℤ◌
interpret = ir_interpret

abbrev start : List ℕ → Store
start input = record { sp = pos 0; cells = 0 ∷ 0 ∷ 0 ∷ []; input = input; output = [] }

-- ,[>+<-]>.
abbrev copy : Prog
copy = basic Basic.read (pos 1) (
    loop
      (basic Basic.tape (pos 1)
        (basic Basic.cell (pos 1) (basic Basic.tape (negsuc 0) (basic Basic.cell (negsuc 0) done))))
      (basic Basic.tape (pos 1) (basic Basic.write (pos 1) done)))

copy_runs :
    interpret 100 (ctx (flatten copy) []) (start (3 ∷ []))
    ≡ halted (record { sp = pos 1; cells = 0 ∷ 3 ∷ 0 ∷ []; input = []; output = 3 ∷ [] })
unfolding interpret flatten neg
copy_runs = refl

right_wraps :
    interpret 9 (ctx (op OpKind.tape (pos 4) ∷ op OpKind.cell (negsuc 0) ∷ []) []) (start [])
    ≡ halted (record { sp = pos 1; cells = 0 ∷ 255 ∷ 0 ∷ []; input = []; output = [] })
unfolding interpret
right_wraps = refl

left_faults :
    interpret 9 (ctx (op OpKind.tape (negsuc 0) ∷ op OpKind.cell (pos 1) ∷ []) []) (start [])
    ≡ fault
unfolding interpret
left_faults = refl

copy-Holds : Holds (ctx (flatten copy) []) copy
unfolding flatten
copy-Holds = record { layout = refl; fits = omega arith }

ir_interpret-Exec_example :
    Exec copy
      (reset (start (3 ∷ [])))
      (record { sp = pos 1; cells = 0 ∷ 3 ∷ 0 ∷ []; input = []; output = 3 ∷ [] })
    ↔ ((f : ℕ) × (ir_interpret f (ctx (flatten copy) []) (start (3 ∷ []))
          ≡ halted (record { sp = pos 1; cells = 0 ∷ 3 ∷ 0 ∷ []; input = []; output = 3 ∷ [] })))
ir_interpret-Exec_example =
    ir_interpret-Exec (ctx (flatten copy) []) copy copy-Holds (start (3 ∷ []))
      (record { sp = pos 1; cells = 0 ∷ 3 ∷ 0 ∷ []; input = []; output = 3 ∷ [] })

start-PointsAt : PointsAt (start []) 0
start-PointsAt = record { pointer = refl; inside = omega arith; small = omega arith }

move-mod_example : move (pos 4) (start []) ≡ record (start []) { sp = pos 1 }
unfolding ◌+ℤ◌
move-mod_example = move-mod (start []) 0 (pos 4) start-PointsAt 4 refl (omega arith)

load-move_off_example : load (move (negsuc 0) (start [])) ≡ none
unfolding ◌+ℤ◌
load-move_off_example =
    load-move_off (start []) 0 (negsuc 0) start-PointsAt 0 (inl refl) (omega arith)

-- A cell that is raised by 255, and then by 3.
abbrev raise : Prog
raise = basic Basic.cell (pos 255) done

raise-Holds : Holds (ctx (flatten raise) []) raise
unfolding flatten
raise-Holds = record { layout = refl; fits = omega arith }

accumulate-cell_example :
    ((f : ℕ) × (ir_interpret f (accumulate OpKind.cell (pos 3) (ctx (flatten raise) [])) (start [])
        ≡ halted (record { sp = pos 0; cells = 2 ∷ 0 ∷ 0 ∷ []; input = []; output = [] })))
    ↔ ((f : ℕ) × (ir_interpret f (push_op OpKind.cell (pos 3) (ctx (flatten raise) [])) (start [])
          ≡ halted (record { sp = pos 0; cells = 2 ∷ 0 ∷ 0 ∷ []; input = []; output = [] })))
accumulate-cell_example =
    accumulate-cell (ctx (flatten raise) []) raise (pos 3) raise-Holds
      (unfold flatten in omega arith) (start [])
      (record { sp = pos 0; cells = 2 ∷ 0 ∷ 0 ∷ []; input = []; output = [] })
