-- ===== src/Interp.antt =====
-- The interpreter of csrc/src/ir_interpret.c. Memory outside of the tape or of the instructions
-- is no part of the model: an access to it is a fault.
pub mod Flow
pub mod Exec
pub mod Unique
pub mod Tape
pub mod Cells
pub mod Joins
mod Brackets
mod Forward
mod Inversion
pub mod Refine
mod Tests
use bfcomp.Prelude.{
  ℕ, zero, suc, ◌-◌, List, [], ◌∷◌, ◌++◌, Option, none, some, leb, if◌then◌else◌, length, get_elem?,
  set,
}
use mathlib.Core.Option
use bfcomp.Prelude.Int.{ℤ, pos, negsuc, pos_part, ◌+ℤ◌, ◌-ℤ◌, ltb_ℤ}
use bfcomp.Word.{to_u64, to_i64, to_u8, next, jump_by}
use bfcomp.Ir.{OpKind, Op, op, Ctx, ctx}

-- `sp`, the tape `ctx->data[0 .. ctx->capacity)`, and the two streams.
pub record Store : Type 0 where
  pub sp : ℤ
  pub cells : List ℕ
  pub input : List ℕ
  pub output : List ℕ

-- `ctx->data[sp]`, read and written.
unfoldable pub load_at : List ℕ → ℤ → Option ℕ
load_at cells (pos i) = get_elem? cells i
load_at cells (negsuc i) = none

unfoldable pub load : Store → Option ℕ
unfolding load_at
load s = load_at s.cells s.sp

unfoldable pub store_at : List ℕ → ℤ → ℕ → List ℕ
store_at cells (pos i) v = set cells i v
store_at cells (negsuc i) v = cells

-- An assignment to `ctx->data[sp]`, of a value computed from the old one.
unfoldable pub update : (ℕ → ℕ) → Store → Option Store
unfolding load store_at
update f s = Option.map (λ v. record s { cells = store_at s.cells s.sp (f v) }) (load s)

-- `ir_op_tape`. The comparison of `sp` with the capacity is one of `uint64_t`.
unfoldable pub wrap_sp : ℕ → ℤ → ℤ
wrap_sp cap sp =
    if leb cap (to_u64 sp)
    then to_i64 (sp -ℤ pos cap)
    else if ltb_ℤ sp (pos 0)
    then to_i64 (sp +ℤ pos cap)
    else sp

unfoldable pub move : ℤ → Store → Store
move z s = record s { sp = wrap_sp (length s.cells) (to_i64 (s.sp +ℤ z)) }

-- One round of the loop of `ir_op_write`, and of that of `ir_op_read`: at the end of the input
-- `fread` leaves the cell as it is.
unfoldable pub write_byte : Store → Option Store
write_byte s = Option.map (λ v. record s { output = s.output ++ v ∷ [] }) (load s)

unfoldable pub read_from : List ℕ → Store → Option Store
read_from [] s = update (λ v. v) s
read_from (x ∷ xs) s = update (λ _. x) (record s { input = xs })

unfoldable pub read_byte : Store → Option Store
read_byte s = read_from s.input s

-- `for (int64_t i = 0; i < n; i++)` over a step that may fault.
unfoldable pub repeat : ℕ → (Store → Option Store) → Store → Option Store
repeat zero f s = some s
repeat (suc n) f s = elim (f s) [ none ↦ none | some s' ↦ repeat n f s' ]

-- The blocks of the instructions that do not change `ip`.
unfoldable pub act : OpKind → ℤ → Store → Option Store
act OpKind.tape z s = some (move z s)
act OpKind.cell z s = update (λ v. to_u8 (pos v +ℤ z)) s
act OpKind.write z s = repeat (pos_part z) write_byte s
act OpKind.read z s = repeat (pos_part z) read_byte s
act OpKind.set z s = update (λ _. to_u8 z) s
act _ z s = some s

pub record Machine : Type 0 where
  pub ip : ℕ
  pub store : Store

abbrev pub at : ℕ → Store → Machine
at i s = record { ip = i; store = s }

pub data Outcome : Type 0 where
  running : Machine → Outcome
  halted : Store → Outcome
  fault : Outcome

unfoldable pub loop_ip : OpKind → ℕ → ℤ → ℕ → ℕ
loop_ip OpKind.loop_start zero delta ip = jump_by ip delta
loop_ip OpKind.loop_end (suc v) delta ip = jump_by ip delta
loop_ip _ _ delta ip = ip

-- The block of an instruction, and then `goto *dispatch_table[opcode(++ip).kind & IR_OP_MAX]`.
unfoldable pub branch : OpKind → ℤ → Machine → Outcome
branch k delta m = elim (load m.store) [
  | none ↦ fault
  | some v ↦ running (at (next (loop_ip k v delta m.ip)) m.store)
]

unfoldable pub proceed : ℕ → Option Store → Outcome
proceed ip none = fault
proceed ip (some s) = running (at (next ip) s)

unfoldable pub dispatch : OpKind → ℤ → Machine → Outcome
dispatch OpKind.loop_start z m = branch OpKind.loop_start z m
dispatch OpKind.loop_end z m = branch OpKind.loop_end z m
dispatch OpKind.max z m = halted m.store
dispatch k z m = proceed m.ip (act k z m.store)

unfoldable pub step : List Op → Machine → Outcome
step code m = elim (get_elem? code m.ip) [ none ↦ fault | some o ↦ dispatch o.kind o.arg m ]

-- The chain of dispatches, on fuel: `running` means that the fuel ran out.
unfoldable pub run : ℕ → List Op → Machine → Outcome
run zero code m = running m
run (suc f) code m = elim (step code m) [
  | running m' ↦ run f code m'
  | halted s ↦ halted s
  | fault ↦ fault
]

-- `ir_interpret`: it pushes the halt instruction on the caller's list, and starts at cell 0.
unfoldable pub push_halt : Ctx → Ctx
push_halt c = ctx (c.code ++ op OpKind.max (pos 0) ∷ []) c.patch

unfoldable pub reset : Store → Store
reset s = record s { sp = pos 0 }

unfoldable pub ir_interpret : ℕ → Ctx → Store → Outcome
ir_interpret f c s = run f (push_halt c).code (at 0 (reset s))
