-- ===== src/Dump.antt =====
-- The printers of csrc/src/ir_gen.c. What they write is the list of its bytes.
mod Shown
mod Round
pub mod Reparse
mod Balance
mod Tests
use bfcomp.Prelude.{
  ℕ, zero, suc, ◌-◌, ◌^◌, ltb, List, [], ◌∷◌, ◌++◌, Option, none, some, Bool, true, false,
  if◌then◌else◌, replicate,
}
use bfcomp.Prelude.Int.{ℤ, pos, negsuc, pos_part, ltb_ℤ}
use bfcomp.Prelude.Text.{codes, decimal, decimal_ℤ}
use bfcomp.Word.{to_i64, neg}
use bfcomp.Ir.{OpKind, Op, Ctx}

-- `INT_MAX`
abbrev int_max : ℕ
int_max = 2 ^ 31 - 1

-- `putcc(c, count)`: `none` means that its `int` counter overflows, which it does behind `int_max`
-- characters, if there are more to print.
unfoldable pub putcc : ℕ → ℤ → Option (List ℕ)
putcc c count = if ltb int_max (pos_part count) then none else some (replicate (pos_part count) c)

-- A character for a positive argument, and one for its opposite.
unfoldable pub put_signed : ℕ → ℕ → ℤ → Option (List ℕ)
put_signed plus minus z = if ltb_ℤ z (pos 0) then putcc minus (to_i64 (neg z)) else putcc plus z

unfoldable pub dump_op : OpKind → ℤ → Option (List ℕ)
dump_op OpKind.read z = putcc b',' z
dump_op OpKind.write z = putcc b'.' z
dump_op OpKind.cell z = put_signed b'+' b'-' z
dump_op OpKind.tape z = put_signed b'>' b'<' z
dump_op OpKind.loop_start z = some (b'[' ∷ [])
dump_op OpKind.loop_end z = some (b']' ∷ [])
dump_op OpKind.set z = putcc b'#' z
dump_op OpKind.max z = putcc b'#' z

-- What is printed, and what is printed behind it.
unfoldable pub appended : Option (List ℕ) → Option (List ℕ) → Option (List ℕ)
appended none ys = none
appended (some xs) none = none
appended (some xs) (some ys) = some (xs ++ ys)

-- The loop of `ir_ctx_dump_bf`, and `puts("")` behind it.
unfoldable pub dump_code : List Op → Option (List ℕ)
dump_code [] = some []
dump_code (o ∷ code) = appended (dump_op o.kind o.arg) (dump_code code)

unfoldable pub ir_ctx_dump_bf : Ctx → Option (List ℕ)
ir_ctx_dump_bf c = appended (dump_code c.code) (some (10 ∷ []))

-- `add_sub[arg < 0]`, and then `abs_table[arg < 0]`.
unfoldable pub add_sub : ℤ → List ℕ
add_sub z = if ltb_ℤ z (pos 0) then codes "sub" else codes "add"

unfoldable pub abs_arg : ℤ → ℤ
abs_arg z = if ltb_ℤ z (pos 0) then to_i64 (neg z) else z

-- `ir_fmt_op`
unfoldable pub ir_fmt_op : OpKind → ℤ → List ℕ
ir_fmt_op OpKind.read z = codes "read " ++ decimal_ℤ z
ir_fmt_op OpKind.write z = codes "write " ++ decimal_ℤ z
ir_fmt_op OpKind.cell z = add_sub z ++ (codes " [$tape] " ++ decimal_ℤ (abs_arg z))
ir_fmt_op OpKind.tape z = add_sub z ++ (codes " $tape " ++ decimal_ℤ (abs_arg z))
ir_fmt_op OpKind.loop_start z = codes "jz " ++ decimal_ℤ z
ir_fmt_op OpKind.loop_end z = codes "jnz " ++ decimal_ℤ z
ir_fmt_op OpKind.max z = codes "halt"
ir_fmt_op OpKind.set z = codes "invalid * " ++ decimal_ℤ z

-- `ir_ctx_dump_ir`, from the instruction with index `i` on.
unfoldable pub dump_ir_from : ℕ → List Op → List ℕ
dump_ir_from i [] = []
dump_ir_from i (o ∷ code) =
    b'[' ∷ (decimal i ++ (codes "] " ++ (ir_fmt_op o.kind o.arg ++ 10 ∷ dump_ir_from (suc i) code)))

unfoldable pub ir_ctx_dump_ir : Ctx → List ℕ
ir_ctx_dump_ir c = dump_ir_from 0 c.code
