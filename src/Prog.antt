-- ===== src/Prog.antt =====
-- The well-nested programs that instruction lists stand for: the abstract syntax which the parser
-- of csrc/src/ir_gen.c builds in place, and its layout as a list of `ir_op_t`.
pub mod Laws
pub mod Placed
pub mod Weight
use bfcomp.Prelude.{ℕ, suc, List, [], ◌∷◌, ◌++◌, if◌then◌else◌, length}
use bfcomp.Prelude.Int.{ℤ, pos, ◌+ℤ◌}
use bfcomp.Word.{to_i64, neg}
use bfcomp.Ir.{OpKind, Op, op, same_kind}

-- The instructions that are no jumps.
pub data Basic : Type 0 where
  tape cell write read : Basic

pub data Prog : Type 0 where
  done : Prog
  basic : Basic → ℤ → Prog → Prog
  loop : Prog → Prog → Prog

abbrev pub kind_of : Basic → OpKind
kind_of tape = OpKind.tape
kind_of cell = OpKind.cell
kind_of write = OpKind.write
kind_of read = OpKind.read

-- The jump of a loop whose body has this many instructions.
abbrev pub jump : ℕ → ℤ
jump n = to_i64 (pos (suc n))

unfoldable pub flatten : Prog → List Op
flatten done = []
flatten (basic b z p) = op (kind_of b) z ∷ flatten p
flatten (loop b p) =
    let n = length (flatten b) in
    op OpKind.loop_start (jump n)
    ∷ (flatten b ++ op OpKind.loop_end (to_i64 (neg (jump n))) ∷ flatten p)

-- One program after another.
unfoldable pub seq : Prog → Prog → Prog
seq done q = q
seq (basic b z p) q = basic b z (seq p q)
seq (loop b p) q = loop b (seq p q)

-- A step at the end of a program, joined with a last instruction of its kind.
unfoldable pub join_last : Basic → ℤ → Prog → Prog
join_last b d done = basic b (to_i64 d) done
join_last b d (basic b' z done) =
    if same_kind (kind_of b') (kind_of b)
    then basic b' (to_i64 (z +ℤ d)) done
    else basic b' z (basic b (to_i64 d) done)
join_last b d (basic b' z p) = basic b' z (join_last b d p)
join_last b d (loop body p) = loop body (join_last b d p)

-- A program whose loops `outer` (the innermost first) are still open: each is what stands before
-- the bracket of the next.
unfoldable pub flatten_open : Prog → List Prog → List Op
flatten_open cur [] = flatten cur
flatten_open cur (p ∷ ps) = flatten_open p ps ++ op OpKind.loop_start (pos 0) ∷ flatten cur

-- Where the brackets of the open loops stand.
unfoldable pub open_addrs : List Prog → List ℕ
open_addrs [] = []
open_addrs (p ∷ ps) = length (flatten_open p ps) ∷ open_addrs ps
