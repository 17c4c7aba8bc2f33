-- ===== src/Parse.antt =====
-- The parser of csrc/src/ir_gen.c: `count_char` and `ir_ctx_parse`. The text is the list of the
-- bytes that `src` points to; its end, or a zero in it, is the terminating NUL.
pub mod Round
pub mod Total
pub mod Merge
pub mod Nesting
pub mod Balance
pub mod Weight
pub mod Rejects
mod Tests
use bfcomp.Prelude.{
  ℕ, zero, suc, List, [], ◌∷◌, ◌++◌, Option, none, some, ◌==◌, if◌then◌else◌, length, drop, set,
}
use bfcomp.Prelude.Int.{ℤ, pos, ◌+ℤ◌, ◌-ℤ◌}
use bfcomp.Word.{to_i64, neg}
use bfcomp.Ir.{OpKind, Op, op, Ctx, ctx, last?, set_last, same_kind}

-- The rounds of the loop of `count_char`, over the text behind `src`.
unfoldable pub run_length : List ℕ → ℕ → ℕ
run_length [] c = 0
run_length (x ∷ xs) c = if x == c then suc (run_length xs c) else 0

-- `count_char(src, c)`, where `rest` is the text at `src + 1`.
unfoldable pub count_char : List ℕ → ℕ → ℕ
unfolding run_length
count_char rest c = suc (run_length rest c)

-- `push_op`: the count is stored in an `int64_t`.
unfoldable pub push_op : OpKind → ℤ → Ctx → Ctx
push_op k z c = ctx (c.code ++ op k (to_i64 z) ∷ []) c.patch

-- `vec_last(ctx).arg += d` if the last instruction is of this kind, else `push_op`.
unfoldable pub add_to_last : OpKind → ℤ → Ctx → Option Op → Ctx
add_to_last k d c none = push_op k d c
add_to_last k d c (some o) =
    if same_kind o.kind k
    then ctx (set_last c.code (op o.kind (to_i64 (o.arg +ℤ d)))) c.patch
    else push_op k d c

unfoldable pub accumulate : OpKind → ℤ → Ctx → Ctx
accumulate k d c = add_to_last k d c (last? c.code)

-- How a round of the loop ends: with `ptr += n`, or with `return 1`.
pub data Flow : Type 0 where
  advance : ℕ → Ctx → Flow
  reject : Ctx → Flow

-- `case '['`
unfoldable pub open_loop : Ctx → Ctx
open_loop c = ctx (c.code ++ op OpKind.loop_start (pos 0) ∷ []) (length c.code ∷ c.patch)

-- `case ']'`, by the head of the chain of patches.
unfoldable pub close_loop : Ctx → List ℕ → Flow
close_loop c [] = reject c
close_loop c (addr ∷ prev) =
    let delta = to_i64 (pos (length c.code) -ℤ pos addr) in
    advance 1 (
      ctx
        (set c.code addr (op OpKind.loop_start delta)
          ++ op OpKind.loop_end (to_i64 (neg delta)) ∷ [])
        prev)

-- The `switch` on the character at `ptr`.
unfoldable pub parse_char : ℕ → ℕ → Ctx → Flow
parse_char x count c =
    if x == b','
    then advance count (push_op OpKind.read (pos count) c)
    else if x == b'.'
    then advance count (push_op OpKind.write (pos count) c)
    else if x == b'+'
    then advance count (accumulate OpKind.cell (pos count) c)
    else if x == b'-'
    then advance count (accumulate OpKind.cell (neg (pos count)) c)
    else if x == b'>'
    then advance count (accumulate OpKind.tape (pos count) c)
    else if x == b'<'
    then advance count (accumulate OpKind.tape (neg (pos count)) c)
    else if x == b'['
    then advance 1 (open_loop c)
    else if x == b']'
    then close_loop c c.patch
    else advance count c

-- `while (*ptr)`, on fuel; `none` means that the fuel ran out.
unfoldable pub parse_loop : ℕ → List ℕ → Ctx → Option (Ctx × ℕ)
parse_loop zero src c = none
parse_loop (suc f) [] c = some (c, 0)
parse_loop (suc f) (x ∷ xs) c =
    if x == 0 then some (c, 0) else elim (parse_char x (count_char xs x) c) [
      | advance n c' ↦ parse_loop f (drop n (x ∷ xs)) c'
      | reject c' ↦ some (c', 1)
    ]

-- `ir_ctx_parse`: each round consumes a character, so that the length of the text is enough fuel.
unfoldable pub ir_ctx_parse : Ctx → List ℕ → Option (Ctx × ℕ)
ir_ctx_parse c src = parse_loop (suc (length src)) src c
