-- ===== src/Parse/Total.antt =====
-- How far a round of the loop of `ir_ctx_parse` (csrc/src/ir_gen.c) moves `ptr`.
use bfcomp.Prelude.{ℕ, ◌<◌, List, [], ◌∷◌, arith}
use bfcomp.Ir.{Ctx}
use bfcomp.Parse.{Flow, advance, reject, parse_char, close_loop}
use bfcomp.Parse.Round.{parse_char_rule}

-- A round moves on by one character at least.
abbrev pub Moves : Flow → Type 0
Moves (advance n c) = 0 < n
Moves (reject c) = Unit

close_loop-Moves : (c : Ctx) (p : List ℕ) → Moves (close_loop c p)
unfolding close_loop
close_loop-Moves c [] = tt
close_loop-Moves c (a ∷ p) = omega arith

pub parse_char-Moves : (x n : ℕ) (c : Ctx) → 0 < n → Moves (parse_char x n c)
parse_char-Moves x n c h = parse_char_rule Moves x n c (record {
  pushes = λ _ _. h;
  joins = λ _ _. h;
  opens = omega arith;
  closes = close_loop-Moves c c.patch;
  skips = h;
})
