-- ===== src/Parse/Rejects.antt =====
-- Where `ir_ctx_parse` of csrc/src/ir_gen.c returns 1, no loop is open.
use bfcomp.Prelude.{
  ℕ, zero, suc, ◌≡◌, refl, inl, inr, List, [], ◌∷◌, Option, none, some, ◌==◌, Bool-cases, length,
  drop,
}
use bfcomp.Ir.{Ctx}
use bfcomp.Parse.{
  Flow, advance, reject, count_char, close_loop, parse_char, parse_loop, ir_ctx_parse,
}
use bfcomp.Parse.Round.{parse_char_rule}

abbrev RejectsClosed : Flow → Type 0
RejectsClosed (advance n c) = Unit
RejectsClosed (reject c) = c.patch ≡ []

close_loop-RejectsClosed : (c : Ctx) (p : List ℕ) → c.patch ≡ p → RejectsClosed (close_loop c p)
unfolding close_loop
close_loop-RejectsClosed c [] e = e
close_loop-RejectsClosed c (a ∷ p) e = tt

parse_char-RejectsClosed : (x n : ℕ) (c : Ctx) → RejectsClosed (parse_char x n c)
parse_char-RejectsClosed x n c = parse_char_rule RejectsClosed x n c (record {
  pushes = λ b z. tt;
  joins = λ b z. tt;
  opens = tt;
  closes = close_loop-RejectsClosed c c.patch refl;
  skips = tt;
})

-- A result of the parser that is a failure has no open loop.
abbrev pub ResultClosed : Option (Ctx × ℕ) → Type 0
ResultClosed none = Unit
ResultClosed (some (c, zero)) = Unit
ResultClosed (some (c, suc r)) = c.patch ≡ []

after_round-ResultClosed :
    (go : ℕ → Ctx → Option (Ctx × ℕ)) (fl : Flow)
    → RejectsClosed fl
    → ((n : ℕ) (c : Ctx) → ResultClosed (go n c))
    → ResultClosed (elim fl [ advance n c ↦ go n c | reject c ↦ some (c, 1) ])
after_round-ResultClosed go (advance n c) k h = h n c
after_round-ResultClosed go (reject c) k h = k

parse_loop-ResultClosed : (f : ℕ) (src : List ℕ) (c : Ctx) → ResultClosed (parse_loop f src c)
unfolding parse_loop
parse_loop-ResultClosed zero src c = tt
parse_loop-ResultClosed (suc f) [] c = tt
parse_loop-ResultClosed (suc f) (x ∷ xs) c = elim (Bool-cases (x == 0)) [
  | inl e ↦ rw e tt
  | inr e ↦ rw e (
      after_round-ResultClosed _ (parse_char x (count_char xs x) c) (parse_char-RejectsClosed x _ c)
        (λ n c'. parse_loop-ResultClosed f (drop n (x ∷ xs)) c'))
]

pub ir_ctx_parse-ResultClosed : (c : Ctx) (src : List ℕ) → ResultClosed (ir_ctx_parse c src)
unfolding ir_ctx_parse
ir_ctx_parse-ResultClosed c src = parse_loop-ResultClosed (suc (length src)) src c
