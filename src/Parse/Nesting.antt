-- ===== src/Parse/Nesting.antt =====
-- The nesting of the instructions in the context of the parser, csrc/src/ir_gen.c.
use bfcomp.Prelude.{
  ℕ, zero, suc, ◌+◌, ◌≡◌, refl, sym, ap, subst, ◌∙◌, inl, inr, List, [], ◌∷◌, ◌++◌, Option, none,
  some, ◌==◌, Bool-cases, length, length-append, drop, set,
}
use mathlib.Core.List.{append_assoc}
use bfcomp.Prelude.Int.{ℤ, pos, ◌-ℤ◌, int_laws}
use bfcomp.Word.{to_i64}
use bfcomp.Ir.{OpKind, Op, op, Ctx}
use bfcomp.Prog.{
  Basic, Prog, done, basic, loop, kind_of, jump, flatten, seq, join_last, flatten_open, open_addrs,
}
use bfcomp.Prog.Laws.{flatten_open-seq}
use bfcomp.Parse.{
  Flow, advance, reject, count_char, push_op, accumulate, open_loop, close_loop, parse_char,
  parse_loop, ir_ctx_parse,
}
use bfcomp.Parse.Round.{parse_char_rule}
use bfcomp.Parse.Merge.{merged, bracket_of, code-accumulate, patch-add_to_last, merged-flatten_open}

-- The instructions are the layout of a program with open loops, and the patches say where those
-- begin.
pub record IsNestedAs (c : Ctx) (cur : Prog) (outer : List Prog) : Type 0 where
  pub laid_out : c.code ≡ flatten_open cur outer
  pub patched : c.patch ≡ open_addrs outer

abbrev pub IsNested : Ctx → Type 0
IsNested c = (cur : Prog) × (outer : List Prog) × IsNestedAs c cur outer

-- The instruction at the end of a program, or after a list of instructions.
set-middle :
    (xs : List Op) (y v : Op) (ys : List Op) → set (xs ++ y ∷ ys) (length xs) v ≡ xs ++ v ∷ ys
set-middle [] y v ys = refl
set-middle (x ∷ xs) y v ys = ap (λ t. x ∷ t) (set-middle xs y v ys)

-- The jump that `close_loop` computes is over the body of the loop.
pub delta-jump :
    (xs : List Op) (y : Op) (body : List Op)
    → to_i64 (pos (length (xs ++ y ∷ body)) -ℤ pos (length xs)) ≡ jump (length body)
delta-jump xs y body = ap to_i64 (difference (length xs) (length-append xs (y ∷ body)))
  where
    difference :
        (n : ℕ) {m : ℕ} → m ≡ n + suc (length body) → pos m -ℤ pos n ≡ pos (suc (length body))
    difference n e = omega (int_laws, e)

-- What a round keeps.
abbrev KeepsNested : Flow → Type 0
KeepsNested (advance n c) = IsNested c
KeepsNested (reject c) = IsNested c

module _ (c : Ctx) (cur : Prog) (outer : List Prog) (h : IsNestedAs c cur outer) where
  pub push_op-IsNestedAs :
      (b : Basic) (z : ℤ)
      → IsNestedAs (push_op (kind_of b) z c) (seq cur (basic b (to_i64 z) done)) outer
  unfolding push_op
  push_op-IsNestedAs b z = record {
    laid_out = rw (h.laid_out, flatten_open-seq) (unfold flatten in refl);
    patched = h.patched;
  }

  pub accumulate-IsNestedAs :
      (b : Basic) (d : ℤ) → IsNestedAs (accumulate (kind_of b) d c) (join_last b d cur) outer
  unfolding accumulate
  accumulate-IsNestedAs b d = record {
    laid_out =
        code-accumulate (kind_of b) d c.code c.patch
        ∙ ap (merged (kind_of b) d) h.laid_out
        ∙ merged-flatten_open b d cur outer;
    patched = patch-add_to_last (kind_of b) d c _ ∙ h.patched;
  }

  pub open_loop-IsNestedAs : IsNestedAs (open_loop c) done (cur ∷ outer)
  unfolding open_loop flatten_open open_addrs flatten
  open_loop-IsNestedAs = record { laid_out = rw h.laid_out; patched = rw (h.laid_out, h.patched) }

pub close_loop-laid_out :
    (xs : List Op) (cur : Prog)
    → set
          (xs ++ op OpKind.loop_start (pos 0) ∷ flatten cur)
          (length xs)
          (op OpKind.loop_start (jump (length (flatten cur))))
        ++ bracket_of cur ∷ []
      ≡ xs ++ flatten (loop cur done)
unfolding flatten
close_loop-laid_out xs cur = simp (set-middle, append_assoc)

-- What the bracket `]` leaves: it fails if no loop is open.
unfoldable pub ClosesAs : Prog → List Prog → Flow → Type 0
ClosesAs cur [] (advance n c) = ⊥
ClosesAs cur [] (reject c) = IsNestedAs c cur []
ClosesAs cur (p ∷ ps) (advance n c) = (n ≡ 1) × IsNestedAs c (seq p (loop cur done)) ps
ClosesAs cur (p ∷ ps) (reject c) = ⊥

close_at-ClosesAs :
    (c : Ctx) (cur : Prog) (outer : List Prog)
    → IsNestedAs c cur outer
    → ClosesAs cur outer (close_loop c (open_addrs outer))
unfolding close_loop open_addrs flatten_open ClosesAs
close_at-ClosesAs c cur [] h = h
close_at-ClosesAs c cur (p ∷ ps) h = (
  refl,
  record {
    laid_out =
        rw (h.laid_out, flatten_open, delta-jump, flatten_open-seq)
          (close_loop-laid_out (flatten_open p ps) cur);
    patched = refl;
  },
)

pub close_loop-ClosesAs :
    (c : Ctx) (cur : Prog) (outer : List Prog)
    → IsNestedAs c cur outer
    → ClosesAs cur outer (close_loop c c.patch)
close_loop-ClosesAs c cur outer h =
    subst (λ q. ClosesAs cur outer (close_loop c q)) (sym h.patched)
      (close_at-ClosesAs c cur outer h)

ClosesAs-KeepsNested :
    (cur : Prog) (outer : List Prog) (fl : Flow) → ClosesAs cur outer fl → KeepsNested fl
unfolding ClosesAs
ClosesAs-KeepsNested cur [] (advance n c) h = absurd h
ClosesAs-KeepsNested cur [] (reject c) h = (cur, [], h)
ClosesAs-KeepsNested cur (p ∷ ps) (advance n c) h = (seq p (loop cur done), ps, h.1)
ClosesAs-KeepsNested cur (p ∷ ps) (reject c) h = absurd h

parse_char-KeepsNested : (x n : ℕ) (c : Ctx) → IsNested c → KeepsNested (parse_char x n c)
parse_char-KeepsNested x n c (cur, outer, h) = parse_char_rule KeepsNested x n c (record {
  pushes = λ b z. (_, outer, push_op-IsNestedAs c cur outer h b z);
  joins = λ b z. (_, outer, accumulate-IsNestedAs c cur outer h b z);
  opens = (_, _, open_loop-IsNestedAs c cur outer h);
  closes = ClosesAs-KeepsNested cur outer _ (close_loop-ClosesAs c cur outer h);
  skips = (cur, outer, h);
})

-- A result of the parser has a well-nested context.
abbrev pub ResultNested : Option (Ctx × ℕ) → Type 0
ResultNested none = Unit
ResultNested (some (c, r)) = IsNested c

after_round-Nested :
    (go : ℕ → Ctx → Option (Ctx × ℕ)) (fl : Flow)
    → KeepsNested fl
    → ((n : ℕ) (c : Ctx) → IsNested c → ResultNested (go n c))
    → ResultNested (elim fl [ advance n c ↦ go n c | reject c ↦ some (c, 1) ])
after_round-Nested go (advance n c) k h = h n c k
after_round-Nested go (reject c) k h = k

parse_loop-IsNested :
    (f : ℕ) (src : List ℕ) (c : Ctx) → IsNested c → ResultNested (parse_loop f src c)
unfolding parse_loop
parse_loop-IsNested zero src c h = tt
parse_loop-IsNested (suc f) [] c h = h
parse_loop-IsNested (suc f) (x ∷ xs) c h = elim (Bool-cases (x == 0)) [
  | inl e ↦ rw e h
  | inr e ↦ rw e (
      after_round-Nested _ (parse_char x (count_char xs x) c) (parse_char-KeepsNested x _ c h)
        (λ n c'. parse_loop-IsNested f (drop n (x ∷ xs)) c'))
]

-- Whatever the text, the parser keeps the instructions the layout of a well-nested program with
-- some loops still open, and the chain of patches the addresses of those loops' brackets.
pub ir_ctx_parse-IsNested :
    (c : Ctx) (src : List ℕ) → IsNested c → ResultNested (ir_ctx_parse c src)
unfolding ir_ctx_parse
ir_ctx_parse-IsNested c src = parse_loop-IsNested (suc (length src)) src c
