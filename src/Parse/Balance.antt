-- ===== src/Parse/Balance.antt =====
-- An independent count of the brackets of a text, against `ir_ctx_parse` of csrc/src/ir_gen.c.
use bfcomp.Prelude.{
  ℕ, zero, suc, ◌<◌, ◌≡◌, refl, sym, ap, ◌∙◌, inl, inr, true, false, List, [], ◌∷◌, Option, none,
  some, arith, ◌==◌, ==_iff, if◌then◌else◌, Bool-cases, length, drop, length-drop,
}
use bfcomp.Prelude.Int.{ℤ}
use bfcomp.Ir.{OpKind, Ctx, last?}
use bfcomp.Parse.{
  Flow, advance, reject, run_length, count_char, push_op, accumulate, open_loop, close_loop,
  parse_char, parse_loop, ir_ctx_parse,
}
use bfcomp.Parse.Round.{parse_char-unbracketed}
use bfcomp.Parse.Total.{Moves, parse_char-Moves}
use bfcomp.Parse.Merge.{patch-add_to_last}

-- What one character does to the number of open loops.
pub data Change : Type 0 where
  to : ℕ → Change
  ends : Change
  unmatched : Change

abbrev pub close_one : ℕ → Change
close_one zero = unmatched
close_one (suc d) = to d

unfoldable pub change : ℕ → ℕ → Change
change x d =
    if x == 0
    then ends
    else if x == b'['
    then to (suc d)
    else if x == b']'
    then close_one d
    else to d

-- The number of loops that a text leaves open, or `none` for a bracket with no partner to its left.
unfoldable pub balance : ℕ → List ℕ → Option ℕ
balance d [] = some d
balance d (x ∷ xs) = elim (change x d) [ to d' ↦ balance d' xs | ends ↦ some d | unmatched ↦ none ]

-- The return value of the parser, and how many loops are open then.
abbrev pub verdict : Ctx × ℕ → Option ℕ
verdict (c, zero) = some (length c.patch)
verdict (c, suc r) = none

pub balance-to :
    (x d d' : ℕ) (xs : List ℕ) → change x d ≡ to d' → balance d (x ∷ xs) ≡ balance d' xs
unfolding balance
balance-to x d d' xs e = rw (e, balance)

-- A run of one character that is no bracket changes nothing.
balance-drop_run :
    (x d : ℕ) (xs : List ℕ)
    → change x d ≡ to d
    → balance d (drop (run_length xs x) xs) ≡ balance d xs
unfolding run_length
balance-drop_run x d [] h = refl
balance-drop_run x d (y ∷ ys) h = elim (Bool-cases (y == x)) [
  | inl e ↦ rw e (
      balance-drop_run x d ys h
      ∙ sym (balance-to y d d ys (ap (λ t. change t d) ((==_iff y x).0 e) ∙ h)))
  | inr e ↦ rw e
]

-- The outcome of a round agrees with the count.
abbrev Agrees : ℕ → List ℕ → Flow → Type 0
Agrees d src (advance n c) = balance d src ≡ balance (length c.patch) (drop n src)
Agrees d src (reject c) = balance d src ≡ none

patch-accumulate : (k : OpKind) (z : ℤ) (c : Ctx) → (accumulate k z c).patch ≡ c.patch
unfolding accumulate
patch-accumulate k z c = patch-add_to_last k z c (last? c.code)

module _ (x : ℕ) (xs : List ℕ) (c : Ctx) (not_end : (x == 0) ≡ false) where
  other-Agrees :
      (x == b'[') ≡ false
      → (x == b']') ≡ false
      → Agrees (length c.patch) (x ∷ xs) (parse_char x (count_char xs x) c)
  unfolding count_char
  other-Agrees e₁ e₂ =
      parse_char-unbracketed (Agrees (length c.patch) (x ∷ xs)) x (count_char xs x) c e₁ e₂
        (λ b z. unfold push_op in skipped)
        (λ b z.
          skipped
          ∙ ap (λ p. balance (length p) (drop (run_length xs x) xs)) (sym (patch-accumulate _ z c)))
        skipped
    where
      still : change x (length c.patch) ≡ to (length c.patch)
      still = unfold change in rw (not_end, e₁, e₂)

      skipped :
          balance (length c.patch) (x ∷ xs) ≡ balance (length c.patch) (drop (run_length xs x) xs)
      skipped = balance-to x _ _ xs still ∙ sym (balance-drop_run x (length c.patch) xs still)

open-Agrees :
    (xs : List ℕ) (n : ℕ) (c : Ctx) → Agrees (length c.patch) (b'[' ∷ xs) (parse_char b'[' n c)
unfolding parse_char open_loop
open-Agrees xs n c = balance-to b'[' (length c.patch) _ xs (unfold change in refl)

close_loop-Agrees :
    (xs : List ℕ) (c : Ctx) (p : List ℕ) → Agrees (length p) (b']' ∷ xs) (close_loop c p)
unfolding close_loop
close_loop-Agrees xs c [] = unfold balance change in refl
close_loop-Agrees xs c (a ∷ p) = balance-to b']' _ (length p) xs (unfold change in refl)

close-Agrees :
    (xs : List ℕ) (n : ℕ) (c : Ctx) → Agrees (length c.patch) (b']' ∷ xs) (parse_char b']' n c)
unfolding parse_char
close-Agrees xs n c = close_loop-Agrees xs c c.patch

parse_char-Agrees :
    (x : ℕ) (xs : List ℕ) (c : Ctx)
    → (x == 0) ≡ false
    → Agrees (length c.patch) (x ∷ xs) (parse_char x (count_char xs x) c)
parse_char-Agrees x xs c e = elim (Bool-cases (x == b'[')) [
  | inl o ↦ rw ((==_iff x b'[').0 o) (open-Agrees xs (count_char xs b'[') c)
  | inr no_open ↦ elim (Bool-cases (x == b']')) [
    | inl o ↦ rw ((==_iff x b']').0 o) (close-Agrees xs (count_char xs b']') c)
    | inr no_close ↦ other-Agrees x xs c e no_open no_close
  ]
]

-- The loop ends with a result whose verdict is the given one.
abbrev pub EndsWith : Option ℕ → Option (Ctx × ℕ) → Type 0
EndsWith v o = (r : Ctx × ℕ) × (o ≡ some r) × (verdict r ≡ v)

after_round-EndsWith :
    (go : ℕ → Ctx → Option (Ctx × ℕ)) (d : ℕ) (src : List ℕ) (fl : Flow)
    → Agrees d src fl
    → Moves fl
    → ((n : ℕ) (c : Ctx) → 0 < n → EndsWith (balance (length c.patch) (drop n src)) (go n c))
    → EndsWith (balance d src) (elim fl [ advance n c ↦ go n c | reject c ↦ some (c, 1) ])
after_round-EndsWith go d src (advance n c) a m h = rw a (h n c m)
after_round-EndsWith go d src (reject c) a m h = ((c, 1), refl, sym a)

balance-nul : (x d : ℕ) (xs : List ℕ) → (x == 0) ≡ true → balance d (x ∷ xs) ≡ some d
unfolding balance change
balance-nul x d xs e = ground arith

parse_loop-balance :
    (f : ℕ) (src : List ℕ) (c : Ctx)
    → length src < f
    → EndsWith (balance (length c.patch) src) (parse_loop f src c)
unfolding parse_loop
parse_loop-balance zero src c h = elim h [ ]
parse_loop-balance (suc f) [] c h = ((c, 0), refl, unfold balance in refl)
parse_loop-balance (suc f) (x ∷ xs) c h = elim (Bool-cases (x == 0)) [
  | inl e ↦ rw e ((c, 0), refl, sym (balance-nul x (length c.patch) xs e))
  | inr e ↦ rw e (
      after_round-EndsWith _ (length c.patch) (x ∷ xs) (parse_char x (count_char xs x) c)
        (parse_char-Agrees x xs c e) (parse_char-Moves x _ c (unfold count_char in omega arith))
        (λ n c' m.
          parse_loop-balance f (drop n (x ∷ xs)) c' (omega (arith, length-drop n (x ∷ xs)))))
]

-- The parser always ends. It returns 1 exactly if the text, up to its first NUL, has a `]` with no
-- partner to its left, counting the loops that were open before; else it returns 0, and the chain
-- of patches is as long as the number of loops that the text leaves open.
pub ir_ctx_parse-balance :
    (c : Ctx) (src : List ℕ) → EndsWith (balance (length c.patch) src) (ir_ctx_parse c src)
unfolding ir_ctx_parse
ir_ctx_parse-balance c src = parse_loop-balance (suc (length src)) src c (omega arith)
