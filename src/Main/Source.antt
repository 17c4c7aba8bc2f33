-- ===== src/Main/Source.antt =====
-- The reading of the source file in chunks, in `main` of csrc/src/main.c, for a file with no NUL.
use bfcomp.Prelude.{
  ℕ, zero, suc, ◌<◌, ◌≡◌, refl, sym, ap, ◌∙◌, ◌≢◌, List, [], ◌∷◌, ◌++◌, Option, none, some, arith,
  ◌==◌, ==_iff, Bool-cases, inl, inr, length, length-drop, take, drop, take-append-drop, subst,
}
use bfcomp.Ir.{Ctx, empty_ctx}
use bfcomp.Parse.{ir_ctx_parse}
use bfcomp.Parse.Balance.{
  Change, to, ends, unmatched, change, close_one, balance, verdict, EndsWith, ir_ctx_parse-balance,
}
use bfcomp.Options.{Text, Options, success}
use bfcomp.Main.{buf_len, after_chunk, read_loop, rejected, after_source, main}
use bfcomp.Main.Weight.{opened}

abbrev pub NoNul : List ℕ → Type 0
NoNul [] = Unit
NoNul (x ∷ xs) = (x ≢ 0) × NoNul xs

abbrev then_balance : Option ℕ → List ℕ → Option ℕ
then_balance none ys = none
then_balance (some d) ys = balance d ys

abbrev GoesOn : Change → Type 0
GoesOn (to d) = Unit
GoesOn ends = ⊥
GoesOn unmatched = Unit

close_one-GoesOn : (d : ℕ) → GoesOn (close_one d)
close_one-GoesOn zero = tt
close_one-GoesOn (suc d) = tt

change-GoesOn : (x d : ℕ) → x ≢ 0 → GoesOn (change x d)
unfolding change
change-GoesOn x d h = elim (Bool-cases (x == 0)) [
  | inl e ↦ absurd (h ((==_iff x 0).0 e))
  | inr e ↦ rw e (elim (Bool-cases (x == b'[')) [
    | inl e₁ ↦ rw e₁ tt
    | inr e₁ ↦
        rw e₁ (elim (Bool-cases (x == b']')) [
          | inl e₂ ↦ rw e₂ (close_one-GoesOn d)
          | inr e₂ ↦ rw e₂ tt
        ])
  ])
]

abbrev Count : Type 0
Count = ℕ → Option ℕ

after_change : Change → Count → ℕ → Option ℕ
after_change k f d = elim k [ to d' ↦ f d' | ends ↦ some d | unmatched ↦ none ]

after_change-then :
    (k : Change) (f g : Count) (ys : List ℕ) (d : ℕ)
    → GoesOn k
    → ((d' : ℕ) → f d' ≡ then_balance (g d') ys)
    → elim k [ to d' ↦ f d' | ends ↦ some d | unmatched ↦ none ]
      ≡ then_balance (elim k [ to d' ↦ g d' | ends ↦ some d | unmatched ↦ none ]) ys
after_change-then (to d') f g ys d n h = h d'
after_change-then ends f g ys d n h = absurd n
after_change-then unmatched f g ys d n h = refl

-- The count over a text goes on where the count over its first part ends.
balance-append :
    (xs ys : List ℕ) (d : ℕ) → NoNul xs → balance d (xs ++ ys) ≡ then_balance (balance d xs) ys
unfolding balance
balance-append [] ys d h = refl
balance-append (x ∷ xs) ys d h =
    after_change-then (change x d) (λ d'. balance d' (xs ++ ys)) (λ d'. balance d' xs) ys d
      (change-GoesOn x d h.0) (λ d'. balance-append xs ys d' h.1)

pub take-NoNul : (n : ℕ) (xs : List ℕ) → NoNul xs → NoNul (take n xs)
take-NoNul zero xs h = tt
take-NoNul (suc n) [] h = tt
take-NoNul (suc n) (x ∷ xs) h = (h.0, take-NoNul n xs h.1)

pub drop-NoNul : (n : ℕ) (xs : List ℕ) → NoNul xs → NoNul (drop n xs)
drop-NoNul zero xs h = h
drop-NoNul (suc n) [] h = tt
drop-NoNul (suc n) (x ∷ xs) h = drop-NoNul n xs h.1

chunk-balance :
    (n : ℕ) (xs : List ℕ) (d : ℕ)
    → NoNul xs
    → balance d xs ≡ then_balance (balance d (take n xs)) (drop n xs)
chunk-balance n xs d h =
    ap (balance d) (sym (take-append-drop n xs))
    ∙ balance-append (take n xs) (drop n xs) d (take-NoNul n xs h)

pub verdict-EndsWith : (v : Option ℕ) (r : Ctx × ℕ) → EndsWith v (some r) → verdict r ≡ v
verdict-EndsWith v r (r', e, h) = cc

-- A chunk and what is behind it.
after_chunk-EndsWith :
    (rest : List ℕ) (more : Ctx → Option (Ctx × ℕ)) (d : ℕ) (o : Option (Ctx × ℕ))
    → NoNul rest
    → EndsWith (balance d (take buf_len rest)) o
    → ((c : Ctx)
        → 0 < length rest
        → EndsWith (balance (length c.patch) (drop buf_len rest)) (more c))
    → EndsWith (balance d rest) (after_chunk (take buf_len rest) o more)
unfolding after_chunk
after_chunk-EndsWith rest more d none h (r, e, v) m = absurd cc
after_chunk-EndsWith rest more d (some (c, suc r)) h e m = (
  (c, 1),
  refl,
  sym (
      chunk-balance buf_len rest d h
      ∙ ap (λ b. then_balance b (drop buf_len rest)) (sym (verdict-EndsWith _ (c, suc r) e))),
)
after_chunk-EndsWith [] more d (some (c, zero)) h e m = ((c, 0), refl, verdict-EndsWith _ (c, 0) e)
after_chunk-EndsWith (x ∷ xs) more d (some (c, zero)) h e m =
    subst (λ v. EndsWith v (more c))
      (sym (
        chunk-balance buf_len (x ∷ xs) d h
        ∙ ap (λ b. then_balance b (drop buf_len (x ∷ xs))) (sym (verdict-EndsWith _ (c, 0) e))))
      (m c (omega arith))

read_loop-EndsWith :
    (f : ℕ) (c : Ctx) (rest : List ℕ)
    → NoNul rest
    → length rest < f
    → EndsWith (balance (length c.patch) rest) (read_loop f c rest)
unfolding read_loop
read_loop-EndsWith zero c rest n h = absurd (omega arith)
read_loop-EndsWith (suc f) c rest n h =
    after_chunk-EndsWith rest (λ c'. read_loop f c' (drop buf_len rest)) (length c.patch)
      (ir_ctx_parse c (take buf_len rest)) n (ir_ctx_parse-balance c (take buf_len rest))
      (λ c' pos'.
        read_loop-EndsWith f c' (drop buf_len rest) (drop-NoNul buf_len rest n)
          (omega (arith, length-drop buf_len rest)))

-- Reading a file with no NUL, which goes chunk by chunk, always ends, and it comes to what the count
-- of the brackets of the whole file says: a bracket `]` with no partner to its left makes it fail,
-- wherever the chunks begin, and else the chain of patches is as long as the number of loops left open.
pub read_loop-balance :
    (src : List ℕ)
    → NoNul src
    → EndsWith (balance 0 src) (read_loop (suc (length src)) empty_ctx src)
read_loop-balance src h = read_loop-EndsWith (suc (length src)) empty_ctx src h (omega arith)

by_verdict-rejected :
    (o : Options) (r : Option (Ctx × ℕ)) → EndsWith none r → after_source o r ≡ some rejected
unfolding after_source
by_verdict-rejected o none (r, e, v) = absurd cc
by_verdict-rejected o (some (c, suc r)) e = refl
by_verdict-rejected o (some (c, zero)) e = (let q = verdict-EndsWith none (c, 0) e in absurd cc)

module _ (files : Text → Option (List ℕ)) (o : Options) (name : Text) (src : List ℕ)
    (named : o.input_name ≡ some name) (found : files name ≡ some src) (no_nul : NoNul src) where
  -- If the options name a file that exists, has no NUL and has a bracket `]` with no partner to its
  -- left, `main` ends with the error of the parser, whatever the mode.
  pub main-rejected : balance 0 src ≡ none → main files (success o) ≡ some rejected
  main-rejected e =
      let r = read_loop (suc (length src)) empty_ctx src in
      opened files o name src named found
      ∙ by_verdict-rejected o r (subst (λ v. EndsWith v r) e (read_loop-balance src no_nul))
