-- ===== src/Meaning/Reader.antt =====
-- The reader of the specification, taken over a run of one character at a time, as the parser of
-- csrc/src/ir_gen.c goes, and over a text in two parts, as `main` of csrc/src/main.c does.
use bfcomp.Prelude.{
  ℕ, zero, suc, ◌≡◌, refl, ap, ◌∙◌, List, [], ◌∷◌, ◌++◌, Option, none, some, inl, inr, ◌==◌, ==_iff,
  Bool-cases, drop,
}
use bfcomp.Parse.{run_length, count_char}
use bfcomp.Meaning.{
  Command, Source, stop, order, append, Token, orders, opening, closing, comment, token, Reading,
  reading, close_cycle, read_token, read_text,
}

-- The source with a character behind it, so many times.
unfoldable pub append_many : ℕ → Command → Source → Source
append_many zero c p = p
append_many (suc n) c p = append_many n c (append p (order c stop))

-- How far a round of the parser goes, and what the reader does there: a bracket is taken alone.
unfoldable pub width : Token → ℕ → ℕ
width (orders c) n = n
width opening n = 1
width closing n = 1
width comment n = n

unfoldable pub read_many : Token → ℕ → Reading → Option Reading
read_many (orders c) n r = some (reading (append_many n c r.body) r.outer)
read_many opening n r = some (reading stop (r.body ∷ r.outer))
read_many closing n r = close_cycle r.body r.outer
read_many comment n r = some r

abbrev pub then_read : Option Reading → List ℕ → Option Reading
then_read o xs = elim o [ none ↦ none | some r ↦ read_text xs r ]

read_text-cons :
    (x : ℕ) (xs : List ℕ) (r : Reading) (t : Token)
    → token x ≡ t
    → read_text (x ∷ xs) r ≡ then_read (read_token t r) xs
unfolding read_text
read_text-cons x xs r t e = ap (λ t. then_read (read_token t r) xs) e

then_read-append :
    (xs ys : List ℕ) (o : Option Reading)
    → ((r : Reading) → read_text (xs ++ ys) r ≡ then_read (read_text xs r) ys)
    → then_read o (xs ++ ys) ≡ then_read (then_read o xs) ys
then_read-append xs ys none h = refl
then_read-append xs ys (some r) h = h r

-- A text in two parts.
pub read_text-append :
    (xs ys : List ℕ) (r : Reading) → read_text (xs ++ ys) r ≡ then_read (read_text xs r) ys
unfolding read_text
read_text-append [] ys r = refl
read_text-append (x ∷ xs) ys r =
    then_read-append xs ys (read_token (token x) r) (λ r'. read_text-append xs ys r')

module _ (x : ℕ) where
  run_of_orders :
      (c : Command) (xs : List ℕ) (r : Reading)
      → token x ≡ orders c
      → read_text xs r
        ≡ read_text
            (drop (run_length xs x) xs)
            (reading (append_many (run_length xs x) c r.body) r.outer)
  unfolding run_length append_many read_token
  run_of_orders c [] r e = refl
  run_of_orders c (y ∷ ys) r e = elim (Bool-cases (y == x)) [
    | inl q ↦ rw q (
        read_text-cons y ys r (orders c) (ap token ((==_iff y x).0 q) ∙ e)
        ∙ run_of_orders c ys (reading (append r.body (order c stop)) r.outer) e)
    | inr q ↦ rw q refl
  ]

  run_of_comments :
      (xs : List ℕ) (r : Reading)
      → token x ≡ comment
      → read_text xs r ≡ read_text (drop (run_length xs x) xs) r
  unfolding run_length read_token
  run_of_comments [] r e = refl
  run_of_comments (y ∷ ys) r e = elim (Bool-cases (y == x)) [
    | inl q ↦
        rw q
          (read_text-cons y ys r comment (ap token ((==_iff y x).0 q) ∙ e) ∙ run_of_comments ys r e)
    | inr q ↦ rw q refl
  ]

  -- The reader goes on behind a run of one character as behind the single characters.
  pub read_text_round :
      (xs : List ℕ) (r : Reading)
      → read_text (x ∷ xs) r
        ≡ then_read
            (read_many (token x) (count_char xs x) r)
            (drop (width (token x) (count_char xs x)) (x ∷ xs))
  unfolding width read_many count_char append_many read_token
  read_text_round xs r = by_token (token x) refl
    where
      by_token :
          (t : Token)
          → token x ≡ t
          → read_text (x ∷ xs) r
            ≡ then_read
                (read_many t (count_char xs x) r)
                (drop (width t (count_char xs x)) (x ∷ xs))
      by_token (orders c) e =
          read_text-cons x xs r (orders c) e
          ∙ run_of_orders c xs (reading (append r.body (order c stop)) r.outer) e
      by_token opening e = read_text-cons x xs r opening e ∙ refl
      by_token closing e = read_text-cons x xs r closing e ∙ refl
      by_token comment e = read_text-cons x xs r comment e ∙ run_of_comments xs r e
