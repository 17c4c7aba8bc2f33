-- ===== src/Meaning/Rounds.antt =====
-- A round of `ir_ctx_parse` (csrc/src/ir_gen.c) against the reader of the specification.
use bfcomp.Prelude.{
  ℕ, suc, ◌^◌, ◌≡◌, ◌<◌, refl, List, [], ◌∷◌, Option, none, some, Bool, true, false, arith, ◌==◌,
  if◌then◌else◌, length,
}
use bfcomp.Prelude.Int.{ℤ}
use bfcomp.Ir.{Ctx}
use bfcomp.Prog.{Prog, kind_of}
use bfcomp.Parse.{
  Flow, advance, reject, run_length, count_char, push_op, accumulate, open_loop, close_loop,
  parse_char,
}
use bfcomp.Parse.Weight.{run_length-le}
use bfcomp.Parse.Nesting.{
  IsNestedAs, push_op-IsNestedAs, accumulate-IsNestedAs, open_loop-IsNestedAs, ClosesAs,
  close_loop-ClosesAs,
}
use bfcomp.Meaning.{
  Command, right, left, inc, dec, put, take, Source, Token, orders, opening, closing, comment,
  token, Reading, close_cycle,
}
use bfcomp.Meaning.Joining.{Joinable}
use bfcomp.Meaning.Counted.{basic_of, count_arg, Allowed}
use bfcomp.Meaning.Reader.{width, read_many}
use bfcomp.Meaning.Simulates.{Refines, Refines-stop, Refines-push, Refines-join, Refines-close}

both_sides :
    {A B : Type 0} (P : A → B → Type 0) (b : Bool) {x y : A} {x' y' : B}
    → P x x'
    → P y y'
    → P (if b then x else y) (if b then x' else y')
both_sides P true h k = h
both_sides P false h k = k

module _ (Reads : ℤ → Type 0) where
  unfoldable pub RefineAll : List Source → List Prog → Type 0
  RefineAll [] [] = Unit
  RefineAll (p ∷ ps) (q ∷ qs) = Refines Reads p q × RefineAll ps qs
  RefineAll _ _ = ⊥

  -- The instructions are those of programs that do what was read, loop by loop.
  pub record Simulates (c : Ctx) (r : Reading) : Type 0 where
    pub cur : Prog
    pub around : List Prog
    pub nested : IsNestedAs c cur around
    pub inner : Refines Reads r.body cur
    pub outside : RefineAll r.outer around

  unfoldable pub FlowSimulates : ℕ → Flow → Option Reading → Type 0
  FlowSimulates w (advance n c) (some r) = (n ≡ w) × Simulates c r
  FlowSimulates w (reject c) none = Unit
  FlowSimulates w _ _ = ⊥

  module _ (c : Ctx) (r : Reading) (h : Simulates c r) (k : ℕ) (lt : suc k < 2 ^ 63) where
    pushed :
        (o : Command)
        → Allowed Reads o (suc k)
        → FlowSimulates
            (suc k)
            (advance (suc k) (push_op (kind_of (basic_of o)) (count_arg o (suc k)) c))
            (read_many (orders o) (suc k) r)
    unfolding FlowSimulates read_many
    pushed o a = (
      refl,
      record {
        cur = _;
        around = h.around;
        nested = push_op-IsNestedAs c h.cur h.around h.nested (basic_of o) (count_arg o (suc k));
        inner = Refines-push Reads o k r.body h.cur h.inner lt a;
        outside = h.outside;
      },
    )

    joined :
        (o : Command)
        → Joinable (basic_of o)
        → Allowed Reads o (suc k)
        → FlowSimulates
            (suc k)
            (advance (suc k) (accumulate (kind_of (basic_of o)) (count_arg o (suc k)) c))
            (read_many (orders o) (suc k) r)
    unfolding FlowSimulates read_many
    joined o j a = (
      refl,
      record {
        cur = _;
        around = h.around;
        nested = accumulate-IsNestedAs c h.cur h.around h.nested (basic_of o) (count_arg o (suc k));
        inner = Refines-join Reads o k r.body h.cur h.inner lt a j;
        outside = h.outside;
      },
    )

    opened : FlowSimulates 1 (advance 1 (open_loop c)) (read_many opening (suc k) r)
    unfolding FlowSimulates read_many RefineAll
    opened = (
      refl,
      record {
        cur = _;
        around = _;
        nested = open_loop-IsNestedAs c h.cur h.around h.nested;
        inner = Refines-stop Reads;
        outside = (h.inner, h.outside);
      },
    )

  closed :
      (b : Source) (cur : Prog) (ps : List Source) (qs : List Prog) (fl : Flow)
      → Refines Reads b cur
      → RefineAll ps qs
      → ClosesAs cur qs fl
      → FlowSimulates 1 fl (close_cycle b ps)
  unfolding FlowSimulates RefineAll ClosesAs close_cycle
  closed b cur [] [] (advance n c) h k x = x
  closed b cur [] [] (reject c) h k x = tt
  closed b cur [] (q ∷ qs) fl h k x = absurd k
  closed b cur (p ∷ ps) [] fl h k x = absurd k
  closed b cur (p ∷ ps) (q ∷ qs) (advance n c) h k x = (
    x.0,
    record {
      cur = _;
      around = qs;
      nested = x.1;
      inner = Refines-close Reads b p cur q h k.0;
      outside = k.1;
    },
  )
  closed b cur (p ∷ ps) (q ∷ qs) (reject c) h k x = x

  -- What a `,` that is repeated needs.
  abbrev pub AllowedToken : Token → ℕ → Type 0
  AllowedToken t n = (o : Command) → t ≡ orders o → Allowed Reads o n

  -- A round of the parser does what the reader does over the characters that it takes.
  parse_char_counted-FlowSimulates :
      (x : ℕ) (c : Ctx) (r : Reading) (k : ℕ)
      → Simulates c r
      → suc k < 2 ^ 63
      → AllowedToken (token x) (suc k)
      → FlowSimulates
          (width (token x) (suc k))
          (parse_char x (suc k) c)
          (read_many (token x) (suc k) r)
  unfolding parse_char token width Joinable basic_of count_arg
  parse_char_counted-FlowSimulates x c r k h lt =
      both_sides Goal (x == b',') (λ a. pushed c r h k lt take (a take refl))
        (both_sides Goal (x == b'.') (λ a. pushed c r h k lt put (a put refl))
          (both_sides Goal (x == b'+') (λ a. joined c r h k lt inc tt (a inc refl))
            (both_sides Goal (x == b'-') (λ a. joined c r h k lt dec tt (a dec refl))
              (both_sides Goal (x == b'>') (λ a. joined c r h k lt right tt (a right refl))
                (both_sides Goal (x == b'<') (λ a. joined c r h k lt left tt (a left refl))
                  (both_sides Goal (x == b'[') (λ a. opened c r h k lt)
                    (both_sides Goal (x == b']') (λ a. closes) (λ a. skipped))))))))
    where
      Goal : Flow → Token → Type 0
      Goal fl t =
          AllowedToken t (suc k) → FlowSimulates (width t (suc k)) fl (read_many t (suc k) r)

      closes : FlowSimulates 1 (close_loop c c.patch) (read_many closing (suc k) r)
      closes =
          unfold read_many in
          closed r.body h.cur r.outer h.around (close_loop c c.patch) h.inner h.outside
            (close_loop-ClosesAs c h.cur h.around h.nested)

      skipped : FlowSimulates (suc k) (advance (suc k) c) (read_many comment (suc k) r)
      skipped = unfold FlowSimulates read_many in (refl, h)

  -- With the number of times that the parser counts.
  pub parse_char-FlowSimulates :
      (x : ℕ) (xs : List ℕ) (c : Ctx) (r : Reading)
      → Simulates c r
      → suc (length xs) < 2 ^ 63
      → AllowedToken (token x) (count_char xs x)
      → FlowSimulates
          (width (token x) (count_char xs x))
          (parse_char x (count_char xs x) c)
          (read_many (token x) (count_char xs x) r)
  unfolding count_char
  parse_char-FlowSimulates x xs c r h lt a =
      parse_char_counted-FlowSimulates x c r (run_length xs x) h (omega (arith, run_length-le xs x))
        a
