-- ===== src/Meaning/Parser.antt =====
-- `ir_ctx_parse` of csrc/src/ir_gen.c against the reader of the specification.
use bfcomp.Prelude.{
  ℕ, zero, suc, ◌^◌, ◌<◌, sym, subst, List, [], ◌∷◌, Option, none, some, inl, inr, arith, ◌==◌,
  ==_iff, Bool-cases, length, drop, length-drop,
}
use bfcomp.Prelude.Int.{ℤ}
use bfcomp.Ir.{Ctx}
use bfcomp.Parse.{Flow, advance, reject, run_length, count_char, parse_loop, ir_ctx_parse}
use bfcomp.Main.Source.{NoNul, drop-NoNul}
use bfcomp.Meaning.{Token, orders, opening, closing, comment, token, Reading, read_text}
use bfcomp.Meaning.Reader.{width, then_read, read_text_round}
use bfcomp.Meaning.Rounds.{Simulates, FlowSimulates, AllowedToken, parse_char-FlowSimulates}

module _ (Reads : ℤ → Type 0) where
  -- Each `,` may be repeated as often as it is.
  unfoldable pub AllowedText : List ℕ → Type 0
  AllowedText [] = Unit
  AllowedText (x ∷ xs) = AllowedToken Reads (token x) (count_char xs x) × AllowedText xs

  drop-AllowedText : (n : ℕ) (xs : List ℕ) → AllowedText xs → AllowedText (drop n xs)
  unfolding AllowedText
  drop-AllowedText zero xs h = h
  drop-AllowedText (suc n) [] h = h
  drop-AllowedText (suc n) (x ∷ xs) h = drop-AllowedText n xs h.1

  -- The parser accepts what the reader accepts, with such instructions.
  unfoldable pub ResultSimulates : Option (Ctx × ℕ) → Option Reading → Type 0
  ResultSimulates (some (c, zero)) (some r) = Simulates Reads c r
  ResultSimulates (some (c, suc e)) none = Unit
  ResultSimulates _ _ = ⊥

  after_round :
      (go : ℕ → Ctx → Option (Ctx × ℕ)) (xs : List ℕ) (w : ℕ) (fl : Flow) (o : Option Reading)
      → FlowSimulates Reads w fl o
      → ((c : Ctx) (r : Reading) → Simulates Reads c r → ResultSimulates (go w c) (read_text xs r))
      → ResultSimulates (elim fl [ advance n c ↦ go n c | reject c ↦ some (c, 1) ]) (then_read o xs)
  unfolding FlowSimulates ResultSimulates
  after_round go xs w (advance n c) (some r) (q, x) h =
      subst (λ n. ResultSimulates (go n c) (read_text xs r)) (sym q) (h c r x)
  after_round go xs w (advance n c) none x h = absurd x
  after_round go xs w (reject c) (some r) x h = absurd x
  after_round go xs w (reject c) none x h = tt

  width-pos : (t : Token) (k : ℕ) → 0 < width t (suc k)
  unfolding width
  width-pos (orders c) k = omega arith
  width-pos opening k = omega arith
  width-pos closing k = omega arith
  width-pos comment k = omega arith

  shorter :
      (t : Token) (x : ℕ) (xs : List ℕ) (k : ℕ)
      → length (drop (width t (suc k)) (x ∷ xs)) < suc (length xs)
  shorter t x xs k = omega (arith, width-pos t k, length-drop (width t (suc k)) (x ∷ xs))

  parse_loop-ResultSimulates :
      (f : ℕ) (src : List ℕ) (c : Ctx) (r : Reading)
      → length src < f
      → length src < 2 ^ 63
      → NoNul src
      → AllowedText src
      → Simulates Reads c r
      → ResultSimulates (parse_loop f src c) (read_text src r)
  unfolding parse_loop AllowedText count_char
  parse_loop-ResultSimulates zero src c r lt short n a h = absurd (omega arith)
  parse_loop-ResultSimulates (suc f) [] c r lt short n a h = unfold ResultSimulates read_text in h
  parse_loop-ResultSimulates (suc f) (x ∷ xs) c r lt short n a h = elim (Bool-cases (x == 0)) [
    | inl e ↦ absurd (n.0 ((==_iff x 0).0 e))
    | inr e ↦
        rw (e, read_text_round x xs r)
          (let w = width (token x) (count_char xs x) in
            let behind : length (drop w (x ∷ xs)) < suc (length xs) =
              shorter (token x) x xs (run_length xs x) in
            after_round (λ m c. parse_loop f (drop m (x ∷ xs)) c) (drop w (x ∷ xs)) w _ _
              (parse_char-FlowSimulates Reads x xs c r h (omega arith) a.0)
              (λ c' r' h'.
                parse_loop-ResultSimulates f (drop w (x ∷ xs)) c' r' (omega (arith, behind))
                  (omega (arith, behind)) (drop-NoNul w (x ∷ xs) n) (drop-AllowedText w (x ∷ xs) a)
                  h'))
  ]

  -- Take a text with no NUL, of less than 2^63 bytes, and a context whose instructions, loop by loop, do what
  -- was read before. The parser returns 1 exactly if the reader of the specification fails at a bracket; else
  -- it returns 0, and the instructions of its context do, loop by loop, what was read then, character by
  -- character. For this each `,` may be repeated only as often as the instructions are asked to read.
  pub ir_ctx_parse-ResultSimulates :
      (src : List ℕ) (c : Ctx) (r : Reading)
      → length src < 2 ^ 63
      → NoNul src
      → AllowedText src
      → Simulates Reads c r
      → ResultSimulates (ir_ctx_parse c src) (read_text src r)
  unfolding ir_ctx_parse
  ir_ctx_parse-ResultSimulates src c r lt n a h =
      parse_loop-ResultSimulates (suc (length src)) src c r (omega arith) lt n a h
