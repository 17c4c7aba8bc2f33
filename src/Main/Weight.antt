-- ===== src/Main/Weight.antt =====
-- How large the program is that `main` (csrc/src/main.c) makes of its source file.
use bfcomp.Prelude.{
  ℕ, zero, suc, ◌+◌, ◌*◌, ◌≡◌, ◌≤◌, subst, sym, List, [], ◌∷◌, Option, none, some, Bool, true,
  false, arith, take, drop, length, length-append, take-append-drop, ap,
}
use bfcomp.Ir.{Ctx, empty_ctx}
use bfcomp.Prog.Weight.{weight}
use bfcomp.Parse.{ir_ctx_parse}
use bfcomp.Parse.Weight.{ResultWeight, ResultWeight-mono, ir_ctx_parse-weight}
use bfcomp.Dump.{ir_ctx_dump_ir}
use bfcomp.Options.{Text, Options, success}
use bfcomp.Main.{
  buf_len, after_chunk, read_loop, Action, printed, interprets, compiles, choose_mode, after_source,
  open_source, main,
}

after_chunk-weight :
    (chunk : List ℕ) (more : Ctx → Option (Ctx × ℕ)) (w total : ℕ) (o : Option (Ctx × ℕ))
    → ResultWeight w o
    → w ≤ total
    → ((c : Ctx) → weight c.code ≤ w → ResultWeight total (more c))
    → ResultWeight total (after_chunk chunk o more)
unfolding after_chunk
after_chunk-weight chunk more w total none h le m = tt
after_chunk-weight chunk more w total (some (c, suc r)) h le m = omega (arith, h, le)
after_chunk-weight [] more w total (some (c, zero)) h le m = omega (arith, h, le)
after_chunk-weight (x ∷ xs) more w total (some (c, zero)) h le m = m c h

parted : (n : ℕ) (xs : List ℕ) → length xs ≡ length (take n xs) + length (drop n xs)
parted n xs =
    omega (arith, ap length (take-append-drop n xs), length-append (take n xs) (drop n xs))

read_loop-weight :
    (f : ℕ) (c : Ctx) (rest : List ℕ)
    → ResultWeight (weight c.code + 2 * length rest) (read_loop f c rest)
unfolding read_loop
read_loop-weight zero c rest = tt
read_loop-weight (suc f) c rest =
    after_chunk-weight (take buf_len rest) (λ c'. read_loop f c' (drop buf_len rest))
      (weight c.code + 2 * length (take buf_len rest)) (weight c.code + 2 * length rest)
      (ir_ctx_parse c (take buf_len rest)) (ir_ctx_parse-weight c (take buf_len rest))
      (omega (arith, parted buf_len rest))
      (λ c' h.
        ResultWeight-mono _ _ (read_loop f c' (drop buf_len rest))
          (omega (arith, parted buf_len rest, h)) (read_loop-weight f c' (drop buf_len rest)))

-- The measure of the program that an action goes on with.
abbrev pub ActionWeight : ℕ → Option Action → Type 0
ActionWeight w (some (interprets c)) = weight c.code ≤ w
ActionWeight w (some (compiles c name)) = weight c.code ≤ w
ActionWeight w _ = Unit

choose_mode-weight :
    (o : Options) (c : Ctx) (w : ℕ) → weight c.code ≤ w → ActionWeight w (some (choose_mode o c))
unfolding choose_mode
choose_mode-weight o c w h = by_dump o.dump_ir
  where
    by_output :
        (name : Option Text)
        → ActionWeight w (some (elim name [ none ↦ interprets c | some n ↦ compiles c n ]))
    by_output none = h
    by_output (some n) = h

    by_dump :
        (b : Bool)
        → ActionWeight w (
            some (elim b [
              | true ↦ printed (ir_ctx_dump_ir c)
              | false ↦ elim o.output_name [ none ↦ interprets c | some n ↦ compiles c n ]
            ]))
    by_dump true = tt
    by_dump false = by_output o.output_name

after_source-weight :
    (o : Options) (w : ℕ) (r : Option (Ctx × ℕ))
    → ResultWeight w r
    → ActionWeight w (after_source o r)
unfolding after_source
after_source-weight o w none h = tt
after_source-weight o w (some (c, zero)) h = choose_mode-weight o c w h
after_source-weight o w (some (c, suc r)) h = tt

module _ (files : Text → Option (List ℕ)) (o : Options) (name : Text) (src : List ℕ)
    (named : o.input_name ≡ some name) (found : files name ≡ some src) where
  pub opened : main files (success o) ≡ after_source o (read_loop (suc (length src)) empty_ctx src)
  unfolding main open_source
  opened = simp (named, found)

  -- The measure of the program that `main` goes on with is at most twice the length of the file.
  pub main-weight : ActionWeight (2 * length src) (main files (success o))
  unfolding weight
  main-weight = subst (ActionWeight (2 * length src)) (sym opened) (
      after_source-weight o (2 * length src) (read_loop (suc (length src)) empty_ctx src) (
        ResultWeight-mono _ _ (read_loop (suc (length src)) empty_ctx src) (omega arith)
          (read_loop-weight (suc (length src)) empty_ctx src)))
