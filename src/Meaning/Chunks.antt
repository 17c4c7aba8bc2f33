-- ===== src/Meaning/Chunks.antt =====
-- The source file in chunks, as `main` of csrc/src/main.c reads it, against the reader of the
-- specification, which knows of none.
use bfcomp.Prelude.{
  ℕ, zero, suc, ◌+◌, ◌^◌, ◌≡◌, ◌<◌, refl, sym, ap, subst, ◌∙◌, List, [], ◌∷◌, Option, none, some,
  arith, length, length-append, length-drop, drop, take, take-append-drop,
}
use bfcomp.Prelude.Int.{ℤ}
use bfcomp.Ir.{Ctx, empty_ctx}
use bfcomp.Prog.{Prog, done, flatten, flatten_open, open_addrs}
use bfcomp.Main.{buf_len, after_chunk, read_loop}
use bfcomp.Main.Source.{NoNul, take-NoNul, drop-NoNul}
use bfcomp.Meaning.{Source, Reading, reading, read_text, nothing_read}
use bfcomp.Meaning.Simulates.{Refines, Refines-stop}
use bfcomp.Meaning.Reader.{then_read, read_text-append}
use bfcomp.Meaning.Rounds.{Simulates, RefineAll}
use bfcomp.Meaning.Parser.{AllowedText, ResultSimulates, ir_ctx_parse-ResultSimulates}

-- A condition on texts that lets the `,` be read, in each part of a text.
pub record ForChunks (Reads : ℤ → Type 0) (Good : List ℕ → Type 0) : Type 0 where
  pub allows : (xs : List ℕ) → Good xs → AllowedText Reads xs
  pub takes : (n : ℕ) (xs : List ℕ) → Good xs → Good (take n xs)
  pub drops : (n : ℕ) (xs : List ℕ) → Good xs → Good (drop n xs)

module _ (Reads : ℤ → Type 0) where
  after_chunk-ResultSimulates :
      (rest : List ℕ) (more : Ctx → Option (Ctx × ℕ)) (o : Option (Ctx × ℕ)) (r : Option Reading)
      → ResultSimulates Reads o r
      → ((c : Ctx) (r : Reading)
          → Simulates Reads c r
          → 0 < length rest
          → ResultSimulates Reads (more c) (read_text (drop buf_len rest) r))
      → ResultSimulates Reads
          (after_chunk (take buf_len rest) o more)
          (then_read r (drop buf_len rest))
  unfolding after_chunk ResultSimulates
  after_chunk-ResultSimulates rest more none r h m = absurd h
  after_chunk-ResultSimulates rest more (some (c, suc e)) (some r) h m = absurd h
  after_chunk-ResultSimulates rest more (some (c, suc e)) none h m = tt
  after_chunk-ResultSimulates rest more (some (c, zero)) none h m = absurd h
  after_chunk-ResultSimulates [] more (some (c, zero)) (some r) h m = unfold read_text in h
  after_chunk-ResultSimulates (x ∷ xs) more (some (c, zero)) (some r) h m = m c r h (omega arith)

  pub empty-Simulates : Simulates Reads empty_ctx nothing_read
  unfolding flatten_open flatten open_addrs RefineAll
  empty-Simulates = record {
    cur = done;
    around = [];
    nested = record { laid_out = refl; patched = refl };
    inner = Refines-stop Reads;
    outside = tt;
  }

  module _ (Good : List ℕ → Type 0) (g : ForChunks Reads Good) where
    read_loop-Simulates :
        (f : ℕ) (c : Ctx) (r : Reading) (rest : List ℕ)
        → length rest < f
        → length rest < 2 ^ 63
        → NoNul rest
        → Good rest
        → Simulates Reads c r
        → ResultSimulates Reads (read_loop f c rest) (read_text rest r)
    unfolding read_loop
    read_loop-Simulates zero c r rest lt short n a h = absurd (omega arith)
    read_loop-Simulates (suc f) c r rest lt short n a h =
        let parts : read_text rest r
            ≡ then_read (read_text (take buf_len rest) r) (drop buf_len rest) =
          ap (λ xs. read_text xs r) (sym (take-append-drop buf_len rest))
          ∙ read_text-append (take buf_len rest) (drop buf_len rest) r in
        let len : length rest ≡ length (take buf_len rest) + length (drop buf_len rest) =
          ap length (sym (take-append-drop buf_len rest))
          ∙ length-append (take buf_len rest) (drop buf_len rest) in
        subst (ResultSimulates Reads (read_loop (suc f) c rest)) (sym parts) (
          after_chunk-ResultSimulates rest (λ c'. read_loop f c' (drop buf_len rest)) _ _
            (ir_ctx_parse-ResultSimulates Reads (take buf_len rest) c r (omega (arith, len))
              (take-NoNul buf_len rest n) (g.allows _ (g.takes buf_len rest a)) h)
            (λ c' r' h' pos'.
              read_loop-Simulates f c' r' (drop buf_len rest)
                (omega (arith, length-drop buf_len rest)) (omega (arith, len))
                (drop-NoNul buf_len rest n) (g.drops buf_len rest a) h'))

    -- What reading a file leaves.
    pub read_loop-ResultSimulates :
        (src : List ℕ)
        → length src < 2 ^ 63
        → NoNul src
        → Good src
        → ResultSimulates Reads
            (read_loop (suc (length src)) empty_ctx src)
            (read_text src nothing_read)
    read_loop-ResultSimulates src lt n a =
        read_loop-Simulates (suc (length src)) empty_ctx nothing_read src (omega arith) lt n a
          empty-Simulates

  -- With no loop left open, the instructions are the layout of a program that does what was read.
  pub Simulates-flatten :
      (c : Ctx) (p : Source)
      → Simulates Reads c (reading p [])
      → (q : Prog) × (c.code ≡ flatten q) × Refines Reads p q
  Simulates-flatten c p h = by_open h.around refl
    where
      by_open :
          (qs : List Prog) → h.around ≡ qs → (q : Prog) × (c.code ≡ flatten q) × Refines Reads p q
      by_open [] e =
          (h.cur, unfold flatten_open in h.nested.laid_out ∙ ap (flatten_open h.cur) e, h.inner)
      by_open (q ∷ qs) e = absurd (unfold RefineAll in subst (RefineAll Reads []) e h.outside)
