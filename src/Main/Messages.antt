-- ===== src/Main/Messages.antt =====
-- What `main` of csrc/src/main.c writes to the standard error, with `ir_ctx_free` of csrc/src/ir_gen.c, which
-- it calls whenever it returns.
use bfcomp.Prelude.{
  ℕ, zero, suc, ◌≡◌, refl, sym, ap, ◌∙◌, List, [], ◌∷◌, ◌++◌, Option, none, some, some_injective,
  Bool, true, false, length, take, drop,
}
use bfcomp.Prelude.Text.{codes}
use bfcomp.Ir.{Ctx, empty_ctx}
use bfcomp.Map.{MapOf}
use bfcomp.Parse.{ir_ctx_parse}
use bfcomp.Parse.Balance.{balance, EndsWith}
use bfcomp.Parse.Rejects.{ResultClosed, ir_ctx_parse-ResultClosed}
use bfcomp.Interp.{Outcome, running, halted, fault, ir_interpret}
use bfcomp.Compile.Messages.{ir_ctx_compile_messages}
use bfcomp.Options.{Text, Options, Parsed, success}
use bfcomp.Elf.{Program, Section}
use bfcomp.Elf.Build.{preload, write_elf_file}
use bfcomp.Main.{buf_len, after_chunk, read_loop, fresh_tape, choose_mode, after_source}
use bfcomp.Main.Weight.{opened}
use bfcomp.Main.Source.{verdict-EndsWith, NoNul, read_loop-balance}
use bfcomp.Main.Modes.{
  choose_mode-interprets, Ending, Written, returns, after_interpret, perform, run_main,
}

-- `ir_ctx_free`, of a context with open loops or with none.
unfoldable pub free_message : List ℕ → List ℕ
free_message [] = []
free_message (addr ∷ patch) = codes "unmatched '['"

unfoldable pub ir_ctx_free : Ctx → List ℕ
ir_ctx_free c = free_message c.patch

-- The `fputs` before `return 1` of `ir_ctx_parse`.
unfoldable pub close_message : List ℕ
close_message = codes "unmatched ']'"

unfoldable pub open_message : Text → List ℕ
open_message name = codes "unable to open file '" ++ (name ++ (codes "'" ++ 10 ∷ []))

-- With the interpreter's outcome, or with the file: if the program crashes or is not finished, `main` does
-- not return.
unfoldable pub interpreter_message : Outcome → Ctx → List ℕ
interpreter_message (running m) c = []
interpreter_message (halted s) c = ir_ctx_free c
interpreter_message fault c = []

unfoldable pub output_message : Option (List ℕ) → Ctx → List ℕ
output_message none c = []
output_message (some file) c = ir_ctx_free c

module _ (Segs : MapOf Program) (Secs : MapOf Section) (writable : Text → Option ℕ) (f : ℕ)
    (input : List ℕ) where
  unfoldable pub output_messages : Ctx → Text → Option ℕ → List ℕ
  output_messages c name none = open_message name ++ ir_ctx_free c
  output_messages c name (some mode) =
      ir_ctx_compile_messages (suc (suc (length c.code))) c preload
      ++ output_message (write_elf_file Segs Secs c) c

  unfoldable pub mode_messages : Bool → Option Text → Ctx → List ℕ
  mode_messages true out c = ir_ctx_free c
  mode_messages false none c = interpreter_message (ir_interpret f c (fresh_tape input)) c
  mode_messages false (some name) c = output_messages c name (writable name)

  unfoldable pub source_messages : Options → Option (Ctx × ℕ) → List ℕ
  source_messages o none = []
  source_messages o (some (c, zero)) = mode_messages o.dump_ir o.output_name c
  source_messages o (some (c, suc r)) = close_message ++ ir_ctx_free c

  unfoldable pub file_messages : Options → Text → Option (List ℕ) → List ℕ
  file_messages o name none = open_message name
  file_messages o name (some src) = source_messages o (read_loop (suc (length src)) empty_ctx src)

  -- Behind `parse_options`, which has its own messages.
  unfoldable pub main_messages : (Text → Option (List ℕ)) → Parsed → List ℕ
  main_messages files (success o) = elim o.input_name [
    | none ↦ []
    | some name ↦ file_messages o name (files name)
  ]
  main_messages files _ = []

after_chunk-ResultClosed :
    (chunk : List ℕ) (o : Option (Ctx × ℕ)) (more : Ctx → Option (Ctx × ℕ))
    → ResultClosed o
    → ((c : Ctx) → ResultClosed (more c))
    → ResultClosed (after_chunk chunk o more)
unfolding after_chunk
after_chunk-ResultClosed chunk none more h m = tt
after_chunk-ResultClosed chunk (some (c, suc r)) more h m = h
after_chunk-ResultClosed [] (some (c, zero)) more h m = tt
after_chunk-ResultClosed (x ∷ xs) (some (c, zero)) more h m = m c

read_loop-ResultClosed : (f : ℕ) (c : Ctx) (rest : List ℕ) → ResultClosed (read_loop f c rest)
unfolding read_loop
read_loop-ResultClosed zero c rest = tt
read_loop-ResultClosed (suc f) c rest =
    after_chunk-ResultClosed (take buf_len rest) (ir_ctx_parse c (take buf_len rest)) _
      (ir_ctx_parse-ResultClosed c (take buf_len rest))
      (λ c'. read_loop-ResultClosed f c' (drop buf_len rest))

-- What the count of the brackets tells.
unfoldable pub bracket_report : Option ℕ → List ℕ
bracket_report none = codes "unmatched ']'"
bracket_report (some zero) = []
bracket_report (some (suc d)) = codes "unmatched '['"

free_message-bracket_report : (p : List ℕ) → free_message p ≡ bracket_report (some (length p))
unfolding free_message bracket_report
free_message-bracket_report [] = refl
free_message-bracket_report (a ∷ p) = refl

-- An interpreter that ends.
interpreter_message-bracket_report :
    (r : Outcome) (c : Ctx) (st : ℕ) (out : List ℕ) (w : Option Written)
    → after_interpret r ≡ returns st out w
    → interpreter_message r c ≡ bracket_report (some (length c.patch))
unfolding after_interpret interpreter_message ir_ctx_free
interpreter_message-bracket_report (running m) c st out w e = absurd cc
interpreter_message-bracket_report (halted s) c st out w e = free_message-bracket_report c.patch
interpreter_message-bracket_report fault c st out w e = absurd cc

module _ (Segs : MapOf Program) (Secs : MapOf Section) (writable : Text → Option ℕ) (f : ℕ)
    (input : List ℕ) where
  -- The mode that prints, and the one that interprets.
  mode_messages-bracket_report :
      (o : Options) (c : Ctx) (b : Bool) (st : ℕ) (out : List ℕ) (w : Option Written)
      → o.dump_ir ≡ b
      → o.output_name ≡ none
      → perform Segs Secs writable f input (choose_mode o c) ≡ returns st out w
      → mode_messages Segs Secs writable f input b none c ≡ bracket_report (some (length c.patch))
  unfolding mode_messages ir_ctx_free choose_mode perform
  mode_messages-bracket_report o c true st out w d n e = free_message-bracket_report c.patch
  mode_messages-bracket_report o c false st out w d n e =
      interpreter_message-bracket_report (ir_interpret f c (fresh_tape input)) c st out w
        (sym (ap (perform Segs Secs writable f input) (choose_mode-interprets o c d n)) ∙ e)

  abbrev performed : Options → Option (Ctx × ℕ) → Option Ending
  performed o r = elim (after_source o r) [
    | none ↦ none
    | some a ↦ some (perform Segs Secs writable f input a)
  ]

  source_messages-bracket_report :
      (o : Options) (r : Option (Ctx × ℕ)) (v : Option ℕ) (st : ℕ) (out : List ℕ)
      (w : Option Written)
      → o.output_name ≡ none
      → ResultClosed r
      → EndsWith v r
      → performed o r ≡ some (returns st out w)
      → source_messages Segs Secs writable f input o r ≡ bracket_report v
  unfolding source_messages after_source ir_ctx_free close_message free_message bracket_report
  source_messages-bracket_report o none v st out w n h (r, e, q) p = absurd cc
  source_messages-bracket_report o (some (c, suc k)) v st out w n h e p =
      ap (λ t. codes "unmatched ']'" ++ free_message t) h
      ∙ ap bracket_report (verdict-EndsWith v (c, suc k) e)
  source_messages-bracket_report o (some (c, zero)) v st out w n h e p =
      ap (λ t. mode_messages Segs Secs writable f input o.dump_ir t c) n
      ∙ mode_messages-bracket_report o c o.dump_ir st out w refl n (some_injective p)
      ∙ ap bracket_report (verdict-EndsWith v (c, 0) e)

  -- Take options that name a source file with no NUL, and no output, and let `main` return, in the mode that
  -- interprets with enough fuel. What it has written to the standard error then is what the count of the brackets
  -- of the whole file says: `unmatched ']'` if a `]` has no partner to its left, nothing if all brackets are
  -- matched, and `unmatched '['` once if loops are left open.
  pub main_messages-bracket_report :
      (files : Text → Option (List ℕ)) (o : Options) (name : Text) (src : List ℕ) (st : ℕ)
      (out : List ℕ) (w : Option Written)
      → o.input_name ≡ some name
      → files name ≡ some src
      → NoNul src
      → o.output_name ≡ none
      → run_main Segs Secs writable f input files (success o) ≡ some (returns st out w)
      → main_messages Segs Secs writable f input files (success o) ≡ bracket_report (balance 0 src)
  unfolding main_messages file_messages run_main
  main_messages-bracket_report files o name src st out w named found h n e =
      rw (main_messages, named, found)
        (source_messages-bracket_report o (read_loop (suc (length src)) empty_ctx src)
          (balance 0 src) st out w n (read_loop-ResultClosed (suc (length src)) empty_ctx src)
          (read_loop-balance src h)
          (ap (λ a. elim a [ none ↦ none | some a ↦ some (perform Segs Secs writable f input a) ])
              (sym (opened files o name src named found))
            ∙ e))
