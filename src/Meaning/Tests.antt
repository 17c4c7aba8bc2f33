-- ===== src/Meaning/Tests.antt =====
-- The theorems from the text to the output, at the text `,[>+<-]>.`, which copies a byte.
use bfcomp.Prelude.{
  ◌↔◌, ℕ, ◌≡◌, refl, true, false, List, [], ◌∷◌, Option, none, some, some_injective, arith,
  replicate,
}
use bfcomp.Prelude.Text.{codes}
use bfcomp.Ir.{Ctx, empty_ctx}
use bfcomp.Dump.{ir_ctx_dump_ir}
use bfcomp.Prog.{Prog, flatten}
use bfcomp.Meaning.Simulates.{Refines}
use bfcomp.Map.Assoc.{assoc}
use bfcomp.Elf.{Program, Section}
use bfcomp.Options.{Text, Options, success}
use bfcomp.Main.Modes.{make_exe, returns, run_main}
use bfcomp.Main.Source.{NoNul}
use bfcomp.X86.Loaded.{Runs}
use bfcomp.X86.Straight.{AreBytes-nil, AreBytes-cons}
use bfcomp.Meaning.{
  right, left, inc, dec, put, take, Source, stop, order, cycle, append, State, change_cell,
  step_left, take_from, command, Means, stops, does, passes, repeats, token, reading, close_cycle,
  read_token, read_text, nothing_read, as_store,
}
use bfcomp.Parse.{ir_ctx_parse}
use bfcomp.Meaning.Parser.{ResultSimulates, ir_ctx_parse-ResultSimulates}
use bfcomp.Meaning.Chunks.{empty-Simulates}
use bfcomp.Meaning.Commas.{CommasApart, AnyNumber, AnyText, AnyText-ForChunks}
use bfcomp.Meaning.File.{beginning, main-Means, main-ir_ctx_dump_ir, output-Means}

abbrev text : List ℕ
text = codes ",[>+<-]>."

abbrev copier : Source
copier =
    order take
      (cycle (order right (order inc (order left (order dec stop)))) (order right (order put stop)))

text_read : read_text text nothing_read ≡ some (reading copier [])
unfolding read_text token read_token close_cycle append
text_read = refl

abbrev copied : State
copied = record { here = 1; cells = 0 ∷ 2 ∷ replicate 29998 0; input = []; output = 2 ∷ [] }

copier_copies : Means copier (beginning (2 ∷ [])) copied
unfolding command change_cell step_left take_from
copier_copies = does refl (
    repeats 1 refl (does refl (does refl (does refl (does refl stops)))) (
      repeats 0 refl (does refl (does refl (does refl (does refl stops))))
        (passes refl (does refl (does refl stops)))))

text-NoNul : NoNul text
text-NoNul = (
  omega arith,
  (
    omega arith,
    (
      omega arith,
      (omega arith, (omega arith, (omega arith, (omega arith, (omega arith, (omega arith, tt)))))),
    ),
  ),
)

open_not_comma : ◌≡◌ {A = Option ℕ} (some b'[') (some b',') → ⊥
open_not_comma q = omega (arith, some_injective q)

text-CommasApart : CommasApart text
unfolding CommasApart
text-CommasApart = (
  λ e q. open_not_comma q,
  (
    λ e. absurd (omega arith),
    (
      λ e. absurd (omega arith),
      (
        λ e. absurd (omega arith),
        (
          λ e. absurd (omega arith),
          (
            λ e. absurd (omega arith),
            (
              λ e. absurd (omega arith),
              (λ e. absurd (omega arith), (λ e. absurd (omega arith), tt)),
            ),
          ),
        ),
      ),
    ),
  ),
)

abbrev disk : Text → Option (List ℕ)
disk name = some text

abbrev interpreted : Options
interpreted = record { input_name = some (codes "a.bf"); output_name = none; dump_ir = false }

abbrev compiled : Options
compiled = record {
  input_name = some (codes "a.bf");
  output_name = some (codes "a");
  dump_ir = false;
}

abbrev anywhere : Text → Option ℕ
anywhere name = some 0o644

main-Means_example : (copied.output ≡ 2 ∷ []) ↔ (
    (f : ℕ) × (run_main
        (assoc Program)
        (assoc Section)
        anywhere
        f
        (2 ∷ [])
        disk
        (success interpreted)
      ≡ some (returns 0 (2 ∷ []) none)))
main-Means_example =
    main-Means disk interpreted (codes "a.bf") text refl refl copier text-NoNul text_read
      (assoc Program) (assoc Section) anywhere (2 ∷ []) (2 ∷ []) copied refl refl (omega arith)
      copier_copies

abbrev listed : Options
listed = record { input_name = some (codes "a.bf"); output_name = some (codes "a"); dump_ir = true }

main-ir_ctx_dump_ir_example :
    (c : Ctx) × (q : Prog) × (run_main
        (assoc Program)
        (assoc Section)
        anywhere
        0
        []
        disk
        (success listed)
      ≡ some (returns 0 (ir_ctx_dump_ir c) none))
    × (c.code ≡ flatten q)
    × Refines AnyNumber copier q
main-ir_ctx_dump_ir_example =
    main-ir_ctx_dump_ir disk listed (codes "a.bf") text refl refl copier text-NoNul text_read
      (assoc Program) (assoc Section) anywhere 0 [] refl (omega arith)

output-Means_example :
    (file : List ℕ) × (run_main
        (assoc Program)
        (assoc Section)
        anywhere
        0
        []
        disk
        (success compiled)
      ≡ some
          (returns 0 [] (some (record { name = codes "a"; mode = make_exe 0o644; bytes = file }))))
    × Runs file (2 ∷ []) (as_store copied)
output-Means_example =
    output-Means disk compiled (codes "a.bf") text refl refl copier text-NoNul text_read
      (assoc Program) (assoc Section) anywhere (codes "a") 0o644 0 [] (2 ∷ []) copied refl refl refl
      (omega arith) text-CommasApart (AreBytes-cons 2 _ (omega arith) AreBytes-nil) copier_copies

ir_ctx_parse-ResultSimulates_example :
    ResultSimulates AnyNumber (ir_ctx_parse empty_ctx text) (read_text text nothing_read)
ir_ctx_parse-ResultSimulates_example =
    ir_ctx_parse-ResultSimulates AnyNumber text empty_ctx nothing_read (omega arith) text-NoNul
      (AnyText-ForChunks.allows text (unfold AnyText in tt)) (empty-Simulates AnyNumber)
