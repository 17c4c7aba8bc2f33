-- ===== src/Dump/Reparse.antt =====
-- The parser of csrc/src/ir_gen.c on the text that the printer shows for a whole program.
use bfcomp.Prelude.{
  ℕ, zero, suc, ◌<◌, ◌≡◌, ◌≢◌, refl, sym, ap, subst, ◌∙◌, List, [], ◌∷◌, ◌++◌, Option, none, some,
  replicate, arith, length, set,
}
use mathlib.Core.List.{append_assoc, append-nil}
use mathlib.Core.Option
use bfcomp.Prelude.Int.{ℤ, pos}
use bfcomp.Word.{to_i64, neg}
use bfcomp.Ir.{OpKind, Op, Ctx, op, ctx, empty_ctx, last?-append}
use bfcomp.Prog.{Basic, Prog, done, basic, loop, kind_of, jump, flatten}
use bfcomp.Parse.{
  push_op, open_loop, close_loop, parse_char, parse_loop, ir_ctx_parse, advance, count_char,
  run_length,
}
use bfcomp.Parse.Nesting.{delta-jump, close_loop-laid_out}
use bfcomp.Dump.{ir_ctx_dump_bf}
use bfcomp.Dump.Shown.{shown_op, shown, AllCountable, ir_ctx_dump_bf-shown}
use bfcomp.Dump.Round.{
  char_of, kind-char_of, NotKind, Parses, Parses-trans, Parses-round, last_kind, run-Parses,
  Printable, IsRun, Printable-IsRun, Printable-Countable, arg_of,
}

-- No step stands next to one of its kind, and every argument is one that can be printed.
abbrev pub Separate : Option OpKind → Prog → Type 0
Separate prev done = Unit
Separate prev (basic b z p) =
    (prev ≢ some (kind_of b)) × Printable b z × Separate (some (kind_of b)) p
Separate prev (loop body p) =
    Separate (some OpKind.loop_start) body × Separate (some OpKind.loop_end) p

abbrev Plain : List ℕ → Type 0
Plain rest = (b : Basic) → NotKind (kind_of b) rest

-- The text behind a step.
shown-NotKind :
    (b : Basic) (p : Prog) (rest : List ℕ)
    → Separate (some (kind_of b)) p
    → Plain rest
    → NotKind (kind_of b) (shown p ++ rest)
unfolding shown
shown-NotKind b done rest h k = k b
shown-NotKind b (basic b' z p) rest h k =
    let r = Printable-IsRun b' z h.1 in
    subst (λ t. NotKind (kind_of b) ((t ++ shown p) ++ rest)) (sym r.text)
      (λ e. h.0 (sym e ∙ kind-char_of b' r.minus))
shown-NotKind b (loop body p) rest h k = λ e. absurd cc

last_kind-append : (xs : List Op) (x : Op) → last_kind (xs ++ x ∷ []) ≡ some x.kind
last_kind-append xs x = ap (λ o. Option.map (λ o. o.kind) o) (last?-append xs x)

closing-Plain : (xs : List ℕ) → Plain (b']' ∷ xs)
closing-Plain xs b = λ e. absurd cc

newline-Plain : Plain (10 ∷ [])
newline-Plain b = λ e. absurd cc

-- The text of a program, behind the instructions `pre`.
abbrev Reparsed : Prog → List ℕ → List Op → List ℕ → Type 0
Reparsed p rest pre patch =
    Parses (shown p ++ rest) (ctx pre patch) rest (ctx (pre ++ flatten p) patch)

basic-Reparsed :
    (b : Basic) (z : ℤ) (p : Prog) (rest : List ℕ) (pre : List Op) (patch : List ℕ)
    → last_kind pre ≢ some (kind_of b)
    → IsRun b z
    → NotKind (kind_of b) (shown p ++ rest)
    → Reparsed p rest (pre ++ op (kind_of b) z ∷ []) patch
    → Reparsed (basic b z p) rest pre patch
unfolding shown flatten
basic-Reparsed b z p rest pre patch fresh r k next =
    subst (λ t. Parses t (ctx pre patch) rest (ctx (pre ++ op (kind_of b) z ∷ flatten p) patch))
      text
      (subst (λ t. Parses run (ctx pre patch) rest (ctx t patch))
        (append_assoc pre (op (kind_of b) z ∷ []) (flatten p))
        (Parses-trans
          (subst (λ c. Parses run (ctx pre patch) (shown p ++ rest) c) pushed
            (run-Parses b r.minus r.more (shown p ++ rest) (ctx pre patch) fresh k))
          next))
  where
    run : List ℕ
    run = replicate (suc r.more) (char_of b r.minus) ++ (shown p ++ rest)

    text : run ≡ (shown_op b z ++ shown p) ++ rest
    text =
        ap (λ t. t ++ (shown p ++ rest)) (sym r.text)
        ∙ sym (append_assoc (shown_op b z) (shown p) rest)

    pushed :
        push_op (kind_of b) (arg_of b r.minus (suc r.more)) (ctx pre patch)
        ≡ ctx (pre ++ op (kind_of b) z ∷ []) patch
    pushed = unfold push_op in ap (λ v. ctx (pre ++ op (kind_of b) v ∷ []) patch) r.value

opening-Parses :
    (rest : List ℕ) (pre : List Op) (patch : List ℕ)
    → Parses
        (b'[' ∷ rest)
        (ctx pre patch)
        rest
        (ctx (pre ++ op OpKind.loop_start (pos 0) ∷ []) (length pre ∷ patch))
unfolding parse_char open_loop
opening-Parses rest pre patch = Parses-round b'[' rest (ctx pre patch) 0 _ refl refl

closing-Parses :
    (rest : List ℕ) (pre : List Op) (patch : List ℕ) (body : Prog)
    → Parses
        (b']' ∷ rest)
        (ctx ((pre ++ op OpKind.loop_start (pos 0) ∷ []) ++ flatten body) (length pre ∷ patch))
        rest
        (ctx (pre ++ flatten (loop body done)) patch)
unfolding parse_char close_loop
closing-Parses rest pre patch body =
    Parses-round b']' rest _ 0 _ refl
      (closes (append_assoc pre (op OpKind.loop_start (pos 0) ∷ []) (flatten body)))
  where
    closes :
        {xs : List Op}
        → xs ≡ pre ++ op OpKind.loop_start (pos 0) ∷ flatten body
        → close_loop (ctx xs (length pre ∷ patch)) (length pre ∷ patch)
          ≡ advance 1 (ctx (pre ++ flatten (loop body done)) patch)
    closes e =
        ap (λ t. close_loop (ctx t (length pre ∷ patch)) (length pre ∷ patch)) e
        ∙ ap
            (λ v. advance 1 (
              ctx
                (set (pre ++ op OpKind.loop_start (pos 0) ∷ flatten body) (length pre)
                    (op OpKind.loop_start v)
                  ++ op OpKind.loop_end (to_i64 (neg v)) ∷ [])
                patch))
            (delta-jump pre (op OpKind.loop_start (pos 0)) (flatten body))
        ∙ ap (λ t. advance 1 (ctx t patch)) (close_loop-laid_out pre body)

loop-Reparsed :
    (body p : Prog) (rest : List ℕ) (pre : List Op) (patch : List ℕ)
    → Reparsed body
        (b']' ∷ (shown p ++ rest))
        (pre ++ op OpKind.loop_start (pos 0) ∷ [])
        (length pre ∷ patch)
    → Reparsed p rest (pre ++ flatten (loop body done)) patch
    → Reparsed (loop body p) rest pre patch
unfolding shown
loop-Reparsed body p rest pre patch inside next =
    subst (λ t. Parses t (ctx pre patch) rest (ctx (pre ++ flatten (loop body p)) patch)) text
      (subst (λ t. Parses (b'[' ∷ inner) (ctx pre patch) rest (ctx t patch)) laid
        (Parses-trans (opening-Parses inner pre patch) (
          Parses-trans inside
            (Parses-trans (closing-Parses (shown p ++ rest) pre patch body) next))))
  where
    inner : List ℕ
    inner = shown body ++ b']' ∷ (shown p ++ rest)

    text : b'[' ∷ inner ≡ shown (loop body p) ++ rest
    text = ap (λ t. b'[' ∷ t) (sym (append_assoc (shown body) (b']' ∷ shown p) rest))

    laid : (pre ++ flatten (loop body done)) ++ flatten p ≡ pre ++ flatten (loop body p)
    laid = unfold flatten in simp append_assoc

last_kind-loop :
    (pre : List Op) (body : Prog)
    → last_kind (pre ++ flatten (loop body done)) ≡ some OpKind.loop_end
unfolding flatten
last_kind-loop pre body =
    ap last_kind (
      sym (append_assoc pre (op OpKind.loop_start (jump (length (flatten body))) ∷ flatten body) _))
    ∙ last_kind-append (pre ++ op OpKind.loop_start (jump (length (flatten body))) ∷ flatten body)
        (op OpKind.loop_end (to_i64 (neg (jump (length (flatten body))))))

done-Reparsed : (rest : List ℕ) (pre : List Op) (patch : List ℕ) → Reparsed done rest pre patch
unfolding shown flatten
done-Reparsed rest pre patch =
    subst (λ t. Parses rest (ctx pre patch) rest (ctx t patch)) (sym (append-nil pre))
      (record { goes = λ f lt. (f, lt, refl) })

shown-Reparsed :
    (p : Prog) (rest : List ℕ) (pre : List Op) (patch : List ℕ) (prev : Option OpKind)
    → prev ≡ last_kind pre
    → Separate prev p
    → Plain rest
    → Reparsed p rest pre patch
shown-Reparsed done rest pre patch prev e h k = done-Reparsed rest pre patch
shown-Reparsed (basic b z p) rest pre patch prev e h k =
    basic-Reparsed b z p rest pre patch (λ q. h.0 (e ∙ q)) (Printable-IsRun b z h.1)
      (shown-NotKind b p rest h.2 k)
      (shown-Reparsed p rest (pre ++ op (kind_of b) z ∷ []) patch (some (kind_of b))
        (sym (last_kind-append pre (op (kind_of b) z))) h.2 k)
shown-Reparsed (loop body p) rest pre patch prev e h k =
    loop-Reparsed body p rest pre patch
      (shown-Reparsed body (b']' ∷ (shown p ++ rest)) (pre ++ op OpKind.loop_start (pos 0) ∷ [])
        (length pre ∷ patch) (some OpKind.loop_start)
        (sym (last_kind-append pre (op OpKind.loop_start (pos 0)))) h.0
        (closing-Plain (shown p ++ rest)))
      (shown-Reparsed p rest (pre ++ flatten (loop body done)) patch (some OpKind.loop_end)
        (sym (last_kind-loop pre body)) h.1 k)

-- The newline that `puts` prints, and then the end of the text.
newline-Parses : (c : Ctx) → Parses (10 ∷ []) c [] c
unfolding parse_char count_char run_length
newline-Parses c = Parses-round 10 [] c 0 c refl refl

parse_loop-end : (f : ℕ) (c : Ctx) → 0 < f → parse_loop f [] c ≡ some (c, 0)
unfolding parse_loop
parse_loop-end zero c h = absurd (omega arith)
parse_loop-end (suc f) c h = refl

Separate-AllCountable : (prev : Option OpKind) (p : Prog) → Separate prev p → AllCountable p
Separate-AllCountable prev done h = tt
Separate-AllCountable prev (basic b z p) h =
    (Printable-Countable b z h.1, Separate-AllCountable (some (kind_of b)) p h.2)
Separate-AllCountable prev (loop body p) h = (
  Separate-AllCountable (some OpKind.loop_start) body h.0,
  Separate-AllCountable (some OpKind.loop_end) p h.1,
)

-- Printing and parsing again gives back the instructions: for the layout of a well-nested program in
-- which no step stands next to one of its kind, and whose arguments are not 0 and less than 2^31 in
-- size (and positive for input and output), a text is printed, and the parser takes it and makes of it
-- the same instructions, with no loop open.
pub ir_ctx_parse-reparses :
    (c : Ctx) (p : Prog)
    → c.code ≡ flatten p
    → Separate none p
    → (text : List ℕ) × (ir_ctx_dump_bf c ≡ some text)
      × (ir_ctx_parse empty_ctx text ≡ some (ctx c.code [], 0))
unfolding ir_ctx_parse
ir_ctx_parse-reparses c p e h = (
  shown p ++ 10 ∷ [],
  ir_ctx_dump_bf-shown c p e (Separate-AllCountable none p h),
  r.2 ∙ parse_loop-end r.0 (ctx (flatten p) []) r.1 ∙ ap (λ t. some (ctx t [], 0)) (sym e),
)
  where
    whole : Parses (shown p ++ 10 ∷ []) empty_ctx [] (ctx (flatten p) [])
    whole =
        Parses-trans (shown-Reparsed p (10 ∷ []) [] [] none refl h newline-Plain)
          (newline-Parses (ctx (flatten p) []))

    r :
        (f : ℕ) × (0 < f)
        × (parse_loop (suc (length (shown p ++ 10 ∷ []))) (shown p ++ 10 ∷ []) empty_ctx
            ≡ parse_loop f [] (ctx (flatten p) []))
    r = whole.goes (suc (length (shown p ++ 10 ∷ []))) (omega arith)
