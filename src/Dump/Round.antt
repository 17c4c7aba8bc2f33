-- ===== src/Dump/Round.antt =====
-- The parser of csrc/src/ir_gen.c on what is shown for one step.
use bfcomp.Prelude.{
  ℕ, zero, suc, ◌^◌, ◌<◌, ◌≡◌, ◌≢◌, refl, sym, ap, subst, ◌∙◌, List, [], ◌∷◌, ◌++◌, Option, none,
  some, Bool, true, false, replicate, ◌==◌, ==_iff, if◌then◌else◌, arith, Bool-cases, inl, inr,
  length, drop, length-drop,
}
use mathlib.Core.Option
use bfcomp.Prelude.Int.{ℤ, pos, negsuc}
use bfcomp.Word.{to_i64, neg, neg-pos_suc, to_i64-eq_of_IsI64}
use bfcomp.Ir.{OpKind, Op, Ctx, same_kind, code_of, last?}
use bfcomp.Prog.{Basic, kind_of}
use bfcomp.Parse.{
  advance, run_length, count_char, push_op, add_to_last, accumulate, parse_char, parse_loop,
}
use bfcomp.Dump.Shown.{Countable, shown_op, shown_signed}

-- The character of a step, by its sign.
abbrev pub char_of : Basic → Bool → ℕ
char_of Basic.read m = b','
char_of Basic.write m = b'.'
char_of Basic.cell false = b'+'
char_of Basic.cell true = b'-'
char_of Basic.tape false = b'>'
char_of Basic.tape true = b'<'

abbrev pub kind_of_char : ℕ → Option OpKind
kind_of_char x =
    if x == b','
    then some OpKind.read
    else if x == b'.'
    then some OpKind.write
    else if x == b'+'
    then some OpKind.cell
    else if x == b'-'
    then some OpKind.cell
    else if x == b'>'
    then some OpKind.tape
    else if x == b'<'
    then some OpKind.tape
    else none

pub kind-char_of : (b : Basic) (m : Bool) → kind_of_char (char_of b m) ≡ some (kind_of b)
kind-char_of Basic.read m = refl
kind-char_of Basic.write m = refl
kind-char_of Basic.cell false = refl
kind-char_of Basic.cell true = refl
kind-char_of Basic.tape false = refl
kind-char_of Basic.tape true = refl

-- The text does not go on with a step of this kind.
abbrev pub NotKind : OpKind → List ℕ → Type 0
NotKind k [] = Unit
NotKind k (x ∷ xs) = kind_of_char x ≢ some k

abbrev NotRun : ℕ → List ℕ → Type 0
NotRun ch [] = Unit
NotRun ch (x ∷ xs) = x ≢ ch

NotKind-NotRun :
    (b : Basic) (m : Bool) (xs : List ℕ) → NotKind (kind_of b) xs → NotRun (char_of b m) xs
NotKind-NotRun b m [] h = tt
NotKind-NotRun b m (x ∷ xs) h = λ e. h (ap kind_of_char e ∙ kind-char_of b m)

run_length-stop : (ch : ℕ) (xs : List ℕ) → NotRun ch xs → run_length xs ch ≡ 0
unfolding run_length
run_length-stop ch [] h = refl
run_length-stop ch (x ∷ xs) h = elim (Bool-cases (x == ch)) [
  | inl e ↦ absurd (h ((==_iff x ch).0 e))
  | inr e ↦ rw e
]

run_length-replicate :
    (n ch : ℕ) (xs : List ℕ) → NotRun ch xs → run_length (replicate n ch ++ xs) ch ≡ n
unfolding run_length
run_length-replicate zero ch xs h = run_length-stop ch xs h
run_length-replicate (suc n) ch xs h =
    rw ((==_iff ch ch).1 refl) (ap suc (run_length-replicate n ch xs h))

drop-replicate : (n ch : ℕ) (xs : List ℕ) → drop n (replicate n ch ++ xs) ≡ xs
drop-replicate zero ch xs = refl
drop-replicate (suc n) ch xs = drop-replicate n ch xs

-- With enough fuel, the parser comes from one text and context to another.
pub record Parses (src : List ℕ) (c : Ctx) (rest : List ℕ) (c' : Ctx) : Type 0 where
  pub goes :
      (f : ℕ)
      → length src < f
      → (f' : ℕ) × (length rest < f') × (parse_loop f src c ≡ parse_loop f' rest c')

pub Parses-trans :
    {xs ys zs : List ℕ} {c₁ c₂ c₃ : Ctx}
    → Parses xs c₁ ys c₂
    → Parses ys c₂ zs c₃
    → Parses xs c₁ zs c₃
Parses-trans h k = record {
  goes = λ f lt. let r = h.goes f lt in let s = k.goes r.0 r.1 in (s.0, s.1, r.2 ∙ s.2);
}

round-goes :
    (x : ℕ) (xs : List ℕ) (c : Ctx) (n : ℕ) (c' : Ctx)
    → (x == 0) ≡ false
    → parse_char x (count_char xs x) c ≡ advance (suc n) c'
    → (f : ℕ) → length (x ∷ xs) < f
    → (f' : ℕ) × (length (drop n xs) < f')
      × (parse_loop f (x ∷ xs) c ≡ parse_loop f' (drop n xs) c')
unfolding parse_loop
round-goes x xs c n c' nz e zero lt = absurd (omega arith)
round-goes x xs c n c' nz e (suc f) lt =
    (f, omega (arith, length-drop n xs), rw (parse_loop, nz, e))

pub Parses-round :
    (x : ℕ) (xs : List ℕ) (c : Ctx) (n : ℕ) (c' : Ctx)
    → (x == 0) ≡ false
    → parse_char x (count_char xs x) c ≡ advance (suc n) c'
    → Parses (x ∷ xs) c (drop n xs) c'
Parses-round x xs c n c' nz e = record { goes = round-goes x xs c n c' nz e }

-- A step that is not joined with the last instruction.
abbrev pub last_kind : List Op → Option OpKind
last_kind xs = Option.map (λ o. o.kind) (last? xs)

kind_at : ℕ → OpKind
kind_at n =
    if n == 0
    then OpKind.tape
    else if n == 1
    then OpKind.cell
    else if n == 2
    then OpKind.loop_start
    else if n == 3
    then OpKind.loop_end
    else if n == 4
    then OpKind.write
    else if n == 5
    then OpKind.read
    else if n == 6
    then OpKind.set
    else OpKind.max

kind_at-code_of : (k : OpKind) → kind_at (code_of k) ≡ k
unfolding kind_at
kind_at-code_of OpKind.tape = refl
kind_at-code_of OpKind.cell = refl
kind_at-code_of OpKind.loop_start = refl
kind_at-code_of OpKind.loop_end = refl
kind_at-code_of OpKind.write = refl
kind_at-code_of OpKind.read = refl
kind_at-code_of OpKind.set = refl
kind_at-code_of OpKind.max = refl

kinds_differ : (k k' : OpKind) → k ≢ k' → same_kind k k' ≡ false
kinds_differ k k' h = elim (Bool-cases (same_kind k k')) [
  | inl e ↦ absurd (
      h (
        sym (kind_at-code_of k)
        ∙ ap kind_at ((==_iff (code_of k) (code_of k')).0 e)
        ∙ kind_at-code_of k'))
  | inr e ↦ e
]

accumulate-fresh :
    (b : Basic) (z : ℤ) (c : Ctx)
    → last_kind c.code ≢ some (kind_of b)
    → accumulate (kind_of b) z c ≡ push_op (kind_of b) z c
unfolding accumulate add_to_last
accumulate-fresh b z c h = by_last (last? c.code) h
  where
    by_last :
        (o : Option Op)
        → Option.map (λ o. o.kind) o ≢ some (kind_of b)
        → add_to_last (kind_of b) z c o ≡ push_op (kind_of b) z c
    by_last none h = refl
    by_last (some o) h = rw (kinds_differ o.kind (kind_of b) (λ e. h (ap some e)))

-- The argument of a step, by its sign and its size.
abbrev pub arg_of : Basic → Bool → ℕ → ℤ
arg_of Basic.read m n = pos n
arg_of Basic.write m n = pos n
arg_of Basic.cell false n = pos n
arg_of Basic.cell true n = neg (pos n)
arg_of Basic.tape false n = pos n
arg_of Basic.tape true n = neg (pos n)

-- A run of the character of a step, behind another kind of instruction, is one instruction.
run-pushes :
    (b : Basic) (m : Bool) (n : ℕ) (c : Ctx)
    → last_kind c.code ≢ some (kind_of b)
    → parse_char (char_of b m) n c ≡ advance n (push_op (kind_of b) (arg_of b m n) c)
unfolding parse_char
run-pushes Basic.read m n c h = refl
run-pushes Basic.write m n c h = refl
run-pushes Basic.cell false n c h = ap (advance n) (accumulate-fresh Basic.cell (pos n) c h)
run-pushes Basic.cell true n c h = ap (advance n) (accumulate-fresh Basic.cell (neg (pos n)) c h)
run-pushes Basic.tape false n c h = ap (advance n) (accumulate-fresh Basic.tape (pos n) c h)
run-pushes Basic.tape true n c h = ap (advance n) (accumulate-fresh Basic.tape (neg (pos n)) c h)

char_of-nonzero : (b : Basic) (m : Bool) → (char_of b m == 0) ≡ false
char_of-nonzero Basic.read m = refl
char_of-nonzero Basic.write m = refl
char_of-nonzero Basic.cell false = refl
char_of-nonzero Basic.cell true = refl
char_of-nonzero Basic.tape false = refl
char_of-nonzero Basic.tape true = refl

pub run-Parses :
    (b : Basic) (m : Bool) (n : ℕ) (rest : List ℕ) (c : Ctx)
    → last_kind c.code ≢ some (kind_of b)
    → NotKind (kind_of b) rest
    → Parses
        (replicate (suc n) (char_of b m) ++ rest)
        c
        rest
        (push_op (kind_of b) (arg_of b m (suc n)) c)
run-Parses b m n rest c h k =
    subst
      (λ t.
        Parses (replicate (suc n) (char_of b m) ++ rest) c t
          (push_op (kind_of b) (arg_of b m (suc n)) c))
      (drop-replicate n (char_of b m) rest)
      (Parses-round (char_of b m) (replicate n (char_of b m) ++ rest) c n _ (char_of-nonzero b m)
        (ap (λ t. parse_char (char_of b m) t c) counted ∙ run-pushes b m (suc n) c h))
  where
    counted : count_char (replicate n (char_of b m) ++ rest) (char_of b m) ≡ suc n
    counted =
        unfold count_char in
        ap suc (run_length-replicate n (char_of b m) rest (NotKind-NotRun b m rest k))

-- The steps whose argument the printer shows: one that is not 0, and that an `int` counts.
abbrev pub Printable : Basic → ℤ → Type 0
Printable b (pos zero) = ⊥
Printable b (pos (suc n)) = suc n < 2 ^ 31
Printable Basic.cell (negsuc n) = suc n < 2 ^ 31
Printable Basic.tape (negsuc n) = suc n < 2 ^ 31
Printable Basic.read (negsuc n) = ⊥
Printable Basic.write (negsuc n) = ⊥

pub Printable-Countable : (b : Basic) (z : ℤ) → Printable b z → Countable z
Printable-Countable b (pos zero) h = absurd h
Printable-Countable b (pos (suc n)) h = h
Printable-Countable Basic.cell (negsuc n) h = h
Printable-Countable Basic.tape (negsuc n) h = h
Printable-Countable Basic.read (negsuc n) h = absurd h
Printable-Countable Basic.write (negsuc n) h = absurd h

-- A printable step, as a run of one character.
pub record IsRun (b : Basic) (z : ℤ) : Type 0 where
  pub minus : Bool
  pub more : ℕ
  pub text : shown_op b z ≡ replicate (suc more) (char_of b minus)
  pub value : to_i64 (arg_of b minus (suc more)) ≡ z

up_value : (n : ℕ) → suc n < 2 ^ 31 → to_i64 (pos (suc n)) ≡ pos (suc n)
up_value n h = to_i64-eq_of_IsI64 (pos (suc n)) (omega arith, omega arith)

down_value : (n : ℕ) → suc n < 2 ^ 31 → to_i64 (neg (pos (suc n))) ≡ negsuc n
down_value n h =
    ap to_i64 (neg-pos_suc n) ∙ to_i64-eq_of_IsI64 (negsuc n) (omega arith, omega arith)

up-IsRun : (b : Basic) (n : ℕ) → suc n < 2 ^ 31 → IsRun b (pos (suc n))
unfolding shown_op shown_signed
up-IsRun Basic.read n h = record { minus = false; more = n; text = refl; value = up_value n h }
up-IsRun Basic.write n h = record { minus = false; more = n; text = refl; value = up_value n h }
up-IsRun Basic.cell n h = record { minus = false; more = n; text = refl; value = up_value n h }
up-IsRun Basic.tape n h = record { minus = false; more = n; text = refl; value = up_value n h }

down-IsRun : (b : Basic) (n : ℕ) → Printable b (negsuc n) → IsRun b (negsuc n)
unfolding shown_op shown_signed
down-IsRun Basic.cell n h = record { minus = true; more = n; text = refl; value = down_value n h }
down-IsRun Basic.tape n h = record { minus = true; more = n; text = refl; value = down_value n h }
down-IsRun Basic.read n h = absurd h
down-IsRun Basic.write n h = absurd h

pub Printable-IsRun : (b : Basic) (z : ℤ) → Printable b z → IsRun b z
Printable-IsRun b (pos zero) h = absurd h
Printable-IsRun b (pos (suc n)) h = up-IsRun b n h
Printable-IsRun b (negsuc n) h = down-IsRun b n h
