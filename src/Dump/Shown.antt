-- ===== src/Dump/Shown.antt =====
-- The text that `ir_ctx_dump_bf` of csrc/src/ir_gen.c prints, by the structure of the program.
use bfcomp.Prelude.{
  ℕ, suc, ◌^◌, ◌<◌, ◌≡◌, refl, sym, ap, ap₂, ◌∙◌, List, [], ◌∷◌, ◌++◌, Option, none, some,
  replicate, arith, true, false,
}
use mathlib.Core.List.{append_assoc}
use bfcomp.Prelude.Int.{ℤ, pos, negsuc, pos_part, ltb_ℤ, ◌-ℤ◌}
use bfcomp.Word.{to_i64, neg, to_i64-eq_of_IsI64}
use bfcomp.Ir.{Op, Ctx}
use bfcomp.Prog.{Basic, Prog, done, basic, loop, kind_of, flatten}
use bfcomp.Dump.{putcc, put_signed, dump_op, dump_code, appended, ir_ctx_dump_bf}

-- As many characters as an `int` counts.
abbrev pub Countable : ℤ → Type 0
Countable (pos n) = n < 2 ^ 31
Countable (negsuc n) = suc n < 2 ^ 31

-- The argument of every step is less than 2^31 in size.
abbrev pub AllCountable : Prog → Type 0
AllCountable done = Unit
AllCountable (basic b z p) = Countable z × AllCountable p
AllCountable (loop body p) = AllCountable body × AllCountable p

unfoldable pub shown_signed : ℕ → ℕ → ℤ → List ℕ
shown_signed plus minus (pos n) = replicate n plus
shown_signed plus minus (negsuc n) = replicate (suc n) minus

unfoldable pub shown_op : Basic → ℤ → List ℕ
shown_op Basic.read z = replicate (pos_part z) b','
shown_op Basic.write z = replicate (pos_part z) b'.'
shown_op Basic.cell z = shown_signed b'+' b'-' z
shown_op Basic.tape z = shown_signed b'>' b'<' z

unfoldable pub shown : Prog → List ℕ
shown done = []
shown (basic b z p) = shown_op b z ++ shown p
shown (loop body p) = b'[' ∷ (shown body ++ b']' ∷ shown p)

putcc-counts :
    (ch : ℕ) (z : ℤ) → pos_part z < 2 ^ 31 → putcc ch z ≡ some (replicate (pos_part z) ch)
unfolding putcc
putcc-counts ch z h = ground arith

part_lt : (z : ℤ) → Countable z → pos_part z < 2 ^ 31
part_lt (pos n) h = h
part_lt (negsuc n) h = omega arith

opposite : (n : ℕ) → suc n < 2 ^ 31 → to_i64 (neg (negsuc n)) ≡ pos (suc n)
unfolding neg ◌-ℤ◌
opposite n h = ap to_i64 flipped ∙ to_i64-eq_of_IsI64 (pos (suc n)) (omega arith, omega arith)
  where
    flipped : neg (negsuc n) ≡ pos (suc n)
    flipped = ground arith

signed-shown :
    (plus minus : ℕ) (z : ℤ)
    → Countable z
    → put_signed plus minus z ≡ some (shown_signed plus minus z)
unfolding put_signed shown_signed
signed-shown plus minus (pos n) h = rw (ltb_pos n) (putcc-counts plus (pos n) h)
  where
    ltb_pos : (n : ℕ) → ltb_ℤ (pos n) (pos 0) ≡ false
    ltb_pos n = ground arith
signed-shown plus minus (negsuc n) h =
    rw (ltb_negsuc n) (ap (putcc minus) (opposite n h) ∙ putcc-counts minus (pos (suc n)) h)
  where
    ltb_negsuc : (n : ℕ) → ltb_ℤ (negsuc n) (pos 0) ≡ true
    ltb_negsuc n = ground arith

dump_op-shown : (b : Basic) (z : ℤ) → Countable z → dump_op (kind_of b) z ≡ some (shown_op b z)
unfolding dump_op shown_op
dump_op-shown Basic.read z h = putcc-counts b',' z (part_lt z h)
dump_op-shown Basic.write z h = putcc-counts b'.' z (part_lt z h)
dump_op-shown Basic.cell z h = signed-shown b'+' b'-' z h
dump_op-shown Basic.tape z h = signed-shown b'>' b'<' z h

appended_assoc : (a b c : Option (List ℕ)) → appended (appended a b) c ≡ appended a (appended b c)
unfolding appended
appended_assoc none b c = refl
appended_assoc (some x) none c = refl
appended_assoc (some x) (some y) none = refl
appended_assoc (some x) (some y) (some z) = ap (λ t. some t) (append_assoc x y z)

nothing_before : (a : Option (List ℕ)) → appended (some []) a ≡ a
unfolding appended
nothing_before none = refl
nothing_before (some x) = refl

dump_code-append : (xs ys : List Op) → dump_code (xs ++ ys) ≡ appended (dump_code xs) (dump_code ys)
unfolding dump_code
dump_code-append [] ys = sym (nothing_before (dump_code ys))
dump_code-append (x ∷ xs) ys =
    ap (appended (dump_op x.kind x.arg)) (dump_code-append xs ys)
    ∙ sym (appended_assoc (dump_op x.kind x.arg) (dump_code xs) (dump_code ys))

dump-flatten : (p : Prog) → AllCountable p → dump_code (flatten p) ≡ some (shown p)
unfolding flatten dump_code shown appended dump_op
dump-flatten done h = refl
dump-flatten (basic b z p) h = ap₂ appended (dump_op-shown b z h.0) (dump-flatten p h.1)
dump-flatten (loop body p) h = ap (appended (some (b'[' ∷ []))) (
    dump_code-append (flatten body) _
    ∙ ap₂ (λ t u. appended t (appended (some (b']' ∷ [])) u)) (dump-flatten body h.0)
        (dump-flatten p h.1))

pub ir_ctx_dump_bf-shown :
    (c : Ctx) (p : Prog)
    → c.code ≡ flatten p
    → AllCountable p
    → ir_ctx_dump_bf c ≡ some (shown p ++ 10 ∷ [])
unfolding ir_ctx_dump_bf
ir_ctx_dump_bf-shown c p e h =
    ap (λ t. appended t (some (10 ∷ []))) (ap dump_code e ∙ dump-flatten p h)
    ∙ (unfold appended in refl)
