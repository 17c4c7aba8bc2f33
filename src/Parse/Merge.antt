-- ===== src/Parse/Merge.antt =====
-- How `accumulate` of csrc/src/ir_gen.c joins a step with the last instruction.
use bfcomp.Prelude.{
  ℕ, ◌≡◌, refl, ap, ◌∙◌, inl, inr, false, List, [], ◌∷◌, ◌++◌, Option, none, some, if◌then◌else◌,
  Bool-cases, length,
}
use bfcomp.Prelude.Int.{ℤ, pos, ◌+ℤ◌}
use bfcomp.Word.{to_i64, neg}
use bfcomp.Ir.{OpKind, Op, op, Ctx, ctx, last?, same_kind}
use bfcomp.Prog.{Basic, Prog, done, basic, loop, kind_of, jump, flatten, join_last, flatten_open}
use bfcomp.Parse.{push_op, add_to_last}

-- What `accumulate` does to the instructions, by recursion.
unfoldable pub merged : OpKind → ℤ → List Op → List Op
merged k d [] = op k (to_i64 d) ∷ []
merged k d (x ∷ []) =
    if same_kind x.kind k then op x.kind (to_i64 (x.arg +ℤ d)) ∷ [] else x ∷ op k (to_i64 d) ∷ []
merged k d (x ∷ y ∷ xs) = x ∷ merged k d (y ∷ xs)

add_to_last-cons :
    (k : OpKind) (d : ℤ) (p : List ℕ) (x y : Op) (xs : List Op) (o : Option Op)
    → (add_to_last k d (ctx (x ∷ y ∷ xs) p) o).code ≡ x ∷ (add_to_last k d (ctx (y ∷ xs) p) o).code
unfolding add_to_last push_op
add_to_last-cons k d p x y xs none = refl
add_to_last-cons k d p x y xs (some o) = elim (Bool-cases (same_kind o.kind k)) [
  | inl e ↦ rw e
  | inr e ↦ rw e
]

pub code-accumulate :
    (k : OpKind) (d : ℤ) (xs : List Op) (p : List ℕ)
    → (add_to_last k d (ctx xs p) (last? xs)).code ≡ merged k d xs
unfolding merged
code-accumulate k d [] p = unfold add_to_last push_op in refl
code-accumulate k d (x ∷ []) p = elim (Bool-cases (same_kind x.kind k)) [
  | inl e ↦ unfold add_to_last push_op in rw e
  | inr e ↦ unfold add_to_last push_op in rw e
]
code-accumulate k d (x ∷ y ∷ xs) p =
    add_to_last-cons k d p x y xs (last? (y ∷ xs))
    ∙ ap (λ t. x ∷ t) (code-accumulate k d (y ∷ xs) p)

pub patch-add_to_last :
    (k : OpKind) (d : ℤ) (c : Ctx) (o : Option Op) → (add_to_last k d c o).patch ≡ c.patch
unfolding add_to_last push_op
patch-add_to_last k d c none = refl
patch-add_to_last k d c (some o) = elim (Bool-cases (same_kind o.kind k)) [
  | inl e ↦ rw e
  | inr e ↦ rw e
]

merged-append :
    (k : OpKind) (d : ℤ) (xs : List Op) (y : Op) (ys : List Op)
    → merged k d (xs ++ y ∷ ys) ≡ xs ++ merged k d (y ∷ ys)
unfolding merged
merged-append k d [] y ys = refl
merged-append k d (x ∷ []) y ys = refl
merged-append k d (x ∷ x' ∷ xs) y ys = ap (λ t. x ∷ t) (merged-append k d (x' ∷ xs) y ys)

-- No bracket is joined with what follows it.
not_start : (b : Basic) → same_kind OpKind.loop_start (kind_of b) ≡ false
not_start Basic.tape = refl
not_start Basic.cell = refl
not_start Basic.write = refl
not_start Basic.read = refl

not_end : (b : Basic) → same_kind OpKind.loop_end (kind_of b) ≡ false
not_end Basic.tape = refl
not_end Basic.cell = refl
not_end Basic.write = refl
not_end Basic.read = refl

merged-bracket :
    (k : OpKind) (d : ℤ) (x : Op) (p : Prog)
    → same_kind x.kind k ≡ false
    → merged k d (x ∷ flatten p) ≡ x ∷ merged k d (flatten p)
unfolding merged flatten
merged-bracket k d x done h = rw h
merged-bracket k d x (basic b z p) h = refl
merged-bracket k d x (loop body p) h = refl

abbrev pub bracket_of : Prog → Op
bracket_of body = op OpKind.loop_end (to_i64 (neg (jump (length (flatten body)))))

pub merged-flatten :
    (b : Basic) (d : ℤ) (p : Prog) → merged (kind_of b) d (flatten p) ≡ flatten (join_last b d p)
unfolding flatten join_last merged
merged-flatten b d done = refl
merged-flatten b d (basic b' z done) = elim (Bool-cases (same_kind (kind_of b') (kind_of b))) [
  | inl e ↦ rw e
  | inr e ↦ rw e
]
merged-flatten b d (basic b' z (basic b'' z' p)) =
    ap (λ t. op (kind_of b') z ∷ t) (merged-flatten b d (basic b'' z' p))
merged-flatten b d (basic b' z (loop body p)) =
    ap (λ t. op (kind_of b') z ∷ t) (merged-flatten b d (loop body p))
merged-flatten b d (loop body p) =
    merged-append (kind_of b) d (op OpKind.loop_start (jump (length (flatten body))) ∷ flatten body)
      (bracket_of body) (flatten p)
    ∙ ap (λ t. op OpKind.loop_start (jump (length (flatten body))) ∷ (flatten body ++ t))
        (merged-bracket (kind_of b) d (bracket_of body) p (not_end b)
          ∙ ap (λ t. bracket_of body ∷ t) (merged-flatten b d p))

pub merged-flatten_open :
    (b : Basic) (d : ℤ) (cur : Prog) (outer : List Prog)
    → merged (kind_of b) d (flatten_open cur outer) ≡ flatten_open (join_last b d cur) outer
unfolding flatten_open
merged-flatten_open b d cur [] = merged-flatten b d cur
merged-flatten_open b d cur (p ∷ ps) =
    merged-append (kind_of b) d (flatten_open p ps) (op OpKind.loop_start (pos 0)) (flatten cur)
    ∙ ap (λ t. flatten_open p ps ++ t)
        (merged-bracket (kind_of b) d (op OpKind.loop_start (pos 0)) cur (not_start b)
          ∙ ap (λ t. op OpKind.loop_start (pos 0) ∷ t) (merged-flatten b d cur))
