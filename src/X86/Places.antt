-- ===== src/X86/Places.antt =====
-- Where the parts of a loop's code stand.
use bfcomp.Prelude.{
  ℕ, ◌+◌, ◌^◌, ◌≡◌, ◌<◌, ◌≤◌, ap, ap₂, subst, ◌∙◌, List, [], ◌∷◌, ◌++◌, Bool-cases, inl, inr, arith,
  length, length-append, leb,
}
use mathlib.Core.List.{append_assoc}
use bfcomp.Prelude.Int.{ℤ, pos, ◌-ℤ◌, ltb_ℤ}
use bfcomp.Word.{to_u8, to_u32, to_i32, neg}
use bfcomp.Emit.{
  le_bytes, push_int32, emit_cmp, emit_jump_back, emit_code_loop_start, emit_code_loop_end,
  int8_min,
}
use bfcomp.Compile.Append.{loop_bytes}
use bfcomp.X86.Flow.{At, At-left, At-right}
use bfcomp.X86.Jumps.{cmp_bytes, je, jne, loop_start-bytes, loop_end-bytes}

-- What the jump over a loop passes: its inside, the comparison, and the jump back.
abbrev pub over : List ℕ → ℕ
over inside = length inside + (3 + length (jne (length inside)))

abbrev pub body_at : ℕ → List ℕ → ℕ
body_at i inside = i + 3 + length (je (over inside))

abbrev pub end_at : ℕ → List ℕ → ℕ
end_at i inside = body_at i inside + length inside

abbrev pub behind_at : ℕ → List ℕ → ℕ
behind_at i inside = end_at i inside + 3 + length (jne (length inside))

pub je-long : (n : ℕ) → 2 ≤ length (je n)
je-long n = elim (Bool-cases (leb (n + 2) 127)) [
  | inl e ↦ rw e (omega arith)
  | inr e ↦ rw e (omega arith)
]

pub jne-long : (l : ℕ) → 2 ≤ length (jne l)
jne-long l = elim (Bool-cases (leb (l + 5) 128)) [
  | inl e ↦ rw e (omega arith)
  | inr e ↦ rw e (omega arith)
]

jump_back-long : (z : ℤ) (c : List ℕ) → length c + 2 ≤ length (emit_jump_back z c)
unfolding emit_jump_back push_int32
jump_back-long z c = elim (Bool-cases (ltb_ℤ z int8_min)) [
  | inl e ↦ rw e (
      omega (
        arith,
        length-append (c ++ 0x0F ∷ 0x85 ∷ []) (le_bytes (to_u32 (z -ℤ pos 4))),
        length-append c (0x0F ∷ 0x85 ∷ []),
      ))
  | inr e ↦ rw e (omega (arith, length-append c (0x75 ∷ to_u8 z ∷ [])))
]

loop_end-long : (inside : List ℕ) → length inside + 5 ≤ length (emit_code_loop_end inside)
unfolding emit_code_loop_end emit_cmp
loop_end-long inside = omega (
  arith,
  jump_back-long (to_i32 (neg (pos (length (inside ++ cmp_bytes) + 2)))) (inside ++ cmp_bytes),
  length-append inside cmp_bytes,
)

pub loop_bytes-long : (inside : List ℕ) → length inside + 5 ≤ length (loop_bytes inside)
unfolding loop_bytes
loop_bytes-long inside = omega (
  arith,
  loop_end-long inside,
  length-append (emit_code_loop_start (length (emit_code_loop_end inside)) [])
      (emit_code_loop_end inside),
)

length-jne : (inside : List ℕ) → length (inside ++ (cmp_bytes ++ jne (length inside))) ≡ over inside
length-jne inside = omega (arith, length-append inside (cmp_bytes ++ jne (length inside)))

loop_bytes-parts :
    (inside : List ℕ)
    → length inside + 5 < 2 ^ 31
    → loop_bytes inside
      ≡ (cmp_bytes ++ je (over inside)) ++ (inside ++ (cmp_bytes ++ jne (length inside)))
unfolding loop_bytes
loop_bytes-parts inside h =
    ap₂ (λ n t. emit_code_loop_start n [] ++ t)
      (ap length (loop_end-bytes inside h) ∙ length-jne inside) (loop_end-bytes inside h)
    ∙ ap (λ t. t ++ (inside ++ (cmp_bytes ++ jne (length inside)))) (loop_start-bytes (over inside))

module _ (code : List ℕ) (i : ℕ) (inside rest : List ℕ) where
  -- The four parts, the last of which is what follows the loop.
  pub record LoopAt : Type 0 where
    pub starts : At code i (cmp_bytes ++ je (over inside))
    pub holds : At code (body_at i inside) inside
    pub closes : At code (end_at i inside) (cmp_bytes ++ jne (length inside))
    pub follows : At code (behind_at i inside) rest

  At-as : {j k : ℕ} (xs : List ℕ) → j ≡ k → At code j xs → At code k xs
  At-as xs e = subst (λ j. At code j xs) e

  pub loop-LoopAt : length inside + 5 < 2 ^ 31 → At code i (loop_bytes inside ++ rest) → LoopAt
  loop-LoopAt h a =
      let front = cmp_bytes ++ je (over inside) in
      let close = cmp_bytes ++ jne (length inside) in
      let parted = subst (λ t. At code i (t ++ rest)) (loop_bytes-parts inside h) a in
      let whole = subst (At code i) (append_assoc front (inside ++ close) rest) parted in
      let tail : At code (body_at i inside) ((inside ++ close) ++ rest) =
        At-as ((inside ++ close) ++ rest) (omega arith)
          (At-right code i front ((inside ++ close) ++ rest) whole) in
      let tail' : At code (body_at i inside) (inside ++ (close ++ rest)) =
        subst (At code (body_at i inside)) (append_assoc inside close rest) tail in
      let ending : At code (end_at i inside) (close ++ rest) =
        At-right code (body_at i inside) inside (close ++ rest) tail' in
      record {
        starts = At-left code i front ((inside ++ close) ++ rest) whole;
        holds = At-left code (body_at i inside) inside (close ++ rest) tail';
        closes = At-left code (end_at i inside) close rest ending;
        follows = At-as rest (omega arith) (At-right code (end_at i inside) close rest ending);
      }

  pub loop-length :
      length inside + 5 < 2 ^ 31
      → i + length (loop_bytes inside ++ rest) ≡ behind_at i inside + length rest
  loop-length h = omega (
    arith,
    length-append (loop_bytes inside) rest,
    ap length (loop_bytes-parts inside h),
    length-append (cmp_bytes ++ je (over inside)) (inside ++ (cmp_bytes ++ jne (length inside))),
    length-jne inside,
  )
