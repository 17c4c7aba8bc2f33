-- ===== src/X86/TapeCode.antt =====
-- The code that csrc/src/ir_compile.c emits for a move on the tape.
use bfcomp.Prelude.{
  ℕ, zero, suc, ◌+◌, ◌-◌, ◌/◌, ◌%◌, ◌^◌, ◌≡◌, ◌<◌, refl, sym, ap, subst, ◌∙◌, List, [], ◌∷◌, ◌++◌,
  some, true, arith, length, Bool-cases, inl, inr,
}
use bfcomp.Prelude.Int.{ℤ, pos, negsuc, pos_part, neg_part, ◌+ℤ◌, int_laws}
use bfcomp.Word.{to_u8, to_u32}
use bfcomp.Interp.{Store}
use bfcomp.Emit.{
  CompileResult, ok, operand_size, reg_direct, le_bytes, emit_add_sub, emit_step, emit_other,
  emit_direct, too_big,
}
use bfcomp.Compile.Sizes.{
  Size, none_at_all, one_up, one_down, up, down, huge, size, emit_add_sub-up, emit_add_sub-down,
  emit_add_sub-huge, emit_direct-up, emit_direct-down, fits_byte,
}
use bfcomp.X86.Decode.{
  alu_reg, add, sub, sign_extend, word_of, decode, decode_81, decode_83, decode_reg,
}
use bfcomp.X86.Machine.{get_reg, set_reg, on_reg, execute}
use bfcomp.X86.Flow.{Runs-nil, Runs-one}
use bfcomp.X86.Steps.{cpu}
use bfcomp.X86.CellCode.{Does}

nothing_emitted : emit_add_sub reg_direct (pos zero) [] ≡ (ok, [])
unfolding emit_add_sub
nothing_emitted = refl

inc_emitted : emit_add_sub reg_direct (pos 1) [] ≡ (ok, 0x47 ∷ [])
unfolding emit_add_sub emit_step too_big
inc_emitted = refl

dec_emitted : emit_add_sub reg_direct (negsuc 0) [] ≡ (ok, 0x4F ∷ [])
unfolding emit_add_sub emit_step too_big
dec_emitted = refl

direct : (z : ℤ) → emit_other reg_direct z [] ≡ (ok, emit_direct z [])
unfolding emit_other
direct z = refl

inc_decoded : (post : List ℕ) → decode (0x47 ∷ post) ≡ some (alu_reg add 7 1, 1)
unfolding decode decode_reg
inc_decoded post = refl

dec_decoded : (post : List ℕ) → decode (0x4F ∷ post) ≡ some (alu_reg sub 7 1, 1)
unfolding decode decode_reg
dec_decoded post = refl

-- A byte that is not negative is extended to itself.
extended : (n : ℕ) → fits_byte n ≡ true → sign_extend (to_u8 (pos n)) ≡ n
unfolding to_u8
extended n h = ground arith

unsigned :
    (n : ℕ)
    → n < 2 ^ 32
    → word_of
        (to_u32 (pos n) % 256)
        (to_u32 (pos n) / 256 % 256)
        (to_u32 (pos n) / 256 / 256 % 256)
        (to_u32 (pos n) / 256 / 256 / 256 % 256)
      ≡ n
unfolding to_u32
unsigned n h = omega arith

module _ (base edi : ℕ) (s : Store) where
  abbrev Moves : List ℕ → ℕ → Type 0
  Moves bs edi' = Does base bs edi s edi' s

  Moves-as : {f g : List ℕ} {e e' : ℕ} → f ≡ g → e ≡ e' → Moves f e → Moves g e'
  Moves-as {f} {g} {e = w} {e' = w'} p q h = subst (λ t. Moves t w') p (subst (Moves f) q h)

  add-Moves :
      (bs : List ℕ) (w : ℕ)
      → ((post : List ℕ) → decode (bs ++ post) ≡ some (alu_reg add 7 w, length bs))
      → Moves bs ((edi + w) % 2 ^ 32)
  unfolding execute get_reg set_reg on_reg
  add-Moves bs w d = record {
    regs = λ r. record r { zf = _ };
    runs = λ r. Runs-one base bs (alu_reg add 7 w) _ _ d (λ i. refl);
  }

  sub-Moves :
      (bs : List ℕ) (w : ℕ)
      → ((post : List ℕ) → decode (bs ++ post) ≡ some (alu_reg sub 7 w, length bs))
      → Moves bs ((edi + (2 ^ 32 - w % 2 ^ 32)) % 2 ^ 32)
  unfolding execute get_reg set_reg on_reg
  sub-Moves bs w d = record {
    regs = λ r. record r { zf = _ };
    runs = λ r. Runs-one base bs (alu_reg sub 7 w) _ _ d (λ i. refl);
  }

  up-Moves : (n : ℕ) → 0 < n → n < 2 ^ 31 → Moves (emit_direct (pos n) []) ((edi + n) % 2 ^ 32)
  unfolding decode decode_81 decode_83
  up-Moves n h h' = elim (Bool-cases (fits_byte n)) [
    | inl e ↦ Moves-as (sym (emit_direct-up n h ∙ (rw e refl))) refl (
        add-Moves (0x83 ∷ 0xC7 ∷ to_u8 (pos n) ∷ []) n
          (λ post. ap (λ w. some (alu_reg add 7 w, 3)) (extended n e)))
    | inr e ↦ Moves-as (sym (emit_direct-up n h ∙ (rw e refl))) refl (
        add-Moves (0x81 ∷ 0xC7 ∷ le_bytes (to_u32 (pos n))) n
          (λ post. ap (λ w. some (alu_reg add 7 w, 6)) (unsigned n (omega arith))))
  ]

  down-Moves :
      (n : ℕ)
      → n < 2 ^ 31
      → Moves (emit_direct (negsuc n) []) ((edi + (2 ^ 32 - suc n % 2 ^ 32)) % 2 ^ 32)
  unfolding decode decode_81 decode_83
  down-Moves n h = elim (Bool-cases (fits_byte (suc n))) [
    | inl e ↦ Moves-as (sym (emit_direct-down n ∙ (rw e refl))) refl (
        sub-Moves (0x83 ∷ 0xEF ∷ to_u8 (pos (suc n)) ∷ []) (suc n)
          (λ post. ap (λ w. some (alu_reg sub 7 w, 3)) (extended (suc n) e)))
    | inr e ↦ Moves-as (sym (emit_direct-down n ∙ (rw e refl))) refl (
        sub-Moves (0x81 ∷ 0xEF ∷ le_bytes (to_u32 (pos (suc n)))) (suc n)
          (λ post. ap (λ w. some (alu_reg sub 7 w, 6)) (unsigned (suc n) (omega arith))))
  ]

  emitted :
      (z : ℤ) (f g : List ℕ) (r : CompileResult)
      → emit_add_sub reg_direct z [] ≡ (ok, f)
      → emit_add_sub reg_direct z [] ≡ (r, g)
      → g ≡ f
  emitted z f g r e e' = ap (λ x. x.1) (sym e' ∙ e)

moved : (k j : ℕ) (z : ℤ) → pos k +ℤ z ≡ pos j → k + pos_part z ≡ j + neg_part z
moved k j z q = omega (int_laws, ap pos_part q, ap neg_part q)

-- The code of a move, if there is one, moves `%edi` by as much, when both places are addresses.
pub tape-Does :
    (base k j : ℕ) (s : Store) (z : ℤ) (f : List ℕ)
    → emit_add_sub reg_direct z [] ≡ (ok, f)
    → pos k +ℤ z ≡ pos j
    → base + k < 2 ^ 32
    → base + j < 2 ^ 32
    → Does base f (base + k) s (base + j) s
tape-Does base k j s z f e q h h' = by_size (size z) e q
  where
    by_size :
        {z : ℤ}
        → Size z
        → emit_add_sub reg_direct z [] ≡ (ok, f)
        → pos k +ℤ z ≡ pos j
        → Does base f (base + k) s (base + j) s
    by_size none_at_all e q =
        Moves-as base (base + k) s (emitted base (base + k) s (pos zero) f [] ok e nothing_emitted)
          (omega (arith, moved k j _ q))
          (record { regs = λ r. r; runs = λ r. Runs-nil base (cpu r (base + k) s) })
    by_size one_up e q =
        Moves-as base (base + k) s
          (emitted base (base + k) s (pos 1) f (0x47 ∷ []) ok e inc_emitted)
          (omega (arith, moved k j _ q)) (add-Moves base (base + k) s (0x47 ∷ []) 1 inc_decoded)
    by_size one_down e q =
        Moves-as base (base + k) s
          (emitted base (base + k) s (negsuc 0) f (0x4F ∷ []) ok e dec_emitted)
          (omega (arith, moved k j _ q)) (sub-Moves base (base + k) s (0x4F ∷ []) 1 dec_decoded)
    by_size (up n a b) e q =
        Moves-as base (base + k) s
          (emitted base (base + k) s (pos n) f (emit_direct (pos n) []) ok e
            (emit_add_sub-up reg_direct n a b ∙ direct (pos n)))
          (omega (arith, moved k j _ q)) (up-Moves base (base + k) s n (omega arith) b)
    by_size (down n a b) e q =
        Moves-as base (base + k) s
          (emitted base (base + k) s (negsuc n) f (emit_direct (negsuc n) []) ok e
            (emit_add_sub-down reg_direct n a b ∙ direct (negsuc n)))
          (omega (arith, moved k j _ q)) (down-Moves base (base + k) s n b)
    by_size (huge z b) e q =
        let r : ok ≡ operand_size = ap (λ x. x.0) (sym e) ∙ emit_add_sub-huge reg_direct z b in
        absurd cc
