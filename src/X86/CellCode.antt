-- ===== src/X86/CellCode.antt =====
-- The code that csrc/src/ir_compile.c emits for a step on a cell.
use bfcomp.Prelude.{
  ℕ, zero, suc, ◌+◌, ◌-◌, ◌%◌, ◌^◌, ◌≡◌, ◌<◌, refl, sym, ap, subst, ◌∙◌, List, [], ◌∷◌, ◌++◌, some,
  some_injective, arith, length, get_elem?, set, Bool-cases, inl, inr,
}
use bfcomp.Prelude.Int.{ℤ, pos, negsuc, ◌+ℤ◌}
use bfcomp.Word.{to_u8, to_u32}
use bfcomp.Interp.{Store}
use bfcomp.Emit.{
  CompileResult, ok, operand_size, reg_indirect, le_bytes, emit_add_sub, emit_step, emit_other,
  emit_indirect, too_big,
}
use bfcomp.Compile.Sizes.{
  Size, none_at_all, one_up, one_down, up, down, huge, size, emit_add_sub-up, emit_add_sub-down,
  emit_add_sub-huge, emit_indirect-up, emit_indirect-down, fits_byte,
}
use bfcomp.X86.Decode.{
  mov_imm, alu_byte, alu_byte_al, add, sub, decode, decode_80, decode_c7, decode_al, decode_fe,
}
use bfcomp.X86.Machine.{set_reg, execute}
use bfcomp.X86.Flow.{Runs, Runs-nil, Runs-one, Runs-append}
use bfcomp.X86.Steps.{
  Regs, cpu, with_cell, word-le_bytes, execute-add, execute-sub, execute-add_al, execute-sub_al,
}

-- The code leads from one store and `%edi` to others, whatever the other registers hold.
pub record Does (base : ℕ) (bs : List ℕ) (edi : ℕ) (s : Store) (edi' : ℕ) (s' : Store)
    : Type 0 where
  pub regs : Regs → Regs
  pub runs : (r : Regs) → Runs base bs (cpu r edi s) (cpu (regs r) edi' s')

pub Does-append :
    (base : ℕ) {xs ys : List ℕ} {e e' e'' : ℕ} {s s' s'' : Store}
    → Does base xs e s e' s'
    → Does base ys e' s' e'' s''
    → Does base (xs ++ ys) e s e'' s''
Does-append base p q = record {
  regs = λ r. q.regs (p.regs r);
  runs = λ r. Runs-append base (p.runs r) (q.runs (p.regs r));
}

pub set-same : (xs : List ℕ) (k v : ℕ) → get_elem? xs k ≡ some v → set xs k v ≡ xs
set-same [] k v e = refl
set-same (x ∷ xs) zero v e = ap (λ t. t ∷ xs) (sym (some_injective e))
set-same (x ∷ xs) (suc k) v e = ap (λ t. x ∷ t) (set-same xs k v e)

-- The byte that an addition or a subtraction leaves is the one that the interpreter computes.
sum-up : (v n : ℕ) → (v + n) % 256 ≡ to_u8 (pos v +ℤ pos n)
unfolding to_u8 ◌+ℤ◌
sum-up v n = ground arith

sum-down : (v n : ℕ) → (v + (256 - suc n % 256)) % 256 ≡ to_u8 (pos v +ℤ negsuc n)
unfolding to_u8 ◌+ℤ◌
sum-down v n = ground arith

nothing_emitted : emit_add_sub reg_indirect (pos zero) [] ≡ (ok, [])
unfolding emit_add_sub
nothing_emitted = refl

inc_emitted : emit_add_sub reg_indirect (pos 1) [] ≡ (ok, 0xFE ∷ 0x07 ∷ [])
unfolding emit_add_sub emit_step too_big
inc_emitted = refl

dec_emitted : emit_add_sub reg_indirect (negsuc 0) [] ≡ (ok, 0xFE ∷ 0x0F ∷ [])
unfolding emit_add_sub emit_step too_big
dec_emitted = refl

indirect : (z : ℤ) → emit_other reg_indirect z [] ≡ (ok, emit_indirect z [])
unfolding emit_other
indirect z = refl

inc_decoded : (post : List ℕ) → decode (0xFE ∷ 0x07 ∷ post) ≡ some (alu_byte add 7 1, 2)
unfolding decode decode_fe
inc_decoded post = refl

dec_decoded : (post : List ℕ) → decode (0xFE ∷ 0x0F ∷ post) ≡ some (alu_byte sub 7 1, 2)
unfolding decode decode_fe
dec_decoded post = refl

module _ (base k v : ℕ) (s : Store) (found : get_elem? s.cells k ≡ some v) where
  abbrev Leaves : List ℕ → ℕ → Type 0
  Leaves bs w = Does base bs (base + k) s (base + k) (with_cell k w s)

  add-Leaves :
      (bs : List ℕ) (b : ℕ)
      → ((post : List ℕ) → decode (bs ++ post) ≡ some (alu_byte add 7 b, length bs))
      → Leaves bs ((v + b) % 256)
  add-Leaves bs b d = record {
    regs = λ r. record r { zf = _ };
    runs = λ r. Runs-one base bs (alu_byte add 7 b) _ _ d (execute-add base r k v s found b);
  }

  sub-Leaves :
      (bs : List ℕ) (b : ℕ)
      → ((post : List ℕ) → decode (bs ++ post) ≡ some (alu_byte sub 7 b, length bs))
      → Leaves bs ((v + (256 - b % 256)) % 256)
  sub-Leaves bs b d = record {
    regs = λ r. record r { zf = _ };
    runs = λ r. Runs-one base bs (alu_byte sub 7 b) _ _ d (execute-sub base r k v s found b);
  }

  -- `mov` of a word to `%eax`.
  load_eax :
      (w : ℕ) (r : Regs)
      → w < 2 ^ 32
      → Runs base
          (0xC7 ∷ 0xC0 ∷ le_bytes w)
          (cpu r (base + k) s)
          (cpu (record r { eax = w }) (base + k) s)
  unfolding decode decode_c7 execute set_reg
  load_eax w r h =
      Runs-one base (0xC7 ∷ 0xC0 ∷ le_bytes w) (mov_imm 0 w) _ _
        (λ post. ap (λ x. some (mov_imm 0 x, 6)) (word-le_bytes w h)) (λ i. refl)

  wide_add-Leaves :
      (w : ℕ)
      → w < 2 ^ 32
      → Leaves (0xC7 ∷ 0xC0 ∷ (le_bytes w ++ 0x00 ∷ 0x07 ∷ [])) ((v + w % 256) % 256)
  unfolding decode decode_al
  wide_add-Leaves w h = record {
    regs = λ r. record r { eax = w; zf = _ };
    runs = λ r. Runs-append base (load_eax w r h) (
        Runs-one base (0x00 ∷ 0x07 ∷ []) (alu_byte_al add 7) _ _ (λ post. refl)
          (execute-add_al base (record r { eax = w }) k v s found));
  }

  wide_sub-Leaves :
      (w : ℕ)
      → w < 2 ^ 32
      → Leaves (0xC7 ∷ 0xC0 ∷ (le_bytes w ++ 0x28 ∷ 0x07 ∷ [])) ((v + (256 - w % 256 % 256)) % 256)
  unfolding decode decode_al
  wide_sub-Leaves w h = record {
    regs = λ r. record r { eax = w; zf = _ };
    runs = λ r. Runs-append base (load_eax w r h) (
        Runs-one base (0x28 ∷ 0x07 ∷ []) (alu_byte_al sub 7) _ _ (λ post. refl)
          (execute-sub_al base (record r { eax = w }) k v s found));
  }

  up-Leaves : (n : ℕ) → 0 < n → n < 2 ^ 31 → Leaves (emit_indirect (pos n) []) ((v + n) % 256)
  unfolding decode decode_80 to_u8 to_u32
  up-Leaves n h h' = elim (Bool-cases (fits_byte n)) [
    | inl e ↦
        subst (λ t. Leaves t ((v + n) % 256)) (sym (emit_indirect-up n h ∙ (rw e refl)))
          (subst (Leaves (0x80 ∷ 0x07 ∷ to_u8 (pos n) ∷ [])) (omega arith)
            (add-Leaves (0x80 ∷ 0x07 ∷ to_u8 (pos n) ∷ []) (n % 256) (λ post. refl)))
    | inr e ↦
        subst (λ t. Leaves t ((v + n) % 256)) (sym (emit_indirect-up n h ∙ (rw e refl)))
          (subst (Leaves (0xC7 ∷ 0xC0 ∷ (le_bytes (to_u32 (pos n)) ++ 0x00 ∷ 0x07 ∷ [])))
            (omega arith) (wide_add-Leaves (n % 2 ^ 32) (omega arith)))
  ]

  down-Leaves :
      (n : ℕ) → n < 2 ^ 31 → Leaves (emit_indirect (negsuc n) []) ((v + (256 - suc n % 256)) % 256)
  unfolding decode decode_80 to_u8 to_u32
  down-Leaves n h = elim (Bool-cases (fits_byte (suc n))) [
    | inl e ↦
        subst (λ t. Leaves t ((v + (256 - suc n % 256)) % 256))
          (sym (emit_indirect-down n ∙ (rw e refl)))
          (subst (Leaves (0x80 ∷ 0x2F ∷ to_u8 (pos (suc n)) ∷ [])) (omega arith)
            (sub-Leaves (0x80 ∷ 0x2F ∷ to_u8 (pos (suc n)) ∷ []) (suc n % 256) (λ post. refl)))
    | inr e ↦
        subst (λ t. Leaves t ((v + (256 - suc n % 256)) % 256))
          (sym (emit_indirect-down n ∙ (rw e refl)))
          (subst (Leaves (0xC7 ∷ 0xC0 ∷ (le_bytes (to_u32 (pos (suc n))) ++ 0x28 ∷ 0x07 ∷ [])))
            (omega arith) (wide_sub-Leaves (suc n % 2 ^ 32) (omega arith)))
  ]

  Leaves-as : {f g : List ℕ} {w w' : ℕ} → f ≡ g → w ≡ w' → Leaves f w → Leaves g w'
  Leaves-as {f} {g} {w} {w'} e e' h = subst (λ t. Leaves t w') e (subst (Leaves f) e' h)

  same_cell : v < 256 → Leaves [] (to_u8 (pos v +ℤ pos zero))
  same_cell h = record {
    regs = λ r. r;
    runs = λ r.
        subst (λ t. Runs base [] (cpu r (base + k) s) (cpu r (base + k) t)) same
          (Runs-nil base (cpu r (base + k) s));
  }
    where
      same : s ≡ with_cell k (to_u8 (pos v +ℤ pos zero)) s
      same =
          ap (λ c. record s { cells = c })
            (sym (ap (set s.cells k) (sym (sum-up v 0) ∙ omega arith) ∙ set-same s.cells k v found))

  emitted :
      (z : ℤ) (f g : List ℕ) (r : CompileResult)
      → emit_add_sub reg_indirect z [] ≡ (ok, f)
      → emit_add_sub reg_indirect z [] ≡ (r, g)
      → g ≡ f
  emitted z f g r e e' = ap (λ x. x.1) (sym e' ∙ e)

  -- The code of a step on a cell, if there is one, does to the byte what the interpreter does.
  pub cell-Leaves :
      (z : ℤ) (f : List ℕ)
      → emit_add_sub reg_indirect z [] ≡ (ok, f)
      → v < 256
      → Leaves f (to_u8 (pos v +ℤ z))
  cell-Leaves z f e h = by_size (size z) e
    where
      by_size :
          {z : ℤ}
          → Size z
          → emit_add_sub reg_indirect z [] ≡ (ok, f)
          → Leaves f (to_u8 (pos v +ℤ z))
      by_size none_at_all e =
          Leaves-as (emitted (pos zero) f [] ok e nothing_emitted) refl (same_cell h)
      by_size one_up e =
          Leaves-as (emitted (pos 1) f (0xFE ∷ 0x07 ∷ []) ok e inc_emitted) (sum-up v 1)
            (add-Leaves (0xFE ∷ 0x07 ∷ []) 1 inc_decoded)
      by_size one_down e =
          Leaves-as (emitted (negsuc 0) f (0xFE ∷ 0x0F ∷ []) ok e dec_emitted) (sum-down v 0)
            (sub-Leaves (0xFE ∷ 0x0F ∷ []) 1 dec_decoded)
      by_size (up n a b) e =
          Leaves-as
            (emitted (pos n) f (emit_indirect (pos n) []) ok e
              (emit_add_sub-up reg_indirect n a b ∙ indirect (pos n)))
            (sum-up v n) (up-Leaves n (omega arith) b)
      by_size (down n a b) e =
          Leaves-as
            (emitted (negsuc n) f (emit_indirect (negsuc n) []) ok e
              (emit_add_sub-down reg_indirect n a b ∙ indirect (negsuc n)))
            (sum-down v n) (down-Leaves n b)
      by_size (huge z b) e =
          let r : ok ≡ operand_size = ap (λ x. x.0) (sym e) ∙ emit_add_sub-huge reg_indirect z b in
          absurd cc
