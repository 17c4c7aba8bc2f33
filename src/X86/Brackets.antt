-- ===== src/X86/Brackets.antt =====
-- The code that csrc/src/ir_compile.c emits at the brackets of a loop: a comparison and a jump.
use bfcomp.Prelude.{
  ℕ, suc, ◌+◌, ◌^◌, ◌≡◌, ◌<◌, subst, ◌∙◌, List, ◌++◌, some, Bool, true, false, arith, length,
  if◌then◌else◌, ◌==◌,
}
use bfcomp.Prelude.Int.{ℤ, pos, pos_part, ◌+ℤ◌}
use bfcomp.Word.{to_u32}
use bfcomp.Interp.{Store}
use bfcomp.X86.Decode.{jump_if, alu_byte, cmp, decode}
use bfcomp.X86.Machine.{Cpu, running, alu_result, is_zero, same_flag, execute}
use bfcomp.X86.Flow.{at, At, At-left, At-right, Reaches, Reaches-trans, Reaches-one, step-at}
use bfcomp.X86.Steps.{Regs, cpu, execute-cmp}
use bfcomp.X86.CallCode.{Under}
use bfcomp.X86.Jumps.{cmp_bytes, cmp_decoded, je, jne, je-decoded, jne-decoded, back, over, back_to}

-- The cell that `sp` points to.
abbrev pub idx : Store → ℕ
idx s = pos_part s.sp

module _ (base : ℕ) (code : List ℕ) where
  -- Whatever the other registers hold, the processor comes from one place and store to others.
  abbrev pub Arrives : ℕ → Store → ℕ → Store → Type 0
  Arrives i s j t =
      (r : Regs)
      → (r' : Regs) × Reaches base code (at i (cpu r (base + idx s) s))
          (at j (cpu r' (base + idx t) t))

  pub Arrives-trans :
      (i j k : ℕ) (s t u : Store) → Arrives i s j t → Arrives j t k u → Arrives i s k u
  Arrives-trans i j k s t u p q r =
      let first = p r in let second = q first.0 in (second.0, Reaches-trans base first.1 second.1)

  abbrev after_jump : Bool → ℤ → Bool → ℕ → ℕ
  after_jump z d f i = if same_flag z f then to_u32 (pos i +ℤ d) else i

  flag : (v : ℕ) → v < 256 → is_zero (alu_result 256 cmp v 0) ≡ (v == 0)
  flag v h = ground arith

  jump-step :
      (i : ℕ) (m : Cpu) (z : Bool) (d : ℤ) (f : Bool)
      → m.zf ≡ f
      → execute base (jump_if z d) (at i m) ≡ running (at (after_jump z d f i) m)
  unfolding execute
  jump-step i m true d true e = rw e
  jump-step i m true d false e = rw e
  jump-step i m false d true e = rw e
  jump-step i m false d false e = rw e

  pub cmp_jump :
      (i v : ℕ) (s : Store) (jump : List ℕ) (z : Bool) (d : ℤ)
      → At code i (cmp_bytes ++ jump)
      → ((post : List ℕ) → decode (jump ++ post) ≡ some (jump_if z d, length jump))
      → Under s (idx s) v
      → v < 256
      → Arrives i s (after_jump z d (v == 0) (i + 3 + length jump)) s
  cmp_jump i v s jump z d h dec u lt r =
      let r' = record r { zf = is_zero (alu_result 256 cmp v 0) } in
      (
        r',
        Reaches-trans base
            (Reaches-one base (
              step-at base code i (cpu r (base + idx s) s) cmp_bytes (alu_byte cmp 7 0)
                (At-left code i cmp_bytes jump h) cmp_decoded
              ∙ execute-cmp base r (idx s) v s u.found 0 (i + 3)))
            (Reaches-one base (
              step-at base code (i + 3) (cpu r' (base + idx s) s) jump (jump_if z d)
                (At-right code i cmp_bytes jump h) dec
              ∙ jump-step (i + 3 + length jump) (cpu r' (base + idx s) s) z d (v == 0)
                  (flag v lt))),
      )

not_zero : (v : ℕ) → (suc v == 0) ≡ false
not_zero v = ground arith

module _ (base : ℕ) (code : List ℕ) (s : Store) where
  pub skip_start :
      (i n : ℕ)
      → At code i (cmp_bytes ++ je n)
      → Under s (idx s) 0
      → n < 2 ^ 31
      → i + 3 + length (je n) + n < 2 ^ 32
      → Arrives base code i s (i + 3 + length (je n) + n) s
  skip_start i n h u lt fits =
      subst (λ j. Arrives base code i s j s) (over (i + 3 + length (je n)) n fits)
        (cmp_jump base code i 0 s (je n) true (pos n) h (je-decoded n lt) u (omega arith))

  pub enter_start :
      (i n v : ℕ)
      → At code i (cmp_bytes ++ je n)
      → Under s (idx s) (suc v)
      → suc v < 256
      → n < 2 ^ 31
      → Arrives base code i s (i + 3 + length (je n)) s
  enter_start i n v h u byte lt =
      subst
        (λ f. Arrives base code i s (after_jump base code true (pos n) f (i + 3 + length (je n))) s)
        (not_zero v) (cmp_jump base code i (suc v) s (je n) true (pos n) h (je-decoded n lt) u byte)

  pub leave_end :
      (i l : ℕ)
      → At code i (cmp_bytes ++ jne l)
      → Under s (idx s) 0
      → l + 9 < 2 ^ 31
      → Arrives base code i s (i + 3 + length (jne l)) s
  leave_end i l h u lt =
      cmp_jump base code i 0 s (jne l) false (back l) h (jne-decoded l lt) u (omega arith)

  pub again_end :
      (i l v : ℕ)
      → At code (i + l) (cmp_bytes ++ jne l)
      → Under s (idx s) (suc v)
      → suc v < 256
      → l + 9 < 2 ^ 31
      → i < 2 ^ 32
      → Arrives base code (i + l) s i s
  again_end i l v h u byte lt fits =
      subst (λ j. Arrives base code (i + l) s j s) (back_to i l fits)
        (subst
          (λ f.
            Arrives base code (i + l) s
              (after_jump base code false (back l) f (i + l + 3 + length (jne l))) s)
          (not_zero v)
          (cmp_jump base code (i + l) (suc v) s (jne l) false (back l) h (jne-decoded l lt) u byte))
