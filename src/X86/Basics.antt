-- ===== src/X86/Basics.antt =====
-- The code that csrc/src/ir_compile.c emits for one instruction that is no jump.
use bfcomp.Prelude.{
  ℕ, zero, suc, ◌+◌, ◌≡◌, refl, sym, ap, subst, ◌∙◌, List, [], ◌∷◌, Option, none, some,
  some_injective, Bool, true, false, Option-cases, inl, inr, arith, if◌then◌else◌,
}
use mathlib.Core.Option
use bfcomp.Prelude.Int.{ℤ, pos, pos_part, ◌+ℤ◌}
use bfcomp.Word.{to_u8}
use bfcomp.Ir.{OpKind}
use bfcomp.Prog.{Basic, kind_of}
use bfcomp.Interp.{Store, load, act, move, update, repeat, write_byte, read_byte, read_from}
use bfcomp.Emit.{
  ok, operand_size, Emitted, too_big, emit_op, emit_add_sub, emit_transfer, emit_writes,
  emit_code_write, emit_code_read, sys_read, reg_direct, reg_indirect,
}
use bfcomp.X86.Steps.{with_cell}
use bfcomp.X86.CellCode.{Does, cell-Leaves}
use bfcomp.X86.TapeCode.{tape-Does}
use bfcomp.X86.CallCode.{update-Under, read-Does, writes-Does, repeat-some}
use bfcomp.X86.Brackets.{idx}
use bfcomp.X86.Straight.{Lands, Keeps, Sound, Sound-Under, repeat_once}

-- Code that was emitted without an error is what the branch without it emits.
emitted_ok :
    (b : Bool) (xs first : List ℕ)
    → ◌≡◌ {A = Emitted} (if b then (operand_size, []) else (ok, xs)) (ok, first)
    → xs ≡ first
emitted_ok true xs first e = absurd (let r : operand_size ≡ ok = ap (λ x. x.0) e in cc)
emitted_ok false xs first e = ap (λ x. x.1) e

-- Reading and writing leave `sp` as it is.
map-sp :
    (g : ℕ → Store) (p : ℤ) (s' : Store)
    → ((v : ℕ) → (g v).sp ≡ p)
    → (o : Option ℕ) → Option.map g o ≡ some s'
    → s'.sp ≡ p
map-sp g p s' h none e = absurd cc
map-sp g p s' h (some v) e = ap (λ t. t.sp) (sym (some_injective e)) ∙ h v

update-sp : (f : ℕ → ℕ) (s s' : Store) → update f s ≡ some s' → s'.sp ≡ s.sp
unfolding update
update-sp f s s' e = map-sp _ s.sp s' (λ v. refl) (load s) e

write_byte-sp : (s s' : Store) → write_byte s ≡ some s' → s'.sp ≡ s.sp
unfolding write_byte
write_byte-sp s s' e = map-sp _ s.sp s' (λ v. refl) (load s) e

repeat-write_byte : (n : ℕ) (s s' : Store) → repeat n write_byte s ≡ some s' → s'.sp ≡ s.sp
unfolding repeat
repeat-write_byte zero s s' e = ap (λ t. t.sp) (sym (some_injective e))
repeat-write_byte (suc n) s s' e = elim (Option-cases (write_byte s)) [
  | inl q ↦ absurd (let r : ◌≡◌ {A = Option Store} none (some s') = (rw (repeat, q) at e) in cc)
  | inr (t, q) ↦
      repeat-write_byte n t s' (sym (repeat-some n write_byte s q) ∙ e) ∙ write_byte-sp s t q
]

read_byte-sp : (s s' : Store) → read_byte s ≡ some s' → s'.sp ≡ s.sp
unfolding read_byte read_from
read_byte-sp s s' e = by_input s.input refl
  where
    by_input : (i : List ℕ) → s.input ≡ i → s'.sp ≡ s.sp
    by_input [] q = update-sp (λ v. v) s s' (sym (ap (λ i. read_from i s) q) ∙ e)
    by_input (x ∷ xs) q =
        update-sp (λ _. x) (record s { input = xs }) s' (sym (ap (λ i. read_from i s) q) ∙ e)

module _ (base : ℕ) (s s' : Store) (h : Sound base s) where
  abbrev Emits : List ℕ → Type 0
  Emits first = Does base first (base + idx s) s (base + idx s') s'

  here : idx s ≡ h.index
  here = ap pos_part h.here

  from_here :
      (first : List ℕ) (t : Store) (j : ℕ)
      → Does base first (base + h.index) s (base + j) t
      → t ≡ s'
      → j ≡ idx s'
      → Emits first
  from_here first t j d e q =
      subst (λ i. Does base first (base + i) s (base + idx s') s') (sym here)
        (subst (λ u. Does base first (base + h.index) s (base + idx s') u) e
          (subst (λ i. Does base first (base + h.index) s (base + i) t) q d))

  tape-Emits :
      (z : ℤ) (first : List ℕ)
      → emit_add_sub reg_direct z [] ≡ (ok, first)
      → move z s ≡ s'
      → Lands z s s'
      → Emits first
  unfolding move
  tape-Emits z first e q k =
      let d =
        tape-Does base h.index k.to s z first e (sym (ap (λ p. p +ℤ z) h.here) ∙ k.moved)
          (omega (arith, h.inside, h.fits)) (omega (arith, k.inside, h.fits)) in
      from_here first (move z s) k.to (record { regs = d.regs; runs = d.runs }) q
        (sym (ap pos_part k.lands))

  -- The code stays at the cell.
  stays :
      (first : List ℕ) (t : Store)
      → Does base first (base + h.index) s (base + h.index) t
      → t ≡ s'
      → t.sp ≡ s.sp
      → Emits first
  stays first t d e q =
      from_here first t h.index d e (sym here ∙ ap pos_part (sym q ∙ ap (λ u. u.sp) e))

  cell-Emits :
      (z : ℤ) (first : List ℕ)
      → emit_add_sub reg_indirect z [] ≡ (ok, first)
      → update (λ v. to_u8 (pos v +ℤ z)) s ≡ some s'
      → Emits first
  cell-Emits z first e q =
      let (v, (u, b)) = Sound-Under base s h in
      stays first (with_cell h.index (to_u8 (pos v +ℤ z)) s)
        (cell-Leaves base h.index v s u.found z first e b)
        (some_injective (sym (update-Under (λ v. to_u8 (pos v +ℤ z)) s h.index v u) ∙ q)) refl

  write-Emits :
      (z : ℤ) (first : List ℕ)
      → emit_code_write z [] ≡ (ok, first)
      → repeat (pos_part z) write_byte s ≡ some s'
      → Emits first
  unfolding emit_code_write
  write-Emits z first e q =
      let (v, (u, b)) = Sound-Under base s h in
      subst Emits (emitted_ok (too_big z) (emit_writes (pos_part z) []) first e) (
        stays (emit_writes (pos_part z) []) s' (writes-Does base h.index v (pos_part z) s s' u q)
          refl (repeat-write_byte (pos_part z) s s' q))

  read-Emits :
      (z : ℤ) (first : List ℕ)
      → emit_code_read z [] ≡ (ok, first)
      → read_byte s ≡ some s'
      → Emits first
  unfolding emit_code_read
  read-Emits z first e q =
      let (v, (u, b)) = Sound-Under base s h in
      subst Emits (emitted_ok (too_big z) (emit_transfer sys_read 0 []) first e) (
        stays (emit_transfer sys_read 0 []) s' (read-Does base h.index v s s' u q) refl
          (read_byte-sp s s' q))

  -- From a store with `sp` at a cell of a tape of bytes below the address 2^32, and with an input of bytes:
  -- if an instruction has code, and the interpreter's block of it leads to a store (for a move, to the
  -- cell where it lands without wrapping around, and for a `,` with the count 1), then the code leads there
  -- too, with `%edi` at the cell, wherever the code stands and whatever the other registers hold.
  pub basic-Emits :
      (b : Basic) (z : ℤ) (first : List ℕ)
      → emit_op (kind_of b) 0 z [] ≡ (ok, first)
      → act (kind_of b) z s ≡ some s'
      → Keeps b z s s'
      → Emits first
  unfolding emit_op act Keeps
  basic-Emits Basic.tape z first e q k = tape-Emits z first e (some_injective q) k
  basic-Emits Basic.cell z first e q k = cell-Emits z first e q
  basic-Emits Basic.write z first e q k = write-Emits z first e q
  basic-Emits Basic.read z first e q k =
      read-Emits z first e (sym (repeat_once s) ∙ sym (ap (λ z. act OpKind.read z s) k) ∙ q)
