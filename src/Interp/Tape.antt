-- ===== src/Interp/Tape.antt =====
-- Where `ir_op_tape` of csrc/src/ir_interpret.c leads to. It wraps once, by an addition or a
-- subtraction of the capacity, and its first test compares unsigned numbers.
use bfcomp.Prelude.{
  ℕ, ◌+◌, ◌-◌, ◌*◌, ◌%◌, ◌^◌, ◌≤◌, ◌<◌, ◌≡◌, ap, ◌∙◌, ◌⊎◌, inl, inr, none, arith, length, sym,
  Bool-cases, ltb, tests,
}
use native.Mathlib.Nat.{mod-eq_of_lt}
use bfcomp.Prelude.Int.{ℤ, pos, negsuc, ◌+ℤ◌, ◌-ℤ◌}
use bfcomp.Word.{to_i64, to_u64, to_i64-eq_of_IsI64}
use bfcomp.Prog.Placed.{get_elem?-past}
use bfcomp.Interp.{Store, load, load_at, wrap_sp, move}

wrap_sp-inside : (cap n : ℕ) → n < cap → cap < 2 ^ 62 → wrap_sp cap (pos n) ≡ pos n
unfolding wrap_sp to_u64
wrap_sp-inside cap n lt h = ground arith

sub-pos : (n cap : ℕ) → cap ≤ n → pos n -ℤ pos cap ≡ pos (n - cap)
unfolding ◌-ℤ◌
sub-pos n cap h = ground arith

sub-negsuc : (n cap : ℕ) → negsuc n -ℤ pos cap ≡ negsuc (n + cap)
unfolding ◌-ℤ◌
sub-negsuc n cap = ground arith

wrap_sp-right : (cap n : ℕ) → cap ≤ n → n < 2 ^ 63 → wrap_sp cap (pos n) ≡ pos (n - cap)
wrap_sp-right cap n le h =
    ground (arith, first, sub-pos n cap le, to_i64-eq_of_IsI64 (pos (n - cap)) (omega arith))
  where
    first : wrap_sp cap (pos n) ≡ to_i64 (pos n -ℤ pos cap)
    first = unfold wrap_sp to_u64 in ground arith

wrap_sp-left : (cap n : ℕ) → cap < 2 ^ 62 → n < 2 ^ 62 → wrap_sp cap (negsuc n) ≡ negsuc (n + cap)
wrap_sp-left cap n h k =
    ground (arith, first, sub-negsuc n cap, to_i64-eq_of_IsI64 (negsuc (n + cap)) (omega arith))
  where
    first : wrap_sp cap (negsuc n) ≡ to_i64 (negsuc n -ℤ pos cap)
    first = unfold wrap_sp to_u64 in ground arith

mod-sub : (n cap : ℕ) → cap ≤ n → n < 2 * cap → n - cap ≡ n % cap
mod-sub n cap le lt = grind arith

-- The tape that `sp` points into, at cell `i`.
pub record PointsAt (s : Store) (i : ℕ) : Type 0 where
  pub pointer : s.sp ≡ pos i
  pub inside : i < length s.cells
  pub small : length s.cells < 2 ^ 61

module _ (s : Store) (i : ℕ) (z : ℤ) (h : PointsAt s i) where
  move-to :
      (t : ℤ)
      → pos i +ℤ z ≡ t
      → to_i64 t ≡ t
      → move z s ≡ record s { sp = wrap_sp (length s.cells) t }
  unfolding move
  move-to t e f =
      ap (λ u. record s { sp = wrap_sp (length s.cells) (to_i64 (u +ℤ z)) }) h.pointer
      ∙ ap (λ u. record s { sp = wrap_sp (length s.cells) (to_i64 u) }) e
      ∙ ap (λ u. record s { sp = wrap_sp (length s.cells) u }) f

  -- From a cell of a tape of less than 2^61 cells, a move to a place right of the tape's left end,
  -- and less than a whole tape beyond its right end, leads to the cell of that place on the ring of
  -- cells, and changes nothing else.
  pub move-mod :
      (n : ℕ)
      → pos i +ℤ z ≡ pos n
      → n < 2 * length s.cells
      → move z s ≡ record s { sp = pos (n % length s.cells) }
  move-mod n e lt =
      move-to (pos n) e (to_i64-eq_of_IsI64 (pos n) (omega (arith, h.small)))
      ∙ ap (λ u. record s { sp = u })
          (elim (Bool-cases (ltb n (length s.cells))) [
            | inl within ↦
                wrap_sp-inside _ n (omega tests) (omega (arith, h.small))
                ∙ ap pos (sym (mod-eq_of_lt (omega tests)))
            | inr beyond ↦
                wrap_sp-right _ n (ground arith) (omega (arith, h.small))
                ∙ ap pos (mod-sub n _ (ground arith) lt)
          ])

  -- From a cell of a tape of less than 2^61 cells, a move by less than 2^62 beyond the left end, or
  -- a whole tape or more beyond the right end, leads off the tape: the next access to the cell is
  -- one outside of the tape's memory.
  pub load-move_off :
      (n : ℕ)
      → (pos i +ℤ z ≡ negsuc n) ⊎ ((pos i +ℤ z ≡ pos n) × (2 * length s.cells ≤ n))
      → n < 2 ^ 62
      → load (move z s) ≡ none
  unfolding load
  load-move_off n (inl e) lt =
      ap load (move-to (negsuc n) e (to_i64-eq_of_IsI64 (negsuc n) (omega arith)))
      ∙ ap (load_at s.cells) (wrap_sp-left _ n (omega (arith, h.small)) lt)
  load-move_off n (inr (e, le)) lt =
      ap load (move-to (pos n) e (to_i64-eq_of_IsI64 (pos n) (omega arith)))
      ∙ ap (load_at s.cells) (wrap_sp-right _ n (omega arith) (omega arith))
      ∙ get_elem?-past s.cells _ (omega arith)
