-- ===== src/Parse/Round.antt =====
-- One rule for the `switch` of `ir_ctx_parse`: a property of all its branches.
use bfcomp.Prelude.{ℕ, ◌≤◌, arith, ◌≡◌, Bool, true, false, if◌then◌else◌, ◌==◌}
use bfcomp.Prelude.Int.{ℤ, pos, ◌-ℤ◌}
use bfcomp.Word.{neg}
use bfcomp.Ir.{Ctx}
use bfcomp.Prog.{Basic, kind_of}
use bfcomp.Prog.Weight.{size_ℤ}
use bfcomp.Parse.{Flow, advance, push_op, accumulate, open_loop, close_loop, parse_char}

pub both {ℓ κ} :
    {A : Type ℓ} (P : A → Type κ) (b : Bool) {x y : A} → P x → P y → P (if b then x else y)
both P true hx hy = hx
both P false hx hy = hy

-- What a property of the outcome of a round has to be shown for, where it knows that an argument is
-- at most the count in size.
pub record CountedBranches (P : Flow → Type 0) (n : ℕ) (c : Ctx) : Type 0 where
  pub pushes : (b : Basic) (z : ℤ) → size_ℤ z ≤ n → P (advance n (push_op (kind_of b) z c))
  pub joins : (b : Basic) (z : ℤ) → size_ℤ z ≤ n → P (advance n (accumulate (kind_of b) z c))
  pub opens : P (advance 1 (open_loop c))
  pub closes : P (close_loop c c.patch)
  pub skips : P (advance n c)

size-neg : (n : ℕ) → size_ℤ (neg (pos n)) ≤ n
unfolding neg ◌-ℤ◌
size-neg n = ground arith

pub parse_char_counted :
    (P : Flow → Type 0) (x n : ℕ) (c : Ctx) → CountedBranches P n c → P (parse_char x n c)
unfolding parse_char
parse_char_counted P x n c h = both P (x == b',') (h.pushes Basic.read (pos n) (omega arith)) (
    both P (x == b'.') (h.pushes Basic.write (pos n) (omega arith)) (
      both P (x == b'+') (h.joins Basic.cell (pos n) (omega arith)) (
        both P (x == b'-') (h.joins Basic.cell (neg (pos n)) (size-neg n)) (
          both P (x == b'>') (h.joins Basic.tape (pos n) (omega arith)) (
            both P (x == b'<') (h.joins Basic.tape (neg (pos n)) (size-neg n))
              (both P (x == b'[') h.opens (both P (x == b']') h.closes h.skips)))))))

-- What a property has to be shown for that does not care for the size of arguments.
pub record Branches (P : Flow → Type 0) (n : ℕ) (c : Ctx) : Type 0 where
  pub pushes : (b : Basic) (z : ℤ) → P (advance n (push_op (kind_of b) z c))
  pub joins : (b : Basic) (z : ℤ) → P (advance n (accumulate (kind_of b) z c))
  pub opens : P (advance 1 (open_loop c))
  pub closes : P (close_loop c c.patch)
  pub skips : P (advance n c)

pub parse_char_rule :
    (P : Flow → Type 0) (x n : ℕ) (c : Ctx) → Branches P n c → P (parse_char x n c)
parse_char_rule P x n c h = parse_char_counted P x n c (record {
  pushes = λ b z s. h.pushes b z;
  joins = λ b z s. h.joins b z;
  opens = h.opens;
  closes = h.closes;
  skips = h.skips;
})

-- The same for a character that is no bracket.
pub parse_char-unbracketed :
    (P : Flow → Type 0) (x n : ℕ) (c : Ctx)
    → (x == b'[') ≡ false
    → (x == b']') ≡ false
    → ((b : Basic) (z : ℤ) → P (advance n (push_op (kind_of b) z c)))
    → ((b : Basic) (z : ℤ) → P (advance n (accumulate (kind_of b) z c)))
    → P (advance n c)
    → P (parse_char x n c)
unfolding parse_char
parse_char-unbracketed P x n c e₁ e₂ pushes joins skips = both P (x == b',') (pushes Basic.read _) (
    both P (x == b'.') (pushes Basic.write _) (
      both P (x == b'+') (joins Basic.cell _) (
        both P (x == b'-') (joins Basic.cell _) (
          both P (x == b'>') (joins Basic.tape _)
            (both P (x == b'<') (joins Basic.tape _) (rw (e₁, e₂) skips))))))
