-- ===== src/Meaning/Tame.antt =====
-- The runs of a program in which no move wraps around the tape. They are closed under what the parser of
-- csrc/src/ir_gen.c does: programs one behind the other, and steps that are joined into one.
use bfcomp.Prelude.{ℕ, suc, ◌+◌, ◌^◌, ◌≡◌, ◌<◌, sym, ap, ◌∙◌, some, arith, length}
use native.Mathlib.Nat.{mod-eq_of_lt}
use bfcomp.Prelude.Int.{ℤ, pos, pos_part, neg_part, ◌+ℤ◌, eq_of_parts, int_laws}
use bfcomp.Ir.{OpKind}
use bfcomp.Prog.{Basic, Prog, done, basic, loop, kind_of, seq}
use bfcomp.Interp.{Store, load, act, move}
use bfcomp.Interp.Exec.{Exec}
use bfcomp.Interp.Tape.{move-mod}
use bfcomp.X86.Straight.{Straight, Keeps}

-- A move from one cell of the tape to another, between its two ends.
pub record Goes (z : ℤ) (s t : Store) : Type 0 where
  pub from : ℕ
  pub to : ℕ
  pub starts : s.sp ≡ pos from
  pub moved : from + pos_part z ≡ to + neg_part z
  pub begins : from < length s.cells
  pub inside : to < length s.cells
  pub small : length s.cells < 2 ^ 61
  pub result : t ≡ record s { sp = pos to }

-- One instruction. `Reads` says which arguments a `,` may have.
unfoldable pub Does : (ℤ → Type 0) → Basic → ℤ → Store → Store → Type 0
Does Reads Basic.tape z s t = Goes z s t
Does Reads Basic.cell z s t = act OpKind.cell z s ≡ some t
Does Reads Basic.write z s t = act OpKind.write z s ≡ some t
Does Reads Basic.read z s t = Reads z × (act OpKind.read z s ≡ some t)

pub data Tame (Reads : ℤ → Type 0) : Prog → Store → Store → Type 0 where
  ends : {s : Store} → Tame Reads done s s
  acts :
      {b : Basic} {z : ℤ} {p : Prog} {s m t : Store}
      → Does Reads b z s m
      → Tame Reads p m t
      → Tame Reads (basic b z p) s t
  skips :
      {body p : Prog} {s t : Store}
      → load s ≡ some 0
      → Tame Reads p s t
      → Tame Reads (loop body p) s t
  again :
      {body p : Prog} {s m t : Store} (v : ℕ)
      → load s ≡ some (suc v)
      → Tame Reads body s m
      → Tame Reads (loop body p) m t
      → Tame Reads (loop body p) s t

Goes-move : (z : ℤ) (s t : Store) → Goes z s t → move z s ≡ t
Goes-move z s t g =
    move-mod s g.from z (record { pointer = g.starts; inside = g.begins; small = g.small }) g.to
      (omega (int_laws, g.moved)) (omega (arith, g.inside))
    ∙ ap (λ u. record s { sp = pos u }) (mod-eq_of_lt g.inside)
    ∙ sym g.result

module _ (Reads : ℤ → Type 0) where
  pub Does-act :
      (b : Basic) (z : ℤ) (s t : Store) → Does Reads b z s t → act (kind_of b) z s ≡ some t
  unfolding Does act
  Does-act Basic.tape z s t g = ap (λ u. some u) (Goes-move z s t g)
  Does-act Basic.cell z s t e = e
  Does-act Basic.write z s t e = e
  Does-act Basic.read z s t e = e.1

  pub Tame-Exec : {p : Prog} {s t : Store} → Tame Reads p s t → Exec p s t
  Tame-Exec ends = Exec.ends
  Tame-Exec (acts {b} {z} {p} {s} {m} e x) = Exec.acts (Does-act b z s m e) (Tame-Exec x)
  Tame-Exec (skips e x) = Exec.skips e (Tame-Exec x)
  Tame-Exec (again v e x y) = Exec.again v e (Tame-Exec x) (Tame-Exec y)

  pub Tame-seq :
      {p q : Prog} {s m t : Store} → Tame Reads p s m → Tame Reads q m t → Tame Reads (seq p q) s t
  unfolding seq
  Tame-seq ends y = y
  Tame-seq (acts e x) y = acts e (Tame-seq x y)
  Tame-seq (skips e x) y = skips e (Tame-seq x y)
  Tame-seq (again v e x x') y = again v e x (Tame-seq x' y)

-- Where each `,` reads one byte, these are the runs that the compiled code follows.
unfoldable pub Single : ℤ → Type 0
Single z = z ≡ pos 1

Does-Keeps : (b : Basic) (z : ℤ) (s t : Store) → Does Single b z s t → Keeps b z s t
unfolding Does Keeps Single
Does-Keeps Basic.tape z s t g = record {
  to = g.to;
  moved =
      ap (λ u. u +ℤ z) g.starts
      ∙ eq_of_parts (pos g.from +ℤ z) (pos g.to) (omega (int_laws, g.moved));
  lands = ap (λ u. u.sp) g.result;
  inside = g.inside;
}
Does-Keeps Basic.cell z s t e = tt
Does-Keeps Basic.write z s t e = tt
Does-Keeps Basic.read z s t e = e.0

pub Tame-Straight : {p : Prog} {s t : Store} → Tame Single p s t → Straight p s t
Tame-Straight ends = Straight.ends
Tame-Straight (acts {b} {z} {p} {s} {m} e x) =
    Straight.acts (Does-act Single b z s m e) (Does-Keeps b z s m e) (Tame-Straight x)
Tame-Straight (skips e x) = Straight.skips e (Tame-Straight x)
Tame-Straight (again v e x y) = Straight.again v e (Tame-Straight x) (Tame-Straight y)
