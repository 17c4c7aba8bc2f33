-- ===== src/X86/Straight.antt =====
-- The runs of a program that both the interpreter of csrc/src/ir_interpret.c and the compiled code can
-- follow: no move wraps around the tape, and no instruction reads more than one byte.
use bfcomp.Prelude.{
  ℕ, zero, suc, ◌+◌, ◌^◌, ◌≡◌, ◌<◌, ◌≤◌, refl, sym, ap, subst, ◌∙◌, inl, inr, List, [], ◌∷◌, ◌++◌,
  some, arith, some_injective, Option-cases, length, length-set, get_elem?, set,
}
use bfcomp.Prelude.Int.{ℤ, pos, pos_part, ◌+ℤ◌}
use bfcomp.Word.{to_u8, to_u8-lt}
use bfcomp.Ir.{OpKind}
use bfcomp.Prog.{Basic, Prog, done, basic, loop, kind_of}
use bfcomp.Interp.{Store, load, act, move, update, repeat, write_byte, read_byte, read_from}
use bfcomp.Interp.Exec.{Exec}
use bfcomp.X86.Steps.{with_cell}
use bfcomp.X86.CallCode.{Under, update-Under, write_byte-Under, repeat-some}

-- A move leads to a cell of the tape without wrapping around, to the one with the index `to`.
pub record Lands (z : ℤ) (s s' : Store) : Type 0 where
  pub to : ℕ
  pub moved : s.sp +ℤ z ≡ pos to
  pub lands : s'.sp ≡ pos to
  pub inside : to < length s.cells

unfoldable pub Keeps : Basic → ℤ → Store → Store → Type 0
Keeps Basic.tape z s s' = Lands z s s'
Keeps Basic.read z s s' = z ≡ pos 1
Keeps _ z s s' = Unit

-- The runs of the structured semantics whose steps are so.
pub data Straight : Prog → Store → Store → Type 0 where
  ends : {s : Store} → Straight done s s
  acts :
      {b : Basic} {z : ℤ} {p : Prog} {s s₁ s₂ : Store}
      → act (kind_of b) z s ≡ some s₁
      → Keeps b z s s₁
      → Straight p s₁ s₂
      → Straight (basic b z p) s s₂
  skips :
      {body p : Prog} {s s₁ : Store}
      → load s ≡ some 0
      → Straight p s s₁
      → Straight (loop body p) s s₁
  again :
      {body p : Prog} {s s₁ s₂ : Store} (v : ℕ)
      → load s ≡ some (suc v)
      → Straight body s s₁
      → Straight (loop body p) s₁ s₂
      → Straight (loop body p) s s₂

pub Straight-Exec : {p : Prog} {s s' : Store} → Straight p s s' → Exec p s s'
Straight-Exec ends = Exec.ends
Straight-Exec (acts e k d) = Exec.acts e (Straight-Exec d)
Straight-Exec (skips e d) = Exec.skips e (Straight-Exec d)
Straight-Exec (again v e d d') = Exec.again v e (Straight-Exec d) (Straight-Exec d')

pub record AreBytes (xs : List ℕ) : Type 0 where
  pub byte : (i v : ℕ) → get_elem? xs i ≡ some v → v < 256

-- A store as it is in memory: `sp` at a cell of a tape that ends below 2^32, and bytes only.
pub record Sound (base : ℕ) (s : Store) : Type 0 where
  pub index : ℕ
  pub here : s.sp ≡ pos index
  pub inside : index < length s.cells
  pub fits : base + length s.cells ≤ 2 ^ 32
  pub cell_bytes : AreBytes s.cells
  pub input_bytes : AreBytes s.input

pub AreBytes-nil : AreBytes []
AreBytes-nil = record { byte = λ i v e. absurd cc }

pub AreBytes-cons : (x : ℕ) (xs : List ℕ) → x < 256 → AreBytes xs → AreBytes (x ∷ xs)
AreBytes-cons x xs lt h = record { byte = by_index }
  where
    by_index : (i w : ℕ) → get_elem? (x ∷ xs) i ≡ some w → w < 256
    by_index zero w e = subst (λ u. u < 256) (some_injective e) lt
    by_index (suc i) w e = h.byte i w e

AreBytes-tail : (x : ℕ) (xs : List ℕ) → AreBytes (x ∷ xs) → AreBytes xs
AreBytes-tail x xs h = record { byte = λ i w e. h.byte (suc i) w e }

AreBytes-set : (xs : List ℕ) (k v : ℕ) → AreBytes xs → v < 256 → AreBytes (set xs k v)
AreBytes-set [] k v h lt = h
AreBytes-set (x ∷ xs) zero v h lt = AreBytes-cons v xs lt (AreBytes-tail x xs h)
AreBytes-set (x ∷ xs) (suc k) v h lt =
    AreBytes-cons x (set xs k v) (h.byte 0 x refl) (AreBytes-set xs k v (AreBytes-tail x xs h) lt)

cell_at : (xs : List ℕ) (i : ℕ) → i < length xs → (v : ℕ) × (get_elem? xs i ≡ some v)
cell_at [] i h = elim h [ ]
cell_at (x ∷ xs) zero h = (x, refl)
cell_at (x ∷ xs) (suc i) h = cell_at xs i (omega arith)

pub repeat_once : (s : Store) → repeat 1 read_byte s ≡ read_byte s
unfolding repeat
repeat_once s = elim (Option-cases (read_byte s)) [
  | inl e ↦ rw (repeat, e)
  | inr (t, e) ↦ rw (repeat, e)
]

module _ (base : ℕ) where
  -- The byte under `sp`.
  pub Sound-Under : (s : Store) (h : Sound base s) → (v : ℕ) × (Under s h.index v × (v < 256))
  Sound-Under s h =
      let (v, e) = cell_at s.cells h.index h.inside in
      (v, (record { here = h.here; found = e }, h.cell_bytes.byte h.index v e))

  Sound-with_cell : (s : Store) (k v : ℕ) → Sound base s → v < 256 → Sound base (with_cell k v s)
  Sound-with_cell s k v h lt = record {
    index = h.index;
    here = h.here;
    inside = omega (arith, length-set s.cells k v, h.inside);
    fits = omega (arith, length-set s.cells k v, h.fits);
    cell_bytes = AreBytes-set s.cells k v h.cell_bytes lt;
    input_bytes = h.input_bytes;
  }

  Sound-output : (s : Store) (o : List ℕ) → Sound base s → Sound base (record s { output = o })
  Sound-output s o h = record {
    index = h.index;
    here = h.here;
    inside = h.inside;
    fits = h.fits;
    cell_bytes = h.cell_bytes;
    input_bytes = h.input_bytes;
  }

  Sound-input :
      (s : Store) (x : ℕ) (xs : List ℕ)
      → s.input ≡ x ∷ xs
      → Sound base s
      → Sound base (record s { input = xs })
  Sound-input s x xs e h = record {
    index = h.index;
    here = h.here;
    inside = h.inside;
    fits = h.fits;
    cell_bytes = h.cell_bytes;
    input_bytes = AreBytes-tail x xs (subst AreBytes e h.input_bytes);
  }

  Sound-move : (z : ℤ) (s : Store) → Sound base s → Lands z s (move z s) → Sound base (move z s)
  unfolding move
  Sound-move z s h l = record {
    index = l.to;
    here = l.lands;
    inside = l.inside;
    fits = h.fits;
    cell_bytes = h.cell_bytes;
    input_bytes = h.input_bytes;
  }

  Sound-update :
      (f : ℕ → ℕ) (s s' : Store)
      → Sound base s
      → ((v : ℕ) → v < 256 → f v < 256)
      → update f s ≡ some s'
      → Sound base s'
  Sound-update f s s' h lt e =
      let (v, (u, b)) = Sound-Under s h in
      subst (Sound base) (some_injective (sym (update-Under f s h.index v u) ∙ e))
        (Sound-with_cell s h.index (f v) h (lt v b))

  Sound-read : (s s' : Store) → Sound base s → read_byte s ≡ some s' → Sound base s'
  unfolding read_byte read_from
  Sound-read s s' h e = by_input s.input refl
    where
      by_input : (i : List ℕ) → s.input ≡ i → Sound base s'
      by_input [] q = Sound-update (λ v. v) s s' h (λ v b. b) (sym (ap (λ i. read_from i s) q) ∙ e)
      by_input (x ∷ xs) q =
          Sound-update (λ _. x) (record s { input = xs }) s' (Sound-input s x xs q h)
            (λ v b. h.input_bytes.byte 0 x (ap (λ t. get_elem? t 0) q))
            (sym (ap (λ i. read_from i s) q) ∙ e)

  Sound-writes :
      (n : ℕ) (s s' : Store) → Sound base s → repeat n write_byte s ≡ some s' → Sound base s'
  unfolding repeat
  Sound-writes zero s s' h e = subst (Sound base) (some_injective e) h
  Sound-writes (suc n) s s' h e =
      let (v, (u, b)) = Sound-Under s h in
      Sound-writes n (record s { output = s.output ++ v ∷ [] }) s' (Sound-output s _ h)
        (sym (repeat-some n write_byte s (write_byte-Under s h.index v u)) ∙ e)

  pub Keeps-Sound :
      (b : Basic) (z : ℤ) (s s' : Store)
      → Sound base s
      → act (kind_of b) z s ≡ some s'
      → Keeps b z s s'
      → Sound base s'
  unfolding act Keeps
  Keeps-Sound Basic.tape z s s' h e k =
      subst (Sound base) (some_injective e)
        (Sound-move z s h (subst (Lands z s) (sym (some_injective e)) k))
  Keeps-Sound Basic.cell z s s' h e k =
      Sound-update (λ v. to_u8 (pos v +ℤ z)) s s' h (λ v b. to_u8-lt (pos v +ℤ z)) e
  Keeps-Sound Basic.write z s s' h e k = Sound-writes (pos_part z) s s' h e
  Keeps-Sound Basic.read z s s' h e k =
      Sound-read s s' h (sym (repeat_once s) ∙ sym (ap (λ z. act OpKind.read z s) k) ∙ e)

  pub Straight-Sound : {p : Prog} {s s' : Store} → Straight p s s' → Sound base s → Sound base s'
  Straight-Sound ends h = h
  Straight-Sound (acts {b} {z} {s} {s₁} e k d) h = Straight-Sound d (Keeps-Sound b z s s₁ h e k)
  Straight-Sound (skips e d) h = Straight-Sound d h
  Straight-Sound (again v e d d') h = Straight-Sound d' (Straight-Sound d h)
