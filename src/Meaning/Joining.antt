-- ===== src/Meaning/Joining.antt =====
-- The steps that the parser of csrc/src/ir_gen.c joins with the last instruction, in runs in which no
-- move wraps around the tape.
use bfcomp.Prelude.{ℕ, ◌+◌, ◌^◌, ◌≡◌, ◌<◌, refl, sym, ap, subst, ◌∙◌, some, arith, length}
use bfcomp.Prelude.Int.{ℤ, pos, negsuc, pos_part, neg_part, ◌+ℤ◌, int_laws}
use bfcomp.Word.{to_i64, IsI64, to_i64-eq_of_IsI64}
use bfcomp.Ir.{OpKind}
use bfcomp.Prog.{Basic, Prog, done, basic, loop, join_last}
use bfcomp.Interp.{Store, act}
use bfcomp.Interp.Cells.{then_act, act-cell_joined}
use bfcomp.Meaning.Tame.{Goes, Does, Tame, ends, acts, skips, again}

-- What leads from one cell to another fits.
pub short-IsI64 :
    (w : ℤ) (i j : ℕ) → i + pos_part w ≡ j + neg_part w → i < 2 ^ 61 → j < 2 ^ 61 → IsI64 w
short-IsI64 (pos n) i j e h k = (omega arith, omega arith)
short-IsI64 (negsuc n) i j e h k = (omega arith, omega arith)

same_cells : (z : ℤ) (s m : Store) → Goes z s m → length m.cells ≡ length s.cells
same_cells z s m g = ap (λ u. length u.cells) g.result

-- Two moves that stay on the tape are one.
Goes-joined : (z d : ℤ) (s m t : Store) → Goes z s m → Goes d m t → Goes (to_i64 (z +ℤ d)) s t
Goes-joined z d s m t g h =
    let met : g.to ≡ h.from =
      omega (arith, ap (λ u. pos_part u.sp) g.result, ap pos_part h.starts) in
    let far : h.to < length s.cells = omega (arith, h.inside, same_cells z s m g) in
    let whole : g.from + pos_part (z +ℤ d) ≡ h.to + neg_part (z +ℤ d) =
      omega (int_laws, g.moved, h.moved, met) in
    let one : to_i64 (z +ℤ d) ≡ z +ℤ d = to_i64-eq_of_IsI64 (z +ℤ d) (
      short-IsI64 (z +ℤ d) g.from h.to whole (omega (arith, g.begins, g.small))
        (omega (arith, far, g.small))) in
    record {
      from = g.from;
      to = h.to;
      starts = g.starts;
      moved = subst (λ w. g.from + pos_part w ≡ h.to + neg_part w) (sym one) whole;
      begins = g.begins;
      inside = far;
      small = g.small;
      result = h.result ∙ ap {A = Store} (λ u. record u { sp = pos h.to }) g.result;
    }

cell_joined :
    (z d : ℤ) (s m t : Store)
    → to_i64 d ≡ d
    → act OpKind.cell z s ≡ some m
    → act OpKind.cell d m ≡ some t
    → act OpKind.cell (to_i64 (z +ℤ d)) s ≡ some t
cell_joined z d s m t q e e' =
    sym (act-cell_joined z d s)
    ∙ ap (λ o. then_act o (act OpKind.cell (to_i64 d))) e
    ∙ ap (λ u. act OpKind.cell u m) q
    ∙ e'

-- The kinds of step that are joined.
unfoldable pub Joinable : Basic → Type 0
Joinable Basic.tape = Unit
Joinable Basic.cell = Unit
Joinable _ = ⊥

module _ (Reads : ℤ → Type 0) where
  pub Does-joined :
      (b : Basic) (z d : ℤ) (s m t : Store)
      → Joinable b
      → to_i64 d ≡ d
      → Does Reads b z s m
      → Does Reads b d m t
      → Does Reads b (to_i64 (z +ℤ d)) s t
  unfolding Does Joinable
  Does-joined Basic.tape z d s m t j q g h = Goes-joined z d s m t g h
  Does-joined Basic.cell z d s m t j q e e' = cell_joined z d s m t q e e'
  Does-joined Basic.write z d s m t j q e e' = absurd j
  Does-joined Basic.read z d s m t j q e e' = absurd j

  Tame-first :
      (b : Basic) (z : ℤ) (p : Prog) (s t : Store)
      → Tame Reads (basic b z p) s t
      → (m : Store) × Does Reads b z s m × Tame Reads p m t
  Tame-first b z p s t (acts {m} e x) = (m, e, x)

  Tame-done : (s t : Store) → Tame Reads done s t → s ≡ t
  Tame-done s t ends = refl

  behind_loop :
      (body p q : Prog) (m t : Store)
      → ((s : Store) → Tame Reads p s m → Tame Reads q s t)
      → (s : Store) → Tame Reads (loop body p) s m
      → Tame Reads (loop body q) s t
  behind_loop body p q m t h s (skips e x) = skips e (h s x)
  behind_loop body p q m t h s (again {m = s'} v e x y) =
      again v e x (behind_loop body p q m t h s' y)

  module _ (d : ℤ) (q : to_i64 d ≡ d) where
    -- The step behind a program, as an instruction of its own.
    own : (b : Basic) (m t : Store) → Does Reads b d m t → Tame Reads (basic b (to_i64 d) done) m t
    own b m t e = acts (subst (λ u. Does Reads b u m t) (sym q) e) ends

    last_joined :
        (b b' : Basic) (z : ℤ) (s m t : Store)
        → Joinable b
        → Does Reads b' z s m
        → Does Reads b d m t
        → Tame Reads (join_last b d (basic b' z done)) s t
    unfolding join_last Joinable
    last_joined Basic.tape Basic.tape z s m t j e e' =
        acts (Does-joined Basic.tape z d s m t tt q e e') ends
    last_joined Basic.cell Basic.cell z s m t j e e' =
        acts (Does-joined Basic.cell z d s m t tt q e e') ends
    last_joined Basic.tape Basic.cell z s m t j e e' = acts e (own Basic.tape m t e')
    last_joined Basic.tape Basic.write z s m t j e e' = acts e (own Basic.tape m t e')
    last_joined Basic.tape Basic.read z s m t j e e' = acts e (own Basic.tape m t e')
    last_joined Basic.cell Basic.tape z s m t j e e' = acts e (own Basic.cell m t e')
    last_joined Basic.cell Basic.write z s m t j e e' = acts e (own Basic.cell m t e')
    last_joined Basic.cell Basic.read z s m t j e e' = acts e (own Basic.cell m t e')
    last_joined Basic.write b' z s m t j e e' = absurd j
    last_joined Basic.read b' z s m t j e e' = absurd j

    -- A run, and a step behind it, are a run of the program with the step joined.
    pub Tame-join_last :
        (b : Basic) (p : Prog) (s m t : Store)
        → Joinable b
        → Tame Reads p s m
        → Does Reads b d m t
        → Tame Reads (join_last b d p) s t
    unfolding join_last
    Tame-join_last b done s m t j x e =
        own b s t (subst (λ u. Does Reads b d u t) (sym (Tame-done s m x)) e)
    Tame-join_last b (basic b' z done) s m t j x e =
        let (s', e', y) = Tame-first b' z done s m x in
        last_joined b b' z s m t j (subst (λ u. Does Reads b' z s u) (Tame-done s' m y) e') e
    Tame-join_last b (basic b' z (basic b'' z' p)) s m t j x e =
        let (s', e', y) = Tame-first b' z (basic b'' z' p) s m x in
        acts e' (Tame-join_last b (basic b'' z' p) s' m t j y e)
    Tame-join_last b (basic b' z (loop body p)) s m t j x e =
        let (s', e', y) = Tame-first b' z (loop body p) s m x in
        acts e' (Tame-join_last b (loop body p) s' m t j y e)
    Tame-join_last b (loop body p) s m t j x e =
        behind_loop body p (join_last b d p) m t (λ s y. Tame-join_last b p s m t j y e) s x
