-- ===== src/Compile/Reports.antt =====
-- The messages of csrc/src/ir_compile.c about a well-nested program.
use bfcomp.Prelude.{
  ℕ, zero, suc, ◌+◌, ◌≤◌, ◌<◌, ◌≡◌, refl, sym, ap, ◌∙◌, inl, inr, true, false, List, [], ◌∷◌, ◌++◌,
  some, arith, Bool-cases, length, length-append, get_elem?,
}
use native.Mathlib.Nat.{zero-add}
use bfcomp.Prelude.Int.{pos}
use bfcomp.Ir.{OpKind, Op, op, Ctx}
use bfcomp.Prog.{Prog, done, basic, loop, flatten}
use bfcomp.Prog.Placed.{
  HasAt, HasAt-start, get_elem?-append_right, get_elem?-past, Holds, IsShort, next-at, behind,
  behind-done, behind-basic, behind-loop, basic-here, parts,
}
use bfcomp.Emit.{too_big, emit_op, emit_code_exit}
use bfcomp.Compile.Gen.{gen}
use bfcomp.Compile.Errors.{fits}
use bfcomp.Compile.Messages.{messages_after, messages_from, ir_ctx_compile_messages}
use bfcomp.Compile.Rounds.{report, Reports, Reports-basic, Reports-loop}

module _ (code : List Op) (short : IsShort code) where
  messages-flatten :
      (p : Prog) (f i : ℕ)
      → HasAt code i (flatten p)
      → length (flatten p) < f
      → Reports code short f i p
  messages-flatten done f i h lt = record {
    left = f;
    enough = omega arith;
    says = λ c. unfold gen fits in rw behind-done;
  }
  messages-flatten p zero i h lt = absurd (omega arith)
  messages-flatten (basic b z p) (suc f) i h lt =
      let (first, rest) = basic-here code i b z p h in
      Reports-basic code short f i b z p h
        (messages-flatten p f (suc i) rest (omega (arith, behind-basic i b z p)))
  messages-flatten (loop body p) (suc f) i h lt =
      let hp = parts code i body p h in
      Reports-loop code short f i body p h
        (messages-flatten body f (suc i) hp.1 (omega (arith, behind-loop code i body p h)))
        (messages-flatten p f _ hp.3 (omega (arith, behind-loop code i body p h)))
        (omega (arith, behind-loop code i body p h))

  messages-end : (f i : ℕ) (c : List ℕ) → length code ≤ i → messages_from f code i c ≡ []
  unfolding messages_from
  messages-end zero i c h = refl
  messages-end (suc f) i c h = rw (messages_from, get_elem?-past code i h)

  messages-halt :
      (f i : ℕ) (c : List ℕ)
      → get_elem? code i ≡ some (op OpKind.max (pos 0))
      → length code ≤ suc i
      → messages_from f code i c ≡ []
  unfolding messages_from messages_after emit_op emit_code_exit too_big
  messages-halt zero i c h h' = refl
  messages-halt (suc f) i c h h' =
      rw (messages_from, h, next-at code short i _ h) (messages-end f (suc i) _ h')

report-fits : (p : Prog) → fits p ≡ true → report p ≡ []
unfolding report fits
report-fits done h = refl
report-fits (basic b z p) h = elim (Bool-cases (too_big z)) [
  | inl e ↦ absurd (let w : false ≡ true = (rw e at h) in cc)
  | inr e ↦ rw e (report-fits p (rw e at h))
]
report-fits (loop body p) h = elim (Bool-cases (fits body)) [
  | inl e ↦ rw e (report-fits p (rw e at h))
  | inr e ↦ absurd (let w : false ≡ true = (rw e at h) in cc)
]

-- With the layout of a well-nested program as its instructions, fewer than 2^63 with the halt, and fuel
-- for two more of them, the compiler writes nothing to the standard error if the arguments of all
-- instructions that are no jumps are numbers of 32 bits; if not, it writes a message for the first
-- that is not, and then one for each loop around it, from the inside out.
pub ir_ctx_compile_messages-report :
    (c : Ctx) (p : Prog) (f : ℕ) (bytes : List ℕ)
    → Holds c p
    → length c.code + 2 ≤ f
    → ir_ctx_compile_messages f c bytes ≡ report p
unfolding ir_ctx_compile_messages
ir_ctx_compile_messages-report c p f bytes h lt = r.says _ ∙ elim (Bool-cases (fits p)) [
  | inl e ↦ rw e (
      messages-halt code short r.left (behind 0 p) _ halt_here (omega (arith, size))
      ∙ sym (report-fits p e))
  | inr e ↦ rw e
]
  where
    code : List Op
    code = c.code ++ op OpKind.max (pos 0) ∷ []

    size : length code ≡ length (flatten p) + 1
    size = rw h.layout (length-append (flatten p) _)

    short : IsShort code
    short = omega (arith, size, ap length h.layout, h.fits)

    r : Reports code short f 0 p
    r =
        messages-flatten code short p f 0 (rw h.layout (HasAt-start (flatten p) _))
          (omega (arith, ap length h.layout))

    halt_here : get_elem? code (behind 0 p) ≡ some (op OpKind.max (pos 0))
    halt_here = rw (h.layout, zero-add) (get_elem?-append_right (flatten p) _ [])
