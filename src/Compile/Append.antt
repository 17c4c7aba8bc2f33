-- ===== src/Compile/Append.antt =====
-- The functions of csrc/src/ir_compile.c add their code behind what the context holds, and their code
-- does not depend on that.
use bfcomp.Prelude.{
  ℕ, zero, suc, ◌≡◌, ◌+◌, leb, refl, sym, ap, ◌∙◌, List, [], ◌++◌, Bool, true, false, Bool-cases,
  inl, inr, length, if◌then◌else◌,
}
use mathlib.Core.List.{append_assoc, append-nil}
use bfcomp.Prelude.Int.{ℤ, pos, negsuc, pos_part, ltb_ℤ}
use bfcomp.Word.{neg}
use bfcomp.Prog.{Basic, Prog, done, basic, loop, kind_of}
use bfcomp.Emit.{
  CompileResult, Emitted, Mode, reg_indirect, reg_direct, sib_1, sib_2, ok, illegal_state,
  operand_size, push_int32, too_big, emit_indirect, emit_direct, emit_other, emit_step,
  emit_add_sub, eq_ℤ, emit_cmp, emit_code_loop_start, const_arg, emit_transfer, emit_writes,
  emit_code_write, emit_code_read, emit_op, emit_code_loop_end, int8_max, sys_write, sys_read,
}
use bfcomp.Compile.{is_ok}
use bfcomp.Compile.Gen.{and_then, gen}

abbrev AppendsBytes : (List ℕ → List ℕ) → Type 0
AppendsBytes f = (c : List ℕ) → f c ≡ c ++ f []

abbrev Appends : (List ℕ → Emitted) → Type 0
Appends f = (c : List ℕ) → f c ≡ ((f []).0, c ++ (f []).1)

emit_indirect-append : (z : ℤ) → AppendsBytes (emit_indirect z)
unfolding emit_indirect push_int32
emit_indirect-append z c = elim (Bool-cases (ltb_ℤ (pos 0) z)) [
  | inl e ↦ elim (Bool-cases (ltb_ℤ int8_max z)) [
    | inl e' ↦ rw (e, e') (simp append_assoc)
    | inr e' ↦ rw (e, e')
  ]
  | inr e ↦ elim (Bool-cases (ltb_ℤ int8_max (neg z))) [
    | inl e' ↦ rw (e, e') (simp append_assoc)
    | inr e' ↦ rw (e, e')
  ]
]

emit_direct-append : (z : ℤ) → AppendsBytes (emit_direct z)
unfolding emit_direct push_int32
emit_direct-append z c = elim (Bool-cases (ltb_ℤ (pos 0) z)) [
  | inl e ↦ elim (Bool-cases (ltb_ℤ int8_max z)) [
    | inl e' ↦ rw (e, e') (simp append_assoc)
    | inr e' ↦ rw (e, e')
  ]
  | inr e ↦ elim (Bool-cases (ltb_ℤ int8_max (neg z))) [
    | inl e' ↦ rw (e, e') (simp append_assoc)
    | inr e' ↦ rw (e, e')
  ]
]

emit_other-append : (m : Mode) (z : ℤ) → Appends (emit_other m z)
unfolding emit_other
emit_other-append reg_indirect z c = ap (λ t. (ok, t)) (emit_indirect-append z c)
emit_other-append reg_direct z c = ap (λ t. (ok, t)) (emit_direct-append z c)
emit_other-append sib_1 z c = ap (λ t. (illegal_state, t)) (sym (append-nil c))
emit_other-append sib_2 z c = ap (λ t. (illegal_state, t)) (sym (append-nil c))

emit_step-append : (m : Mode) (n : ℕ) → Appends (emit_step m n)
unfolding emit_step
emit_step-append reg_indirect n c = refl
emit_step-append reg_direct n c = refl
emit_step-append sib_1 n c = refl
emit_step-append sib_2 n c = refl

Appends-if :
    (b : Bool) (f g : List ℕ → Emitted)
    → Appends f
    → Appends g
    → (c : List ℕ)
    → (if b then f c else g c) ≡ ((if b then f [] else g []).0, c ++ (if b then f [] else g []).1)
Appends-if true f g h k c = h c
Appends-if false f g h k c = k c

stop-append : (e : CompileResult) → Appends (λ c. (e, c))
stop-append e c = ap (λ t. (e, t)) (sym (append-nil c))

emit_add_sub-append : (m : Mode) (z : ℤ) → Appends (emit_add_sub m z)
unfolding emit_add_sub
emit_add_sub-append m z =
    Appends-if (eq_ℤ z (pos 0)) (λ c. (ok, c)) _ (stop-append ok)
      (Appends-if (too_big z) (λ c. (operand_size, c)) _ (stop-append operand_size)
        (Appends-if (eq_ℤ z (pos 1)) (emit_step m 0) _ (emit_step-append m 0) (
          Appends-if (eq_ℤ z (negsuc 0)) (emit_step m 1) (emit_other m z) (emit_step-append m 1)
            (emit_other-append m z))))

transfer-append : (number fd : ℕ) → AppendsBytes (emit_transfer number fd)
unfolding emit_transfer const_arg push_int32
transfer-append number fd c = simp append_assoc

pub writes-append : (n : ℕ) → AppendsBytes (emit_writes n)
unfolding emit_writes
writes-append zero c = sym (append-nil c)
writes-append (suc n) c =
    ap (emit_writes n) (transfer-append sys_write 1 c)
    ∙ writes-append n (c ++ emit_transfer sys_write 1 [])
    ∙ append_assoc c (emit_transfer sys_write 1 []) (emit_writes n [])
    ∙ ap (λ t. c ++ t) (sym (writes-append n (emit_transfer sys_write 1 [])))

loop_start-append : (n : ℕ) → AppendsBytes (emit_code_loop_start n)
unfolding emit_code_loop_start emit_cmp push_int32
loop_start-append n c = elim (Bool-cases (leb (n + 2) 127)) [
  | inl e ↦ rw e (simp append_assoc)
  | inr e ↦ rw e (simp append_assoc)
]

pub emit_op-append : (b : Basic) (z : ℤ) → Appends (emit_op (kind_of b) 0 z)
unfolding emit_op emit_code_write emit_code_read
emit_op-append Basic.tape z = emit_add_sub-append reg_direct z
emit_op-append Basic.cell z = emit_add_sub-append reg_indirect z
emit_op-append Basic.write z =
    Appends-if (too_big z) (λ c. (operand_size, c)) (λ c. (ok, emit_writes (pos_part z) c))
      (stop-append operand_size) (λ c. ap (λ t. (ok, t)) (writes-append (pos_part z) c))
emit_op-append Basic.read z =
    Appends-if (too_big z) (λ c. (operand_size, c)) (λ c. (ok, emit_transfer sys_read 0 c))
      (stop-append operand_size) (λ c. ap (λ t. (ok, t)) (transfer-append sys_read 0 c))

-- Code behind code.
Appends-behind :
    (g : List ℕ → Emitted) → Appends g → (c d : List ℕ) → g (c ++ d) ≡ ((g d).0, c ++ (g d).1)
Appends-behind g h c d =
    h (c ++ d)
    ∙ ap (λ t. ((g []).0, t)) (append_assoc c d (g []).1)
    ∙ ap (λ e. (e.0, c ++ e.1)) (sym (h d))

and_then-Appends :
    (e : Emitted) (g : List ℕ → Emitted)
    → Appends g
    → (c : List ℕ)
    → and_then (e.0, c ++ e.1) (λ e. e) g
      ≡ ((and_then e (λ e. e) g).0, c ++ (and_then e (λ e. e) g).1)
and_then-Appends (err, d) g h c = elim (Bool-cases (is_ok err)) [
  | inl e ↦ rw (e, and_then) (Appends-behind g h c d)
  | inr e ↦ rw (e, and_then)
]

inside-Appends :
    (e : Emitted) (g : List ℕ → List ℕ → Emitted)
    → ((b : List ℕ) → Appends (g b))
    → (c : List ℕ)
    → and_then e (λ e. (e.0, c)) (λ b. g b c) ≡ (
      (and_then e (λ e. (e.0, [])) (λ b. g b [])).0,
      c ++ (and_then e (λ e. (e.0, [])) (λ b. g b [])).1,
    )
inside-Appends (err, d) g h c = elim (Bool-cases (is_ok err)) [
  | inl e ↦ rw (e, and_then) (h d c)
  | inr e ↦ rw (e, and_then) (stop-append err c)
]

-- The code of a loop, whose inside is known, and of what follows it.
unfoldable pub loop_bytes : List ℕ → List ℕ
loop_bytes inside =
    let loop_code = emit_code_loop_end inside in
    emit_code_loop_start (length loop_code) [] ++ loop_code

abbrev pub loop_then : (List ℕ → Emitted) → List ℕ → List ℕ → Emitted
loop_then g inside c =
    let loop_code = emit_code_loop_end inside in
    g (emit_code_loop_start (length loop_code) c ++ loop_code)

pub loop_then-bytes :
    (g : List ℕ → Emitted) (inside c : List ℕ) → loop_then g inside c ≡ g (c ++ loop_bytes inside)
unfolding loop_bytes
loop_then-bytes g inside c = ap g (
    ap (λ t. t ++ emit_code_loop_end inside)
      (loop_start-append (length (emit_code_loop_end inside)) c)
    ∙ append_assoc c _ (emit_code_loop_end inside))

loop_then-Appends :
    (g : List ℕ → Emitted) → Appends g → (inside : List ℕ) → Appends (loop_then g inside)
loop_then-Appends g h inside c =
    loop_then-bytes g inside c
    ∙ Appends-behind g h c (loop_bytes inside)
    ∙ ap (λ e. (e.0, c ++ e.1)) (sym (loop_then-bytes g inside []))

pub gen-append : (p : Prog) → Appends (gen p)
unfolding gen
gen-append done c = stop-append ok c
gen-append (basic b z p) c =
    ap (λ e. and_then e (λ e. e) (gen p)) (emit_op-append b z c)
    ∙ and_then-Appends (emit_op (kind_of b) 0 z []) (gen p) (gen-append p) c
gen-append (loop body p) c =
    inside-Appends (gen body []) (λ inside c. loop_then (gen p) inside c)
      (loop_then-Appends (gen p) (gen-append p)) c
