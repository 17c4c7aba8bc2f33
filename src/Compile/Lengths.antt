-- ===== src/Compile/Lengths.antt =====
-- How long the code of csrc/src/ir_compile.c is.
use bfcomp.Prelude.{
  ℕ, zero, suc, ◌+◌, ◌*◌, ◌≤◌, ◌≡◌, refl, ap, ◌∙◌, List, [], ◌∷◌, ◌++◌, some, Bool, true, false,
  Bool-cases, inl, inr, length, length-append, arith, if◌then◌else◌, leb,
}
use bfcomp.Prelude.Int.{ℤ, pos, negsuc, pos_part, ltb_ℤ, ◌-ℤ◌}
use bfcomp.Word.{to_u8, to_u32, to_i32, neg}
use bfcomp.Prog.{Basic, Prog, done, basic, loop, kind_of, flatten}
use bfcomp.Emit.{
  Emitted, Mode, reg_indirect, reg_direct, ok, operand_size, too_big, emit_indirect, emit_direct,
  emit_other, emit_step, emit_add_sub, eq_ℤ, emit_code_write, emit_code_read, emit_transfer,
  emit_writes, emit_op, emit_code_loop_start, emit_code_loop_end, emit_jump_back, emit_cmp,
  push_int32, const_arg, le_bytes, sys_read, sys_write, int8_min, int8_max,
}
use bfcomp.Compile.Gen.{gen}
use bfcomp.Compile.Append.{loop_bytes, writes-append}
use bfcomp.Compile.Parts.{gen-BasicCode, gen-LoopCode, push_bytes, exit_bytes, compiled-WholeCode}
use bfcomp.Prog.Placed.{Holds}
use bfcomp.Ir.{Ctx}
use bfcomp.Compile.{ir_ctx_compile}
use bfcomp.Prog.Weight.{size_ℤ, weight, weight-basic, weight-loop}

indirect_length : (z : ℤ) → length (emit_indirect z []) ≤ 8
unfolding emit_indirect push_int32
indirect_length z = elim (Bool-cases (ltb_ℤ (pos 0) z)) [
  | inl e ↦ elim (Bool-cases (ltb_ℤ int8_max z)) [
    | inl e' ↦ rw (e, e') (omega arith)
    | inr e' ↦ rw (e, e') (omega arith)
  ]
  | inr e ↦ elim (Bool-cases (ltb_ℤ int8_max (neg z))) [
    | inl e' ↦ rw (e, e') (omega arith)
    | inr e' ↦ rw (e, e') (omega arith)
  ]
]

direct_length : (z : ℤ) → length (emit_direct z []) ≤ 8
unfolding emit_direct push_int32
direct_length z = elim (Bool-cases (ltb_ℤ (pos 0) z)) [
  | inl e ↦ elim (Bool-cases (ltb_ℤ int8_max z)) [
    | inl e' ↦ rw (e, e') (omega arith)
    | inr e' ↦ rw (e, e') (omega arith)
  ]
  | inr e ↦ elim (Bool-cases (ltb_ℤ int8_max (neg z))) [
    | inl e' ↦ rw (e, e') (omega arith)
    | inr e' ↦ rw (e, e') (omega arith)
  ]
]

if-length :
    (b : Bool) (x y : Emitted) (n : ℕ)
    → length x.1 ≤ n
    → length y.1 ≤ n
    → length (if b then x else y).1 ≤ n
if-length true x y n h k = h
if-length false x y n h k = k

add_sub_length :
    (m : Mode) (z : ℤ)
    → ((n : ℕ) → length (emit_step m n []).1 ≤ 8)
    → length (emit_other m z []).1 ≤ 8
    → length (emit_add_sub m z []).1 ≤ 8
unfolding emit_add_sub
add_sub_length m z step other =
    let last =
      if-length (eq_ℤ z (negsuc 0)) (emit_step m 1 []) (emit_other m z []) 8 (step 1) other in
    let up =
      if-length (eq_ℤ z (pos 1)) (emit_step m 0 [])
        (if eq_ℤ z (negsuc 0) then emit_step m 1 [] else emit_other m z []) 8 (step 0) last in
    let small = if-length (too_big z) (operand_size, []) _ 8 (omega arith) up in
    if-length (eq_ℤ z (pos 0)) (ok, []) _ 8 (omega arith) small

step_length :
    (n : ℕ)
    → (length (emit_step reg_direct n []).1 ≤ 8) × (length (emit_step reg_indirect n []).1 ≤ 8)
unfolding emit_step
step_length n = (omega arith, omega arith)

other_length :
    (z : ℤ)
    → (length (emit_other reg_direct z []).1 ≤ 8) × (length (emit_other reg_indirect z []).1 ≤ 8)
unfolding emit_other
other_length z = (direct_length z, indirect_length z)

transfer_length : (number fd : ℕ) → length (emit_transfer number fd []) ≡ 19
unfolding emit_transfer const_arg push_int32
transfer_length number fd = refl

writes_length : (n : ℕ) → length (emit_writes n []) ≡ 19 * n
unfolding emit_writes
writes_length zero = refl
writes_length (suc n) =
    ap length (writes-append n (emit_transfer sys_write 1 []))
    ∙ omega (
      arith,
      length-append (emit_transfer sys_write 1 []) (emit_writes n []),
      writes_length n,
      transfer_length sys_write 1,
    )

basic_length : (b : Basic) (z : ℤ) → length (emit_op (kind_of b) 0 z []).1 ≤ 19 * (1 + size_ℤ z)
unfolding emit_op emit_code_write emit_code_read
basic_length Basic.tape z =
    omega (arith, add_sub_length reg_direct z (λ n. (step_length n).0) (other_length z).0)
basic_length Basic.cell z =
    omega (arith, add_sub_length reg_indirect z (λ n. (step_length n).1) (other_length z).1)
basic_length Basic.write z =
    if-length (too_big z) (operand_size, []) (ok, emit_writes (pos_part z) []) (19 * (1 + size_ℤ z))
      (omega arith) (omega (arith, writes_length (pos_part z)))
basic_length Basic.read z =
    if-length (too_big z) (operand_size, []) (ok, emit_transfer sys_read 0 []) (19 * (1 + size_ℤ z))
      (omega arith) (omega (arith, transfer_length sys_read 0))

jump_back_length : (z : ℤ) (c : List ℕ) → length (emit_jump_back z c) ≤ length c + 6
unfolding emit_jump_back push_int32
jump_back_length z c = elim (Bool-cases (ltb_ℤ z int8_min)) [
  | inl e ↦ rw e (
      omega (
        arith,
        length-append (c ++ 0x0F ∷ 0x85 ∷ []) (le_bytes (to_u32 (z -ℤ pos 4))),
        length-append c (0x0F ∷ 0x85 ∷ []),
      ))
  | inr e ↦ rw e (omega (arith, length-append c (0x75 ∷ to_u8 z ∷ [])))
]

loop_start_length : (n : ℕ) → length (emit_code_loop_start n []) ≤ 9
unfolding emit_code_loop_start emit_cmp push_int32
loop_start_length n = elim (Bool-cases (leb (n + 2) 127)) [
  | inl e ↦ rw e (omega arith)
  | inr e ↦ rw e (omega arith)
]

loop_length : (inside : List ℕ) → length (loop_bytes inside) ≤ length inside + 18
unfolding loop_bytes emit_code_loop_end emit_cmp
loop_length inside = omega (
  arith,
  length-append (emit_code_loop_start (length (emit_code_loop_end inside)) [])
      (emit_code_loop_end inside),
  loop_start_length (length (emit_code_loop_end inside)),
  jump_back_length (to_i32 (neg (pos (length (inside ++ 0x80 ∷ 0x3F ∷ 0 ∷ []) + 2))))
      (inside ++ 0x80 ∷ 0x3F ∷ 0 ∷ []),
  length-append inside (0x80 ∷ 0x3F ∷ 0 ∷ []),
)

-- The code of a program has at most 19 bytes for each unit of the measure.
length-gen :
    (p : Prog) (bytes : List ℕ) → gen p [] ≡ (ok, bytes) → length bytes ≤ 19 * weight (flatten p)
unfolding gen
length-gen done bytes e = omega (arith, ap (λ x. length x.1) e)
length-gen (basic b z p) bytes e =
    let c = gen-BasicCode b z p bytes e in
    omega (
      arith,
      ap length c.whole,
      length-append c.first c.rest,
      length-gen p c.rest c.gens,
      basic_length b z,
      ap (λ x. length x.1) c.emits,
      weight-basic b z p,
    )
length-gen (loop body p) bytes e =
    let c = gen-LoopCode body p bytes e in
    omega (
      arith,
      ap length c.whole,
      length-append (loop_bytes c.inside) c.rest,
      loop_length c.inside,
      length-gen body c.inside c.gens_inside,
      length-gen p c.rest c.gens,
      weight-loop body p,
    )

-- With the layout of a well-nested program as its instructions, fewer than 2^63 with the halt, and fuel
-- for two more of them: code that the compiler makes without an error is as long as the code before it,
-- and 14 bytes, and at most 19 for each instruction and each unit in the absolute value of an argument
-- that is no jump.
pub ir_ctx_compile-length :
    (c : Ctx) (p : Prog) (f : ℕ) (before code : List ℕ)
    → Holds c p
    → length c.code + 2 ≤ f
    → ir_ctx_compile f c before ≡ some (ok, code)
    → length code ≤ length before + 14 + 19 * weight c.code
ir_ctx_compile-length c p f before code h lt e =
    let w = compiled-WholeCode c p f before code h lt e in
    omega (
      arith,
      ap length w.whole,
      length-append before (push_bytes ++ (w.inside ++ exit_bytes)),
      length-append w.inside exit_bytes,
      length-gen p w.inside w.gens,
      ap weight h.layout,
    )
