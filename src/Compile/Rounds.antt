-- ===== src/Compile/Rounds.antt =====
-- The messages of csrc/src/ir_compile.c about single instructions and loops.
use bfcomp.Prelude.{
  ℕ, zero, suc, ◌+◌, ◌≤◌, ◌<◌, ◌≡◌, refl, sym, ap, ap₂, ◌∙◌, inl, inr, Bool, true, false, List, [],
  ◌++◌, some, arith, Bool-cases, length, get_elem?, if◌then◌else◌,
}
use bfcomp.Prelude.Int.{ℤ}
use bfcomp.Ir.{OpKind, Op, op}
use bfcomp.Prog.{Basic, Prog, done, basic, loop, kind_of, jump, flatten}
use bfcomp.Prog.Placed.{
  HasAt, IsShort, next-at, behind, behind-basic, behind-loop, basic-here, parts, next-over,
}
use bfcomp.Emit.{
  CompileResult, ok, operand_size, malformed_loop, illegal_state, Emitted, too_big, emit_op,
  emit_code_loop_start, emit_code_loop_end,
}
use bfcomp.Compile.{is_ok, compile_from}
use bfcomp.Compile.Gen.{and_then, gen}
use bfcomp.Compile.Loops.{compile-flatten, inside_code, not_start, emit_op-index}
use bfcomp.Compile.Errors.{fits, outcome, op-Returns, gen-Returns}
use bfcomp.Compile.Messages.{error_text, messages_after, messages_behind, messages_from}

-- What is written about a program whose arguments do not all fit: a message for the first that does
-- not, and one for each loop around it, from the inside out.
unfoldable pub report : Prog → List ℕ
report done = []
report (basic b z p) = if too_big z then error_text (kind_of b) z operand_size else report p
report (loop body p) =
    if fits body
    then report p
    else report body ++ error_text OpKind.loop_start (jump (length (flatten body))) operand_size

after-basic :
    (b : Basic) (z : ℤ) (err : CompileResult) (rest : List ℕ)
    → messages_after (kind_of b) z err rest
      ≡ (if is_ok err then rest else error_text (kind_of b) z err)
unfolding messages_after
after-basic Basic.tape z err rest = ground arith
after-basic Basic.cell z err rest = ground arith
after-basic Basic.write z err rest = ground arith
after-basic Basic.read z err rest = ground arith

and_then-goes {ℓ} :
    {A : Type ℓ} (e : Emitted) (stop : Emitted → A) (g : List ℕ → A)
    → e.0 ≡ ok
    → and_then e stop g ≡ g e.1
and_then-goes (ok, c) stop g h = refl
and_then-goes (operand_size, c) stop g h = absurd cc
and_then-goes (malformed_loop, c) stop g h = absurd cc
and_then-goes (illegal_state, c) stop g h = absurd cc

module _ (code : List Op) (short : IsShort code) where
  messages-basic :
      (f i : ℕ) (b : Basic) (z : ℤ) (c : List ℕ)
      → get_elem? code i ≡ some (op (kind_of b) z)
      → messages_from (suc f) code i c ≡ (
          if is_ok (emit_op (kind_of b) 0 z c).0
          then messages_from f code (suc i) (emit_op (kind_of b) 0 z c).1
          else error_text (kind_of b) z (emit_op (kind_of b) 0 z c).0)
  unfolding messages_from
  messages-basic f i b z c h =
      rw (messages_from, h, not_start b, emit_op-index b i z c, next-at code short i _ h)
        (after-basic b z _ _)

  messages-close :
      (f i : ℕ) (z : ℤ) (c : List ℕ)
      → get_elem? code i ≡ some (op OpKind.loop_end z)
      → messages_from f code i c ≡ []
  unfolding messages_from emit_op messages_after
  messages-close zero i z c h = refl
  messages-close (suc f) i z c h = rw (messages_from, h)

  messages-loop :
      (f i : ℕ) (body p : Prog) (c : List ℕ)
      → HasAt code i (flatten (loop body p))
      → messages_from (suc f) code i c
        ≡ messages_behind
            (jump (length (flatten body)))
            (messages_from f code (suc i) [])
            (compile_from f code (suc i) [])
            (λ loop_code.
              messages_from f code
                (suc (suc i + length (flatten body)))
                (emit_code_loop_start (length loop_code) c ++ loop_code))
  unfolding messages_from
  messages-loop f i body p c h =
      rw
        (messages_from, (parts code i body p h).0, next-at code short i _ (parts code i body p h).0)
        (ap
          (λ k.
            messages_behind (jump (length (flatten body))) (messages_from f code (suc i) [])
              (compile_from f code (suc i) [])
              (λ loop_code.
                messages_from f code k (emit_code_loop_start (length loop_code) c ++ loop_code)))
          (next-over code i body p h short))

  -- The messages from a program on: those of what follows, or the report on it.
  pub record Reports (f i : ℕ) (p : Prog) : Type 0 where
    pub left : ℕ
    pub enough : f ≤ left + length (flatten p)
    pub says :
        (c : List ℕ)
        → messages_from f code i c
          ≡ (if fits p then messages_from left code (behind i p) (gen p c).1 else report p)

  pub Reports-basic :
      (f i : ℕ) (b : Basic) (z : ℤ) (p : Prog)
      → HasAt code i (flatten (basic b z p))
      → Reports f (suc i) p
      → Reports (suc f) i (basic b z p)
  unfolding gen fits report
  Reports-basic f i b z p h r = record {
    left = r.left;
    enough = omega (arith, r.enough, behind-basic i b z p);
    says = λ c.
        messages-basic f i b z c (basic-here code i b z p h).0 ∙ elim (Bool-cases (too_big z)) [
          | inl e ↦ rw (op-Returns b z c, e)
          | inr e ↦
              let q : (emit_op (kind_of b) 0 z c).0 ≡ ok = op-Returns b z c ∙ (rw e refl) in
              rw (q, e)
                (r.says (emit_op (kind_of b) 0 z c).1
                  ∙ ap
                      (λ k.
                        if fits p
                        then messages_from r.left code k (gen p (emit_op (kind_of b) 0 z c).1).1
                        else report p)
                      (behind-basic i b z p))
        ];
  }

  -- The code of the inside of a loop, by whether its arguments fit.
  inside_result :
      (e : Emitted) (b : Bool)
      → e.0 ≡ outcome b
      → and_then e some (λ inside. some (ok, emit_code_loop_end inside))
        ≡ some (outcome b, if b then emit_code_loop_end e.1 else e.1)
  inside_result (err, c) true h =
      and_then-goes (err, c) some (λ inside. some (ok, emit_code_loop_end inside)) h
  inside_result (err, c) false h = rw (h, and_then) (ap (λ r. some (r, c)) h)

  pub Reports-loop :
      (f i : ℕ) (body p : Prog)
      → HasAt code i (flatten (loop body p))
      → Reports f (suc i) body
      → Reports f (suc (suc i + length (flatten body))) p
      → length (flatten body) < f
      → Reports (suc f) i (loop body p)
  unfolding gen fits report messages_behind
  Reports-loop f i body p h inside rest lt = record {
    left = rest.left;
    enough = omega (arith, rest.enough, behind-loop code i body p h);
    says = λ c.
        messages-loop f i body p c h
        ∙ ap₂
            (λ inside r. messages_behind (jump (length (flatten body))) inside r (λ loop_code.
              messages_from f code (suc (suc i + length (flatten body)))
                (emit_code_loop_start (length loop_code) c ++ loop_code)))
            (inside.says []) generated
        ∙ elim (Bool-cases (fits body)) [
          | inl e ↦
              let q : (gen body []).0 ≡ ok = gen-Returns body [] ∙ ap outcome e in
              rw e (
                ap
                  (λ x.
                    x
                    ++ messages_from f code (suc (suc i + length (flatten body))) (
                        emit_code_loop_start (length (emit_code_loop_end (gen body []).1)) c
                        ++ emit_code_loop_end (gen body []).1))
                  (messages-close inside.left (behind (suc i) body) _ (gen body []).1
                    (parts code i body p h).2)
                ∙ rest.says _
                ∙ ap₂ (λ k e. if fits p then messages_from rest.left code k e.1 else report p)
                    (behind-loop code i body p h)
                    (sym (
                      and_then-goes (gen body []) (λ e. (e.0, c))
                        (λ inside. gen p (
                          emit_code_loop_start (length (emit_code_loop_end inside)) c
                          ++ emit_code_loop_end inside))
                        q)))
          | inr e ↦ rw e
        ];
  }
    where
      generated :
          compile_from f code (suc i) []
          ≡ some (
            outcome (fits body),
            if fits body then emit_code_loop_end (gen body []).1 else (gen body []).1,
          )
      generated =
          inside_code code short f (suc i) _ body
            (compile-flatten code short body f (suc i) (parts code i body p h).1 lt) lt
            (parts code i body p h).2
          ∙ inside_result (gen body []) (fits body) (gen-Returns body [])
