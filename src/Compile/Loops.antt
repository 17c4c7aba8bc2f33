-- ===== src/Compile/Loops.antt =====
-- The traversal of csrc/src/ir_compile.c over the instructions of a well-nested program, step by step
-- and loop by loop.
use bfcomp.Prelude.{
  ℕ, zero, suc, ◌+◌, ◌≤◌, ◌<◌, ◌≡◌, refl, sym, ap, ap₂, fun_ext, ◌∙◌, inl, inr, true, false, List,
  [], ◌++◌, Option, none, some, arith, Bool-cases, length, get_elem?,
}
use bfcomp.Prelude.Int.{ℤ}
use bfcomp.Ir.{OpKind, Op, op, same_kind}
use bfcomp.Prog.{Basic, Prog, done, basic, loop, kind_of, flatten}
use bfcomp.Prog.Placed.{
  HasAt, IsShort, next-at, behind, behind-done, behind-basic, behind-loop, basic-here, parts,
  next-over,
}
use bfcomp.Emit.{ok, Emitted, emit_op, emit_code_loop_start, emit_code_loop_end}
use bfcomp.Compile.{is_ok, after_op, compile_from}
use bfcomp.Compile.Gen.{and_then, gen}

after_op-basic :
    (b : Basic) (e : Emitted) (rest : Option Emitted)
    → after_op (kind_of b) e rest ≡ and_then e some (λ _. rest)
unfolding after_op
after_op-basic Basic.tape (err, c) rest = ground arith
after_op-basic Basic.cell (err, c) rest = ground arith
after_op-basic Basic.write (err, c) rest = ground arith
after_op-basic Basic.read (err, c) rest = ground arith

pub emit_op-index :
    (b : Basic) (i : ℕ) (z : ℤ) (c : List ℕ) → emit_op (kind_of b) i z c ≡ emit_op (kind_of b) 0 z c
unfolding emit_op
emit_op-index Basic.tape i z c = refl
emit_op-index Basic.cell i z c = refl
emit_op-index Basic.write i z c = refl
emit_op-index Basic.read i z c = refl

pub not_start : (b : Basic) → same_kind (kind_of b) OpKind.loop_start ≡ false
not_start Basic.tape = refl
not_start Basic.cell = refl
not_start Basic.write = refl
not_start Basic.read = refl

and_then-and_then :
    (e : Emitted) (g : List ℕ → Emitted) (k : List ℕ → Option Emitted)
    → and_then (and_then e (λ e. e) g) some k ≡ and_then e some (λ c. and_then (g c) some k)
and_then-and_then (err, c) g k = ground arith

-- What `compile_from` does with the code of the inside of a loop.
abbrev after_inner : List ℕ → Option Emitted → (List ℕ → Option Emitted) → Option Emitted
after_inner c inner go = elim inner [
  | none ↦ none
  | some (err, loop_code) ↦ elim (is_ok err) [
    | true ↦ go (emit_code_loop_start (length loop_code) c ++ loop_code)
    | false ↦ some (err, c)
  ]
]

loop_glue :
    (e : Emitted) (c : List ℕ) (g : List ℕ → Emitted) (k : List ℕ → Option Emitted)
    → after_inner c
        (and_then e some (λ b. some (ok, emit_code_loop_end b)))
        (λ c. and_then (g c) some k)
      ≡ and_then
          (and_then e
            (λ e. (e.0, c))
            (λ b.
              let loop_code = emit_code_loop_end b in
              g (emit_code_loop_start (length loop_code) c ++ loop_code)))
          some
          k
loop_glue (err, c') c g k = elim (Bool-cases (is_ok err)) [
  | inl e ↦ ground arith
  | inr e ↦ ground arith
]

module _ (code : List Op) (short : IsShort code) where
  compile-basic :
      (f i : ℕ) (b : Basic) (z : ℤ) (c : List ℕ)
      → get_elem? code i ≡ some (op (kind_of b) z)
      → compile_from (suc f) code i c
        ≡ and_then (emit_op (kind_of b) 0 z c) some (λ c'. compile_from f code (suc i) c')
  unfolding compile_from
  compile-basic f i b z c h =
      rw (compile_from, h, not_start b, emit_op-index b i z c, next-at code short i _ h)
        (after_op-basic b (emit_op (kind_of b) 0 z c) _)

  compile-close :
      (f i : ℕ) (z : ℤ) (c : List ℕ)
      → get_elem? code i ≡ some (op OpKind.loop_end z)
      → compile_from (suc f) code i c ≡ some (ok, emit_code_loop_end c)
  unfolding compile_from emit_op after_op
  compile-close f i z c h = rw (compile_from, h)

  -- Generating the code of a loop, when the code of its inside has been generated.
  compile-loop :
      (f i : ℕ) (body p : Prog) (c : List ℕ)
      → HasAt code i (flatten (loop body p))
      → compile_from (suc f) code i c
        ≡ after_inner c
            (compile_from f code (suc i) [])
            (compile_from f code (suc (suc i + length (flatten body))))
  unfolding compile_from
  compile-loop f i body p c h =
      rw (compile_from, (parts code i body p h).0, next-at code short i _ (parts code i body p h).0)
        (ap (λ k. after_inner c (compile_from f code (suc i) []) (λ c'. compile_from f code k c'))
          (next-over code i body p h short))

  -- The rest of the traversal, behind a program.
  pub record Continues (f i : ℕ) (p : Prog) : Type 0 where
    pub left : ℕ
    pub enough : f ≤ left + length (flatten p)
    pub continues :
        (c : List ℕ)
        → compile_from f code i c ≡ and_then (gen p c) some (compile_from left code (behind i p))

  close_run :
      (n j : ℕ) (z : ℤ) (c : List ℕ)
      → 0 < n
      → get_elem? code j ≡ some (op OpKind.loop_end z)
      → compile_from n code j c ≡ some (ok, emit_code_loop_end c)
  close_run zero j z c lt h = absurd (omega arith)
  close_run (suc n) j z c lt h = compile-close n j z c h

  pub inside_code :
      (f i : ℕ) (z : ℤ) (body : Prog)
      → Continues f i body
      → length (flatten body) < f
      → get_elem? code (behind i body) ≡ some (op OpKind.loop_end z)
      → compile_from f code i []
        ≡ and_then (gen body []) some (λ b. some (ok, emit_code_loop_end b))
  inside_code f i z body r lt h =
      let closes : compile_from r.left code (behind i body)
          ≡ (λ c. some (ok, emit_code_loop_end c)) =
        fun_ext (λ c. close_run r.left (behind i body) z c (omega (arith, r.enough)) h) in
      r.continues [] ∙ ap (and_then (gen body []) some) closes

  Continues-basic :
      (f i : ℕ) (b : Basic) (z : ℤ) (p : Prog)
      → HasAt code i (flatten (basic b z p))
      → Continues f (suc i) p
      → Continues (suc f) i (basic b z p)
  unfolding gen
  Continues-basic f i b z p h r = record {
    left = r.left;
    enough = omega (arith, r.enough, behind-basic i b z p);
    continues = λ c.
        compile-basic f i b z c (basic-here code i b z p h).0
        ∙ ap (and_then (emit_op (kind_of b) 0 z c) some) (
            fun_ext r.continues
            ∙ ap (λ k c. and_then (gen p c) some (compile_from r.left code k))
                (behind-basic i b z p))
        ∙ sym (
            and_then-and_then (emit_op (kind_of b) 0 z c) (gen p)
              (compile_from r.left code (behind i (basic b z p))));
  }

  Continues-loop :
      (f i : ℕ) (body p : Prog)
      → HasAt code i (flatten (loop body p))
      → Continues f (suc i) body
      → Continues f (suc (suc i + length (flatten body))) p
      → length (flatten body) < f
      → Continues (suc f) i (loop body p)
  unfolding gen
  Continues-loop f i body p h inside rest lt = record {
    left = rest.left;
    enough = omega (arith, rest.enough, behind-loop code i body p h);
    continues = λ c.
        compile-loop f i body p c h
        ∙ ap₂ (after_inner c) (inside_code f (suc i) _ body inside lt (parts code i body p h).2) (
            fun_ext rest.continues
            ∙ ap (λ k c. and_then (gen p c) some (compile_from rest.left code k))
                (behind-loop code i body p h))
        ∙ loop_glue (gen body []) c (gen p) (compile_from rest.left code (behind i (loop body p)));
  }

  pub compile-flatten :
      (p : Prog) (f i : ℕ) → HasAt code i (flatten p) → length (flatten p) < f → Continues f i p
  compile-flatten done f i h lt = record {
    left = f;
    enough = omega arith;
    continues = λ c. unfold gen in rw behind-done;
  }
  compile-flatten p zero i h lt = absurd (omega arith)
  compile-flatten (basic b z p) (suc f) i h lt =
      let (first, rest) = basic-here code i b z p h in
      Continues-basic f i b z p h
        (compile-flatten p f (suc i) rest (omega (arith, behind-basic i b z p)))
  compile-flatten (loop body p) (suc f) i h lt =
      let hp = parts code i body p h in
      Continues-loop f i body p h
        (compile-flatten body f (suc i) hp.1 (omega (arith, behind-loop code i body p h)))
        (compile-flatten p f _ hp.3 (omega (arith, behind-loop code i body p h)))
        (omega (arith, behind-loop code i body p h))
