-- ===== src/Compile/Parts.antt =====
-- What the code of csrc/src/ir_compile.c is made of, when it was generated without an error.
use bfcomp.Prelude.{
  ℕ, ◌≡◌, refl, sym, ap, ◌∙◌, List, [], ◌∷◌, ◌++◌, some, some_injective, arith, length, ◌+◌,
  length-append, ◌≤◌, true, false, Bool-cases, inl, inr,
}
use mathlib.Core.List.{append_assoc}
use bfcomp.Prelude.Int.{ℤ, pos}
use bfcomp.Word.{to_u32}
use bfcomp.Ir.{OpKind}
use bfcomp.Prog.{Basic, Prog, basic, loop, kind_of}
use bfcomp.Emit.{
  CompileResult, Emitted, ok, illegal_state, malformed_loop, operand_size, push_int32, too_big,
  const_arg, emit_op, emit_code_exit,
}
use bfcomp.Compile.{is_ok, ir_ctx_compile}
use bfcomp.Compile.Gen.{and_then, gen}
use bfcomp.Compile.Structure
use bfcomp.Compile.Structure.{whole, ir_ctx_compile-whole}
use bfcomp.Prog.Placed.{Holds}
use bfcomp.Ir.{Ctx}
use bfcomp.Compile.Append.{loop_bytes, loop_then, loop_then-bytes, gen-append}

pub record BasicCode (b : Basic) (z : ℤ) (p : Prog) (bytes : List ℕ) : Type 0 where
  pub first : List ℕ
  pub rest : List ℕ
  pub emits : emit_op (kind_of b) 0 z [] ≡ (ok, first)
  pub gens : gen p [] ≡ (ok, rest)
  pub whole : bytes ≡ first ++ rest

pub record LoopCode (body p : Prog) (bytes : List ℕ) : Type 0 where
  pub inside : List ℕ
  pub rest : List ℕ
  pub gens_inside : gen body [] ≡ (ok, inside)
  pub gens : gen p [] ≡ (ok, rest)
  pub whole : bytes ≡ loop_bytes inside ++ rest

ok_of_is_ok : (e : CompileResult) → is_ok e ≡ true → e ≡ ok
ok_of_is_ok ok h = refl
ok_of_is_ok operand_size h = absurd cc
ok_of_is_ok malformed_loop h = absurd cc
ok_of_is_ok illegal_state h = absurd cc

and_then-ok :
    {e : Emitted} (stop : Emitted → Emitted) (g : List ℕ → Emitted) (bytes : List ℕ)
    → ((t : List ℕ) → (stop (e.0, t)).0 ≡ e.0)
    → and_then e stop g ≡ (ok, bytes)
    → (e ≡ (ok, e.1)) × (g e.1 ≡ (ok, bytes))
and_then-ok {e = (err, d)} stop g bytes s h = elim (Bool-cases (is_ok err)) [
  | inl t ↦ (ap (λ u. (u, d)) (ok_of_is_ok err t), (rw (t, and_then) at h))
  | inr t ↦
      let stopped : stop (err, d) ≡ (ok, bytes) = rw (t, and_then) at h in
      let same : err ≡ ok = sym (s d) ∙ ap (λ e. e.0) stopped in
      absurd (let wrong : is_ok ok ≡ false = ap is_ok (sym same) ∙ t in cc)
]

behind-ok :
    (p : Prog) (c bytes : List ℕ)
    → gen p c ≡ (ok, bytes)
    → (gen p [] ≡ (ok, (gen p []).1)) × (bytes ≡ c ++ (gen p []).1)
behind-ok p c bytes h =
    let e = sym (gen-append p c) ∙ h in (ap (λ x. (x.0, (gen p []).1)) e, sym (ap (λ x. x.1) e))

pub gen-BasicCode :
    (b : Basic) (z : ℤ) (p : Prog) (bytes : List ℕ)
    → gen (basic b z p) [] ≡ (ok, bytes)
    → BasicCode b z p bytes
unfolding gen
gen-BasicCode b z p bytes h =
    let r = and_then-ok {e = emit_op (kind_of b) 0 z []} (λ e. e) (gen p) bytes (λ t. refl) h in
    let q = behind-ok p _ bytes r.1 in
    record { first = _; rest = _; emits = r.0; gens = q.0; whole = q.1 }

pub gen-LoopCode :
    (body p : Prog) (bytes : List ℕ) → gen (loop body p) [] ≡ (ok, bytes) → LoopCode body p bytes
unfolding gen
gen-LoopCode body p bytes h =
    let r =
      and_then-ok {e = gen body []} (λ e. (e.0, [])) (λ inside. loop_then (gen p) inside []) bytes
        (λ t. refl) h in
    let q = behind-ok p _ bytes (sym (loop_then-bytes (gen p) (gen body []).1 []) ∙ r.1) in
    record { inside = _; rest = _; gens_inside = r.0; gens = q.0; whole = q.1 }

-- The two bytes of `push %edi`, and the call of `exit`.
abbrev pub push_bytes : List ℕ
push_bytes = 0xFF ∷ 0xF7 ∷ []

abbrev pub exit_bytes : List ℕ
exit_bytes = 0xB8 ∷ 1 ∷ 0 ∷ 0 ∷ 0 ∷ 0xBB ∷ 0 ∷ 0 ∷ 0 ∷ 0 ∷ 0xCD ∷ 0x80 ∷ []

pub record WholeCode (p : Prog) (before bytes : List ℕ) : Type 0 where
  pub inside : List ℕ
  pub gens : gen p [] ≡ (ok, inside)
  pub whole : bytes ≡ before ++ (push_bytes ++ (inside ++ exit_bytes))

pub exit-emitted : (c : List ℕ) → emit_op OpKind.max 0 (pos 0) c ≡ (ok, c ++ exit_bytes)
unfolding emit_op emit_code_exit too_big const_arg push_int32 to_u32
exit-emitted c = simp append_assoc

pub whole-WholeCode :
    (p : Prog) (before bytes : List ℕ)
    → Structure.whole p before ≡ (ok, bytes)
    → WholeCode p before bytes
whole-WholeCode p before bytes h =
    let start = before ++ push_bytes in
    let r =
      and_then-ok {e = gen p start} (λ e. e) (emit_op OpKind.max 0 (pos 0)) bytes (λ t. refl) h in
    let q = behind-ok p start (gen p start).1 r.0 in
    record {
      inside = (gen p []).1;
      gens = q.0;
      whole =
          ap (λ x. x.1) (sym r.1 ∙ exit-emitted (gen p start).1)
          ∙ ap (λ t. t ++ exit_bytes) q.1
          ∙ append_assoc start (gen p []).1 exit_bytes
          ∙ append_assoc before push_bytes ((gen p []).1 ++ exit_bytes);
    }

-- The code that the compiler adds behind what the context holds.
pub compiled-WholeCode :
    (c : Ctx) (p : Prog) (f : ℕ) (before code : List ℕ)
    → Holds c p
    → length c.code + 2 ≤ f
    → ir_ctx_compile f c before ≡ some (ok, code)
    → WholeCode p before code
compiled-WholeCode c p f before code h lt e =
    whole-WholeCode p before code
      (some_injective (sym (ir_ctx_compile-whole c p f before h lt) ∙ e))

pub inside-short :
    (before inside : List ℕ)
    → length inside ≤ length (before ++ (push_bytes ++ (inside ++ exit_bytes)))
inside-short before inside = omega (
  arith,
  length-append before (push_bytes ++ (inside ++ exit_bytes)),
  length-append inside exit_bytes,
)
