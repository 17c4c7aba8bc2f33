-- ===== src/Interp/Inversion.antt =====
-- From the machine of csrc/src/ir_interpret.c, when it halts, to the structured semantics.
use bfcomp.Prelude.{
  ℕ, zero, suc, ◌+◌, ◌≤◌, ◌≡◌, refl, sym, ◌∙◌, List, Option, none, some, arith, length,
}
use bfcomp.Prelude.Int.{ℤ}
use bfcomp.Ir.{Op}
use bfcomp.Prog.{Basic, Prog, done, basic, loop, kind_of, flatten}
use bfcomp.Prog.Placed.{
  HasAt, IsShort, parts, behind-loop, behind, behind-done, behind-basic, basic-here,
}
use bfcomp.Interp.{Store, Machine, at, running, halted, fault, load, act, step, run}
use bfcomp.Interp.Flow.{run-step}
use bfcomp.Interp.Exec.{Exec, ends, acts, skips, again}
use bfcomp.Interp.Brackets.{
  step-basic_fault, step-basic, step-skip_start, step-skip_end, step-enter, step-back,
  step-fault_start, step-fault_end,
}

-- The other direction: a machine that halts has run the program.
pub run-fault :
    (f : ℕ) (code : List Op) (m : Machine) → step code m ≡ fault → run (suc f) code m ≡ fault
unfolding run
run-fault f code m e = rw (e, run)

pub data Loaded (o : Option ℕ) : Type 0 where
  invalid : o ≡ none → Loaded o
  zeroed : o ≡ some 0 → Loaded o
  nonzero : (v : ℕ) → o ≡ some (suc v) → Loaded o

pub loaded : (o : Option ℕ) → Loaded o
loaded none = invalid refl
loaded (some zero) = zeroed refl
loaded (some (suc v)) = nonzero v refl

-- What is known when the machine, started with fuel `f` before `p` at `i`, halts with `last`.
pub record Returned (code : List Op) (p : Prog) (i : ℕ) (s last : Store) (f : ℕ) : Type 0 where
  pub between : Store
  pub exec : Exec p s between
  pub left : ℕ
  pub less : left ≤ f
  pub rest : run left code (at (behind i p) between) ≡ halted last

module _ (code : List Op) (short : IsShort code) (last : Store) where
  abbrev pub FromStart : ℕ → Type 0
  FromStart n =
      (f : ℕ)
      → f ≤ n
      → (p : Prog) (i : ℕ) (s : Store) → HasAt code i (flatten p)
      → run f code (at i s) ≡ halted last
      → Returned code p i s last f

  abbrev pub FromClose : ℕ → Type 0
  FromClose n =
      (f : ℕ)
      → f ≤ n
      → (body p : Prog) (i : ℕ) (s : Store) → HasAt code i (flatten (loop body p))
      → run f code (at (suc i + length (flatten body)) s) ≡ halted last
      → Returned code (loop body p) i s last f

  pub Returned-done :
      (i f : ℕ) (s : Store) → run f code (at i s) ≡ halted last → Returned code done i s last f
  Returned-done i f s e = record {
    between = s;
    exec = ends;
    left = f;
    less = omega arith;
    rest = rw behind-done e;
  }

  pub Returned-skip :
      (body p : Prog) (i f : ℕ) (s : Store)
      → HasAt code i (flatten (loop body p))
      → load s ≡ some 0
      → Returned code p (suc (suc i + length (flatten body))) s last f
      → Returned code (loop body p) i s last (suc f)
  Returned-skip body p i f s h e r = record {
    between = r.between;
    exec = skips e r.exec;
    left = r.left;
    less = omega (arith, r.less);
    rest = rw (← behind-loop code i body p h) r.rest;
  }

  pub Returned-again :
      (body p : Prog) (i f : ℕ) (s : Store) (v : ℕ)
      → load s ≡ some (suc v)
      → (r : Returned code body (suc i) s last f)
      → Returned code (loop body p) i r.between last r.left
      → Returned code (loop body p) i s last (suc f)
  Returned-again body p i f s v e r q = record {
    between = q.between;
    exec = again v e r.exec q.exec;
    left = q.left;
    less = omega (arith, r.less, q.less);
    rest = q.rest;
  }

  pub not-halted_zero : (m : Machine) → ¬ (run 0 code m ≡ halted last)
  unfolding run
  not-halted_zero m e = cc

  pub not-halted_fault :
      (f : ℕ) (m : Machine) → step code m ≡ fault → ¬ (run (suc f) code m ≡ halted last)
  not-halted_fault f m e h = cc (run-fault f code m e, h)

  pub after-step :
      (f : ℕ) (m m' : Machine)
      → step code m ≡ running m'
      → run (suc f) code m ≡ halted last
      → run f code m' ≡ halted last
  after-step f m m' e h = sym (run-step f code m e) ∙ h

  pub Returned-basic :
      (n f : ℕ) (b : Basic) (z : ℤ) (p : Prog) (i : ℕ) (s : Store)
      → FromStart n
      → f ≤ n
      → HasAt code i (flatten (basic b z p))
      → run (suc f) code (at i s) ≡ halted last
      → (o : Option Store) → act (kind_of b) z s ≡ o
      → Returned code (basic b z p) i s last (suc f)
  Returned-basic n f b z p i s ih le h e none a = absurd (
      not-halted_fault f (at i s)
        (step-basic_fault code short b z i s (basic-here code i b z p h).0 a) e)
  Returned-basic n f b z p i s ih le h e (some s₁) a =
      let (first, rest) = basic-here code i b z p h in
      let r =
        ih f le p (suc i) s₁ rest
          (after-step f (at i s) _ (step-basic code short b z i s s₁ first a) e) in
      record {
        between = r.between;
        exec = acts a r.exec;
        left = r.left;
        less = omega (arith, r.less);
        rest = rw (← behind-basic i b z p) r.rest;
      }

  pub Returned-loop :
      (n f : ℕ) (body p : Prog) (i : ℕ) (s : Store) (m : Machine)
      → FromStart n
      → FromClose n
      → f ≤ n
      → HasAt code i (flatten (loop body p))
      → (load s ≡ none → step code m ≡ fault)
      → (load s ≡ some 0 → step code m ≡ running (at (suc (suc i + length (flatten body))) s))
      → ((v : ℕ) → load s ≡ some (suc v) → step code m ≡ running (at (suc i) s))
      → run (suc f) code m ≡ halted last
      → Loaded (load s)
      → Returned code (loop body p) i s last (suc f)
  Returned-loop n f body p i s m ih ihc le h bad zeroed_step nonzero_step e (invalid l) =
      absurd (not-halted_fault f m (bad l) e)
  Returned-loop n f body p i s m ih ihc le h bad zeroed_step nonzero_step e (zeroed l) =
      Returned-skip body p i f s h l
        (ih f le p _ s (parts code i body p h).3 (after-step f m _ (zeroed_step l) e))
  Returned-loop n f body p i s m ih ihc le h bad zeroed_step nonzero_step e (nonzero v l) =
      let r =
        ih f le body (suc i) s (parts code i body p h).1 (after-step f m _ (nonzero_step v l) e) in
      Returned-again body p i f s v l r
        (ihc r.left (omega (arith, r.less)) body p i r.between h r.rest)

  pub run_inversion : (n : ℕ) → FromStart n × FromClose n
  run_inversion zero = (from_start, from_close)
    where
      from_start : FromStart zero
      from_start zero le done i s h e = Returned-done i 0 s e
      from_start zero le (basic b z p) i s h e = absurd (not-halted_zero _ e)
      from_start zero le (loop body p) i s h e = absurd (not-halted_zero _ e)
      from_start (suc f) le p i s h e = absurd (omega arith)

      from_close : FromClose zero
      from_close zero le body p i s h e = absurd (not-halted_zero _ e)
      from_close (suc f) le body p i s h e = absurd (omega arith)
  run_inversion (suc n) = (from_start (run_inversion n), from_close (run_inversion n))
    where
      from_start : FromStart n × FromClose n → FromStart (suc n)
      from_start ih f le done i s h e = Returned-done i f s e
      from_start ih zero le (basic b z p) i s h e = absurd (not-halted_zero _ e)
      from_start ih zero le (loop body p) i s h e = absurd (not-halted_zero _ e)
      from_start ih (suc f) le (basic b z p) i s h e =
          Returned-basic n f b z p i s ih.0 (omega arith) h e (act (kind_of b) z s) refl
      from_start ih (suc f) le (loop body p) i s h e =
          Returned-loop n f body p i s (at i s) ih.0 ih.1 (omega arith) h
            (step-fault_start code short i body p h s) (step-skip_start code short i body p h s)
            (step-enter code short i body p h s) e (loaded (load s))

      from_close : FromStart n × FromClose n → FromClose (suc n)
      from_close ih zero le body p i s h e = absurd (not-halted_zero _ e)
      from_close ih (suc f) le body p i s h e =
          Returned-loop n f body p i s (at (suc i + length (flatten body)) s) ih.0 ih.1
            (omega arith) h (step-fault_end code short i body p h s)
            (step-skip_end code short i body p h s) (step-back code short i body p h s) e
            (loaded (load s))
