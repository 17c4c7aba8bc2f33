-- ===== src/X86/Flow.antt =====
-- How the machine comes from one state to another, and what a piece of code does wherever it stands.
use bfcomp.Prelude.{
  ℕ, zero, suc, ◌+◌, ◌≡◌, refl, sym, ap, subst, ◌∙◌, List, [], ◌∷◌, ◌++◌, some, arith, length,
  length-append, drop,
}
use native.Mathlib.Nat.{zero-add, add-zero, add_assoc, suc-add}
use mathlib.Core.List.{append_assoc}
use bfcomp.X86.Decode.{Instr, decode}
use bfcomp.X86.Machine.{Cpu, running, execute, step, run}

-- The bytes stand in the code from an index on.
pub record At (code : List ℕ) (i : ℕ) (bs : List ℕ) : Type 0 where
  pub post : List ℕ
  pub here : drop i code ≡ bs ++ post

add-one : (f : ℕ) → 1 + f ≡ suc f
add-one f = omega arith

drop-head : (xs ys code : List ℕ) → code ≡ xs ++ ys → drop (length xs) code ≡ ys
drop-head [] ys code e = e
drop-head (x ∷ xs) ys code e = ap (drop (suc (length xs))) e ∙ drop-head xs ys (xs ++ ys) refl

nothing : (xs ys : List ℕ) → [] ≡ xs ++ ys → [] ≡ ys
nothing [] ys e = e
nothing (x ∷ xs) ys e = absurd cc

drop-behind :
    (xs ys : List ℕ) (i : ℕ) (code : List ℕ)
    → drop i code ≡ xs ++ ys
    → drop (i + length xs) code ≡ ys
drop-behind xs ys zero code e =
    ap (λ n. drop n code) (zero-add (length xs)) ∙ drop-head xs ys code e
drop-behind xs ys (suc i) [] e = ap (λ n. drop n []) (suc-add i (length xs)) ∙ nothing xs ys e
drop-behind xs ys (suc i) (c ∷ code) e =
    ap (λ n. drop n (c ∷ code)) (suc-add i (length xs)) ∙ drop-behind xs ys i code e

pub At-left : (code : List ℕ) (i : ℕ) (xs ys : List ℕ) → At code i (xs ++ ys) → At code i xs
At-left code i xs ys h = record { post = ys ++ h.post; here = h.here ∙ append_assoc xs ys h.post }

pub At-right :
    (code : List ℕ) (i : ℕ) (xs ys : List ℕ) → At code i (xs ++ ys) → At code (i + length xs) ys
At-right code i xs ys h = record {
  post = h.post;
  here = drop-behind xs (ys ++ h.post) i code (h.here ∙ append_assoc xs ys h.post);
}

abbrev pub at : ℕ → Cpu → Cpu
at i m = record m { eip = i }

module _ (base : ℕ) where
  -- Any fuel left at `m'` gives what more fuel gives at `m`.
  pub record Reaches (code : List ℕ) (m m' : Cpu) : Type 0 where
    pub rounds : ℕ
    pub same : (f : ℕ) → run base (rounds + f) code m ≡ run base f code m'

  pub Reaches-refl : (code : List ℕ) (m : Cpu) → Reaches code m m
  Reaches-refl code m = record { rounds = 0; same = λ f. rw zero-add }

  run-step :
      (f : ℕ) (code : List ℕ) (m : Cpu) {m' : Cpu}
      → step base code m ≡ running m'
      → run base (suc f) code m ≡ run base f code m'
  unfolding run
  run-step f code m e = rw (run, e)

  pub Reaches-trans :
      {code : List ℕ} {m m' m'' : Cpu}
      → Reaches code m m'
      → Reaches code m' m''
      → Reaches code m m''
  Reaches-trans p q = record {
    rounds = p.rounds + q.rounds;
    same = λ f. rw add_assoc (p.same (q.rounds + f) ∙ q.same f);
  }

  pub Reaches-one : {code : List ℕ} {m m' : Cpu} → step base code m ≡ running m' → Reaches code m m'
  Reaches-one {code} {m} {m'} e = record { rounds = 1; same = λ f. one f }
    where
      one : (f : ℕ) → run base (1 + f) code m ≡ run base f code m'
      one f = ap (λ n. run base n code m) (add-one f) ∙ run-step f code m e

  pub step-at :
      (code : List ℕ) (i : ℕ) (m : Cpu) (bs : List ℕ) (ins : Instr)
      → At code i bs
      → ((post : List ℕ) → decode (bs ++ post) ≡ some (ins, length bs))
      → step base code (at i m) ≡ execute base ins (at (i + length bs) m)
  unfolding step
  step-at code i m bs ins h d = rw (step, h.here, d h.post)

  -- The code does this from any index on, in any code that it is part of.
  pub record Runs (bs : List ℕ) (m m' : Cpu) : Type 0 where
    pub goes :
        (code : List ℕ) (i : ℕ) → At code i bs → Reaches code (at i m) (at (i + length bs) m')

  pub Runs-one :
      (bs : List ℕ) (ins : Instr) (m m' : Cpu)
      → ((post : List ℕ) → decode (bs ++ post) ≡ some (ins, length bs))
      → ((i : ℕ) → execute base ins (at i m) ≡ running (at i m'))
      → Runs bs m m'
  Runs-one bs ins m m' d e = record {
    goes = λ code i h. Reaches-one (step-at code i m bs ins h d ∙ e (i + length bs));
  }

  pub Runs-nil : (m : Cpu) → Runs [] m m
  Runs-nil m = record {
    goes = λ code i h.
        subst (λ j. Reaches code (at i m) (at j m)) (sym (add-zero i)) (Reaches-refl code (at i m));
  }

  pub Runs-append :
      {xs ys : List ℕ} {m m' m'' : Cpu} → Runs xs m m' → Runs ys m' m'' → Runs (xs ++ ys) m m''
  Runs-append {xs} {ys} {m} {m'} {m''} p q = record {
    goes = λ code i h.
        subst (λ j. Reaches code (at i m) (at j m'')) (omega (arith, length-append xs ys))
          (Reaches-trans (p.goes code i (At-left code i xs ys h))
            (q.goes code (i + length xs) (At-right code i xs ys h)));
  }
