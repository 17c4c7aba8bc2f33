-- ===== src/Interp/Flow.antt =====
-- How the machine comes from one state to another.
use bfcomp.Prelude.{ℕ, suc, ◌+◌, ◌≡◌, ◌∙◌, List}
use native.Mathlib.Nat.{zero-add, add_assoc, suc-add}
use bfcomp.Ir.{Op}
use bfcomp.Interp.{Machine, running, step, run}

-- The machine comes from `m` to `m'`: any fuel left there gives what more fuel gives here.
pub record Reaches (code : List Op) (m m' : Machine) : Type 0 where
  pub rounds : ℕ
  pub same : (f : ℕ) → run (rounds + f) code m ≡ run f code m'

pub Reaches-refl : (code : List Op) (m : Machine) → Reaches code m m
Reaches-refl code m = record { rounds = 0; same = λ f. rw zero-add }

pub run-step :
    (f : ℕ) (code : List Op) (m : Machine) {m' : Machine}
    → step code m ≡ running m'
    → run (suc f) code m ≡ run f code m'
unfolding run
run-step f code m e = rw (e, run)

module _ {code : List Op} {m m' m'' : Machine} where
  pub Reaches-trans : Reaches code m m' → Reaches code m' m'' → Reaches code m m''
  Reaches-trans p q = record {
    rounds = p.rounds + q.rounds;
    same = λ f. rw add_assoc (p.same (q.rounds + f) ∙ q.same f);
  }

  pub Reaches-step : step code m ≡ running m' → Reaches code m' m'' → Reaches code m m''
  Reaches-step e p = record {
    rounds = suc p.rounds;
    same = λ f. rw suc-add (run-step _ code m e ∙ p.same f);
  }
