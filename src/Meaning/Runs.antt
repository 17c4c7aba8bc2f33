-- ===== src/Meaning/Runs.antt =====
-- Runs of a source, one behind the other, and what they keep.
use bfcomp.Prelude.{
  ℕ, zero, suc, ◌≡◌, ◌≤◌, refl, subst, List, [], ◌∷◌, Option, none, some, arith, some_injective,
  Bool, true, false, if◌then◌else◌, tests, length-set, get_elem?, set,
}
use mathlib.Core.Option
use bfcomp.Meaning.{
  Command, right, left, inc, dec, put, take, Source, stop, order, cycle, append, State, change_cell,
  step_left, take_from, command, Means, stops, does, passes, repeats, Fits,
}

behind_cycle :
    (body p q r : Source)
    → ((s t : State) → Means r s t → (m : State) × Means p s m × Means q m t)
    → (s t : State) → Means (cycle body r) s t
    → (m : State) × Means (cycle body p) s m × Means q m t
behind_cycle body p q r h s t (passes e x) = let (m, a, b) = h s t x in (m, passes e a, b)
behind_cycle body p q r h s t (repeats {m} v e y x) =
    let (m', a, b) = behind_cycle body p q r h m t x in (m', repeats v e y a, b)

-- A run of one source behind another is a run of the first, and a run of the second.
pub Means-append :
    (p q : Source) (s t : State) → Means (append p q) s t → (m : State) × Means p s m × Means q m t
unfolding append
Means-append stop q s t x = (s, stops, x)
Means-append (order c p) q s t (does {m} e x) =
    let (m', a, b) = Means-append p q m t x in (m', does e a, b)
Means-append (cycle body p) q s t x =
    behind_cycle body p q (append p q) (λ s t. Means-append p q s t) s t x

map-Fits :
    (f : ℕ → State) (s t : State) (o : Option ℕ)
    → ((v : ℕ) → Fits (f v))
    → Option.map f o ≡ some t
    → Fits t
map-Fits f s t none h e = absurd cc
map-Fits f s t (some v) h e = subst Fits (some_injective e) (h v)

change_cell-Fits : (f : ℕ → ℕ) (s t : State) → change_cell f s ≡ some t → Fits s → Fits t
unfolding change_cell
change_cell-Fits f s t e h =
    map-Fits (λ v. record s { cells = set s.cells s.here (f v) }) s t (get_elem? s.cells s.here)
      (λ v. record {
        on_tape = omega (arith, h.on_tape, length-set s.cells s.here (f v));
        small = omega (arith, h.small, length-set s.cells s.here (f v));
      })
      e

take_from-Fits : (i : List ℕ) (s t : State) → take_from i s ≡ some t → Fits s → Fits t
unfolding take_from
take_from-Fits [] s t e h = change_cell-Fits (λ v. v) s t e h
take_from-Fits (x ∷ xs) s t e h =
    change_cell-Fits (λ _. x) (record s { input = xs }) t e
      (record { on_tape = h.on_tape; small = h.small })

step_left-Fits : (i : ℕ) (s t : State) → i ≤ s.here → step_left i s ≡ some t → Fits s → Fits t
unfolding step_left
step_left-Fits zero s t le e h = absurd cc
step_left-Fits (suc i) s t le e h =
    subst Fits (some_injective e)
      (record { on_tape = omega (arith, h.on_tape, le); small = h.small })

pub guard_some :
    (b : Bool) (s t : State)
    → ◌≡◌ {A = Option State} (if b then some s else none) (some t)
    → (b ≡ true) × (s ≡ t)
guard_some true s t e = (refl, some_injective e)
guard_some false s t e = absurd cc

-- Each character leaves the position on the tape, and the tape as long as it is.
pub command-Fits : (c : Command) (s t : State) → command c s ≡ some t → Fits s → Fits t
unfolding command
command-Fits right s t e h =
    let (q, r) = guard_some _ _ t e in
    subst Fits r (record { on_tape = omega tests; small = h.small })
command-Fits left s t e h = step_left-Fits s.here s t (omega arith) e h
command-Fits inc s t e h = change_cell-Fits _ s t e h
command-Fits dec s t e h = change_cell-Fits _ s t e h
command-Fits put s t e h =
    map-Fits _ s t (get_elem? s.cells s.here) (λ v. record { on_tape = h.on_tape; small = h.small })
      e
command-Fits take s t e h = take_from-Fits s.input s t e h

pub Means-Fits : {p : Source} {s t : State} → Means p s t → Fits s → Fits t
Means-Fits stops h = h
Means-Fits (does {c} {p} {s} {m} e x) h = Means-Fits x (command-Fits c s m e h)
Means-Fits (passes e x) h = Means-Fits x h
Means-Fits (repeats v e x y) h = Means-Fits y (Means-Fits x h)
