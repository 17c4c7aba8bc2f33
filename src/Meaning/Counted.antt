-- ===== src/Meaning/Counted.antt =====
-- A character that is repeated, and the one instruction that the parser of csrc/src/ir_gen.c makes of it.
use bfcomp.Prelude.{
  ℕ, zero, suc, ◌+◌, ◌%◌, ◌^◌, ◌≡◌, ◌<◌, refl, sym, ap, subst, ◌∙◌, List, [], ◌∷◌, ◌++◌, Option,
  none, some, arith, some_injective, fun_ext, tests, get_elem?, set,
}
use mathlib.Core.Option
use bfcomp.Prelude.Int.{ℤ, pos, ◌+ℤ◌, ◌-ℤ◌, int_laws}
use bfcomp.Word.{to_i64, to_u8, neg, to_i64-eq_of_IsI64}
use bfcomp.Prog.{Basic}
use bfcomp.Interp.{
  Store, load, load_at, store_at, update, act, repeat, write_byte, read_byte, read_from,
}
use bfcomp.X86.CallCode.{repeat-some}
use bfcomp.Meaning.{
  Command, right, left, inc, dec, put, take, State, change_cell, step_left, take_from, command,
  as_store, Fits,
}
use bfcomp.Meaning.Runs.{guard_some, command-Fits}
use bfcomp.Meaning.Tame.{Goes, Does}
use bfcomp.Meaning.Joining.{Joinable, Does-joined}

unfoldable pub basic_of : Command → Basic
basic_of right = Basic.tape
basic_of left = Basic.tape
basic_of inc = Basic.cell
basic_of dec = Basic.cell
basic_of put = Basic.write
basic_of take = Basic.read

unfoldable pub count_arg : Command → ℕ → ℤ
count_arg right n = pos n
count_arg left n = neg (pos n)
count_arg inc n = pos n
count_arg dec n = neg (pos n)
count_arg put n = pos n
count_arg take n = pos n

-- A character, so many times.
unfoldable pub Times : Command → ℕ → State → State → Type 0
Times c zero s t = s ≡ t
Times c (suc n) s t = (m : State) × (command c s ≡ some m) × Times c n m t

changed_store :
    (f : ℕ → State) (t : State) (o : Option ℕ)
    → Option.map f o ≡ some t
    → Option.map (λ v. as_store (f v)) o ≡ some (as_store t)
changed_store f t none e = absurd cc
changed_store f t (some v) e = ap (λ u. some (as_store u)) (some_injective e)

change_cell-update :
    (f g : ℕ → ℕ) (s t : State)
    → ((v : ℕ) → g v ≡ f v)
    → change_cell f s ≡ some t
    → update g (as_store s) ≡ some (as_store t)
unfolding change_cell update load load_at store_at as_store
change_cell-update f g s t h e =
    ap (λ k. update k (as_store s)) (fun_ext h)
    ∙ changed_store (λ v. record s { cells = set s.cells s.here (f v) }) t
        (get_elem? s.cells s.here) e

inc-to_u8 : (v : ℕ) → to_u8 (pos v +ℤ pos 1) ≡ (v + 1) % 256
unfolding to_u8 ◌+ℤ◌
inc-to_u8 v = ground arith

dec-to_u8 : (v : ℕ) → to_u8 (pos v +ℤ neg (pos 1)) ≡ (v + 255) % 256
unfolding to_u8 ◌+ℤ◌ ◌-ℤ◌ neg
dec-to_u8 v = ground arith

put-write_byte :
    (s t : State) → command put s ≡ some t → write_byte (as_store s) ≡ some (as_store t)
unfolding command write_byte load load_at as_store
put-write_byte s t e =
    changed_store (λ v. record s { output = s.output ++ v ∷ [] }) t (get_elem? s.cells s.here) e

take-read_from :
    (i : List ℕ) (s t : State)
    → take_from i s ≡ some t
    → read_from i (as_store s) ≡ some (as_store t)
unfolding take_from read_from as_store
take-read_from [] s t e = change_cell-update (λ v. v) (λ v. v) s t (λ v. refl) e
take-read_from (x ∷ xs) s t e =
    change_cell-update (λ _. x) (λ _. x) (record s { input = xs }) t (λ v. refl) e

take-read_byte :
    (s t : State) → command take s ≡ some t → read_byte (as_store s) ≡ some (as_store t)
unfolding command read_byte as_store
take-read_byte s t e = take-read_from s.input s t e

Times-repeat :
    (c : Command) (f : Store → Option Store)
    → ((s t : State) → command c s ≡ some t → f (as_store s) ≡ some (as_store t))
    → (n : ℕ) (s t : State) → Times c n s t
    → repeat n f (as_store s) ≡ some (as_store t)
unfolding Times repeat
Times-repeat c f h zero s t e = ap (λ u. some (as_store u)) e
Times-repeat c f h (suc n) s t (m, e, x) =
    repeat-some n f (as_store s) (h s m e) ∙ Times-repeat c f h n m t x

-- A step to the right or to the left.
right-Goes :
    (s t : State) → command right s ≡ some t → Fits s → Goes (pos 1) (as_store s) (as_store t)
unfolding command as_store
right-Goes s t e h =
    let (q, r) = guard_some _ _ t e in
    record {
      from = s.here;
      to = suc s.here;
      starts = refl;
      moved = omega arith;
      begins = h.on_tape;
      inside = omega tests;
      small = h.small;
      result = ap as_store (sym r);
    }

left-Goes :
    (i : ℕ) (s t : State)
    → s.here ≡ i
    → step_left i s ≡ some t
    → Fits s
    → Goes (neg (pos 1)) (as_store s) (as_store t)
unfolding step_left as_store neg ◌-ℤ◌
left-Goes zero s t q e h = absurd cc
left-Goes (suc i) s t q e h = record {
  from = s.here;
  to = i;
  starts = refl;
  moved = omega (arith, q);
  begins = h.on_tape;
  inside = omega (arith, h.on_tape, q);
  small = h.small;
  result = ap as_store (sym (some_injective e));
}

pub count_arg-IsI64 : (c : Command) (n : ℕ) → n < 2 ^ 63 → to_i64 (count_arg c n) ≡ count_arg c n
unfolding count_arg neg ◌-ℤ◌
count_arg-IsI64 right n h = to_i64-eq_of_IsI64 _ (omega arith)
count_arg-IsI64 left n h = to_i64-eq_of_IsI64 _ (ground arith)
count_arg-IsI64 inc n h = to_i64-eq_of_IsI64 _ (omega arith)
count_arg-IsI64 dec n h = to_i64-eq_of_IsI64 _ (ground arith)
count_arg-IsI64 put n h = to_i64-eq_of_IsI64 _ (omega arith)
count_arg-IsI64 take n h = to_i64-eq_of_IsI64 _ (omega arith)

-- An argument that is one larger in size.
next_arg : (c : Command) (n : ℕ) → count_arg c 1 +ℤ count_arg c n ≡ count_arg c (suc n)
unfolding count_arg neg
next_arg right n = omega int_laws
next_arg left n = omega int_laws
next_arg inc n = omega int_laws
next_arg dec n = omega int_laws
next_arg put n = omega int_laws
next_arg take n = omega int_laws

module _ (Reads : ℤ → Type 0) where
  -- One character that is joined.
  once :
      (c : Command) (s t : State)
      → Joinable (basic_of c)
      → command c s ≡ some t
      → Fits s
      → Does Reads (basic_of c) (count_arg c 1) (as_store s) (as_store t)
  unfolding command Does basic_of count_arg act Joinable
  once right s t j e h = right-Goes s t e h
  once left s t j e h = left-Goes s.here s t refl e h
  once inc s t j e h = change_cell-update (λ v. (v + 1) % 256) _ s t inc-to_u8 e
  once dec s t j e h = change_cell-update (λ v. (v + 255) % 256) _ s t dec-to_u8 e
  once put s t j e h = absurd j
  once take s t j e h = absurd j

  -- Many of them, as one instruction.
  joined :
      (c : Command) (n : ℕ) (s t : State)
      → Joinable (basic_of c)
      → suc n < 2 ^ 63
      → Times c (suc n) s t
      → Fits s
      → Does Reads (basic_of c) (count_arg c (suc n)) (as_store s) (as_store t)
  unfolding Times
  joined c zero s t j lt (m, e, q) h =
      subst (λ u. Does Reads (basic_of c) (count_arg c 1) (as_store s) (as_store u)) q
        (once c s m j e h)
  joined c (suc n) s t j lt (m, e, x) h =
      subst (λ z. Does Reads (basic_of c) z (as_store s) (as_store t))
        (ap to_i64 (next_arg c (suc n)) ∙ count_arg-IsI64 c (suc (suc n)) lt)
        (Does-joined Reads (basic_of c) (count_arg c 1) (count_arg c (suc n)) (as_store s)
          (as_store m) (as_store t) j (count_arg-IsI64 c (suc n) (omega arith)) (once c s m j e h)
          (joined c n m t j (omega arith) x (command-Fits c s m e h)))

  -- What a `,` that is repeated needs.
  unfoldable pub Allowed : Command → ℕ → Type 0
  Allowed take n = Reads (pos n)
  Allowed _ n = Unit

  -- A character that is repeated does what its one instruction does.
  pub Times-Does :
      (c : Command) (n : ℕ) (s t : State)
      → suc n < 2 ^ 63
      → Allowed c (suc n)
      → Times c (suc n) s t
      → Fits s
      → Does Reads (basic_of c) (count_arg c (suc n)) (as_store s) (as_store t)
  unfolding Allowed basic_of Joinable
  Times-Does right n s t lt a x h = joined right n s t tt lt x h
  Times-Does left n s t lt a x h = joined left n s t tt lt x h
  Times-Does inc n s t lt a x h = joined inc n s t tt lt x h
  Times-Does dec n s t lt a x h = joined dec n s t tt lt x h
  Times-Does put n s t lt a x h =
      unfold Does act count_arg in Times-repeat put write_byte put-write_byte (suc n) s t x
  Times-Does take n s t lt a x h =
      unfold Does act count_arg in
      (a, Times-repeat take read_byte (λ s t e. take-read_byte s t e) (suc n) s t x)
