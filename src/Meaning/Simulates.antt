-- ===== src/Meaning/Simulates.antt =====
-- A program of csrc/src/ir_gen.c that does what a source means, and how the parser keeps it so.
use bfcomp.Prelude.{ℕ, zero, suc, ◌^◌, ◌≡◌, ◌<◌, refl, sym, subst, some}
use bfcomp.Prelude.Int.{ℤ}
use bfcomp.Word.{to_i64}
use bfcomp.Prog.{Prog, done, basic, loop, seq, join_last}
use bfcomp.Interp.{load, load_at}
use bfcomp.Meaning.{
  Command, Source, stop, order, cycle, append, State, command, Means, stops, does, passes, repeats,
  as_store, Fits,
}
use bfcomp.Meaning.Runs.{Means-append, Means-Fits}
use bfcomp.Meaning.Tame.{Does, Tame, ends, acts, skips, again, Tame-seq}
use bfcomp.Meaning.Joining.{Joinable, Tame-join_last}
use bfcomp.Meaning.Counted.{basic_of, count_arg, Times, Allowed, count_arg-IsI64, Times-Does}
use bfcomp.Meaning.Reader.{append_many}

Means-done : (s t : State) → Means stop s t → s ≡ t
Means-done s t stops = refl

Means-once : (c : Command) (s t : State) → Means (order c stop) s t → command c s ≡ some t
Means-once c s t (does {m} e x) = subst (λ u. command c s ≡ some u) (Means-done m t x) e

Times-snoc :
    (c : Command) (n : ℕ) (s m t : State)
    → command c s ≡ some m
    → Times c n m t
    → Times c (suc n) s t
unfolding Times
Times-snoc c n s m t e x = (m, e, x)

Means-append_many :
    (n : ℕ) (c : Command) (p : Source) (s t : State)
    → Means (append_many n c p) s t
    → (m : State) × Means p s m × Times c n m t
unfolding append_many Times
Means-append_many zero c p s t x = (t, x, refl)
Means-append_many (suc n) c p s t x =
    let (m, a, b) = Means-append_many n c (append p (order c stop)) s t x in
    let (m', a', b') = Means-append p (order c stop) s m a in (m', a', (m, Means-once c m' m b', b))

module _ (Reads : ℤ → Type 0) where
  -- The program has every run that the source has.
  unfoldable pub Refines : Source → Prog → Type 0
  Refines p q = (s t : State) → Fits s → Means p s t → Tame Reads q (as_store s) (as_store t)

  pub Refines-stop : Refines stop done
  unfolding Refines
  Refines-stop s t h x =
      subst (λ u. Tame Reads done (as_store s) (as_store u)) (Means-done s t x) ends

  module _ (c : Command) (n : ℕ) (p : Source) (q : Prog) (h : Refines p q) (lt : suc n < 2 ^ 63)
      (a : Allowed Reads c (suc n)) where
    pub Refines-push :
        Refines
          (append_many (suc n) c p)
          (seq q (basic (basic_of c) (to_i64 (count_arg c (suc n))) done))
    unfolding Refines
    Refines-push s t f x =
        let (m, y, z) = Means-append_many (suc n) c p s t x in
        Tame-seq Reads (h s m f y) (
          acts
            (subst (λ w. Does Reads (basic_of c) w (as_store m) (as_store t))
              (sym (count_arg-IsI64 c (suc n) lt))
              (Times-Does Reads c n m t lt a z (Means-Fits y f)))
            ends)

    pub Refines-join :
        Joinable (basic_of c)
        → Refines (append_many (suc n) c p) (join_last (basic_of c) (count_arg c (suc n)) q)
    unfolding Refines
    Refines-join j s t f x =
        let (m, y, z) = Means-append_many (suc n) c p s t x in
        Tame-join_last Reads (count_arg c (suc n)) (count_arg-IsI64 c (suc n) lt) (basic_of c) q
          (as_store s) (as_store m) (as_store t) j (h s m f y)
          (Times-Does Reads c n m t lt a z (Means-Fits y f))

  Refines-cycle :
      (b : Source) (body : Prog)
      → Refines b body
      → (s t : State) → Fits s
      → Means (cycle b stop) s t
      → Tame Reads (loop body done) (as_store s) (as_store t)
  unfolding Refines as_store load load_at
  Refines-cycle b body h s t f (passes e x) = skips e (Refines-stop s t f x)
  Refines-cycle b body h s t f (repeats {m} v e x y) =
      again v e (h s m f x) (Refines-cycle b body h m t (Means-Fits x f) y)

  pub Refines-close :
      (b p : Source) (body q : Prog)
      → Refines b body
      → Refines p q
      → Refines (append p (cycle b stop)) (seq q (loop body done))
  unfolding Refines
  Refines-close b p body q h k s t f x =
      let (m, y, z) = Means-append p (cycle b stop) s t x in
      Tame-seq Reads (k s m f y) (Refines-cycle b body h m t (Means-Fits y f) z)
