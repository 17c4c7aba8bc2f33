-- ===== src/X86/Correct.antt =====
-- The code of csrc/src/ir_compile.c for a well-nested program, against the structured semantics.
use bfcomp.Prelude.{
  ℕ, suc, ◌+◌, ◌^◌, ◌≡◌, ◌<◌, ◌≤◌, sym, ap, subst, ◌∙◌, List, [], some, some_injective, arith,
  length, length-append,
}
use native.Mathlib.Nat.{add-zero}
use bfcomp.Prelude.Int.{ℤ, pos_part}
use bfcomp.Prog.{Basic, Prog, done, loop, kind_of}
use bfcomp.Interp.{Store, load, act}
use bfcomp.Emit.{ok, emit_op}
use bfcomp.Compile.Gen.{gen}
use bfcomp.Compile.Append.{loop_bytes}
use bfcomp.Compile.Parts.{gen-BasicCode, gen-LoopCode}
use bfcomp.X86.Flow.{At, At-left, At-right, at, Reaches-refl}
use bfcomp.X86.Steps.{cpu}
use bfcomp.X86.CallCode.{Under, load-Under}
use bfcomp.X86.Brackets.{idx, Arrives, Arrives-trans, skip_start, enter_start, leave_end, again_end}
use bfcomp.X86.Straight.{
  Keeps, Straight, ends, acts, skips, again, Sound, Sound-Under, Keeps-Sound, Straight-Sound,
}
use bfcomp.X86.Places.{
  over, body_at, end_at, behind_at, loop_bytes-long, LoopAt, loop-LoopAt, loop-length, je-long,
  jne-long,
}
use bfcomp.X86.Basics.{basic-Emits}

done_code : (bytes : List ℕ) → gen done [] ≡ (ok, bytes) → [] ≡ bytes
unfolding gen
done_code bytes e = ap (λ x. x.1) e

loaded-Under :
    (base : ℕ) (s : Store) (v : ℕ) → Sound base s → load s ≡ some v → Under s (idx s) v × (v < 256)
loaded-Under base s v h e =
    let (w, (u, b)) = Sound-Under base s h in
    let same : w ≡ v = some_injective (sym (load-Under s h.index w u) ∙ e) in
    (
      subst (λ i. Under s i v) (sym (ap pos_part h.here)) (subst (Under s h.index) same u),
      subst (λ x. x < 256) same b,
    )

-- A loop at the head of a program, whose code stands in a code.
record LoopHere (code : List ℕ) (i : ℕ) (body p : Prog) (bytes : List ℕ) : Type 0 where
  inside : List ℕ
  rest : List ℕ
  gens_inside : gen body [] ≡ (ok, inside)
  gens : gen p [] ≡ (ok, rest)
  parts : LoopAt code i inside rest
  size : i + length bytes ≡ behind_at i inside + length rest
  room : length inside + 10 ≤ length bytes

loop-LoopHere :
    (code : List ℕ) (i : ℕ) (body p : Prog) (bytes : List ℕ)
    → gen (loop body p) [] ≡ (ok, bytes)
    → At code i bytes
    → i + length bytes < 2 ^ 31
    → LoopHere code i body p bytes
loop-LoopHere code i body p bytes e a lt =
    let c = gen-LoopCode body p bytes e in
    let small : length c.inside + 5 < 2 ^ 31 = omega (
      arith,
      ap length c.whole,
      length-append (loop_bytes c.inside) c.rest,
      loop_bytes-long c.inside,
      lt,
    ) in
    let long = loop-length code i c.inside c.rest small in
    record {
      inside = c.inside;
      rest = c.rest;
      gens_inside = c.gens_inside;
      gens = c.gens;
      parts = loop-LoopAt code i c.inside c.rest small (subst (At code i) c.whole a);
      size = ap (λ bs. i + length bs) c.whole ∙ long;
      room =
          omega
            (arith, ap length c.whole, long, je-long (over c.inside), jne-long (length c.inside));
    }

module _ (base : ℕ) (code : List ℕ) where
  -- From the comparison behind the inside of a loop.
  FromEnd : ℕ → Prog → Store → ℕ → Store → Type 0
  FromEnd i (loop body p) s j t =
      (inside : List ℕ) → gen body [] ≡ (ok, inside) → Arrives base code (end_at i inside) s j t
  FromEnd i _ s j t = Unit

  end-FromEnd :
      (i : ℕ) (body p : Prog) (s t : Store) (j : ℕ) (inside : List ℕ)
      → gen body [] ≡ (ok, inside)
      → Arrives base code (end_at i inside) s j t
      → FromEnd i (loop body p) s j t
  unfolding FromEnd
  end-FromEnd i body p s t j inside e r inside' e' =
      subst (λ bs. Arrives base code (end_at i bs) s j t) (ap (λ x. x.1) (sym e ∙ e')) r

  basic-Arrives :
      (b : Basic) (z : ℤ) (s s' : Store) (first : List ℕ) (i : ℕ)
      → Sound base s
      → emit_op (kind_of b) 0 z [] ≡ (ok, first)
      → act (kind_of b) z s ≡ some s'
      → Keeps b z s s'
      → At code i first
      → Arrives base code i s (i + length first) s'
  basic-Arrives b z s s' first i h e q k a r =
      let d = basic-Emits base s s' h b z first e q k in (d.regs r, (d.runs r).goes code i a)

  stay-Arrives : (i : ℕ) (s : Store) → Arrives base code i s (i + 0) s
  stay-Arrives i s =
      subst (λ j. Arrives base code i s j s) (sym (add-zero i))
        (λ r. (r, Reaches-refl base code (at i (cpu r (base + idx s) s))))

  abbrev Goes : ℕ → List ℕ → Prog → Store → Store → Type 0
  Goes i bytes p s t =
      Arrives base code i s (i + length bytes) t × FromEnd i p s (i + length bytes) t

  Straight-both :
      {p : Prog} {s t : Store} (d : Straight p s t) (i : ℕ) (bytes : List ℕ)
      → Sound base s
      → gen p [] ≡ (ok, bytes)
      → At code i bytes
      → i + length bytes < 2 ^ 31
      → Goes i bytes p s t
  unfolding FromEnd
  Straight-both (ends {s}) i bytes h e a lt = (
    subst (λ bs. Arrives base code i s (i + length bs) s) (done_code bytes e) (stay-Arrives i s),
    tt,
  )
  Straight-both {t = t} (acts {b} {z} {p} {s} {s₁} q k d) i bytes h e a lt =
      let c = gen-BasicCode b z p bytes e in
      let size : length bytes ≡ length c.first + length c.rest =
        ap length c.whole ∙ length-append c.first c.rest in
      let a' = subst (At code i) c.whole a in
      let first =
        basic-Arrives b z s s₁ c.first i h c.emits q k (At-left code i c.first c.rest a') in
      let rest =
        (Straight-both d (i + length c.first) c.rest (Keeps-Sound base b z s s₁ h q k) c.gens
          (At-right code i c.first c.rest a') (omega arith)).0 in
      (
        subst (λ j. Arrives base code i s j t) (omega arith)
            (Arrives-trans base code i (i + length c.first) (i + length c.first + length c.rest) s
              s₁ t first rest),
        tt,
      )
  Straight-both {t = t} (skips {body} {p} {s} q d) i bytes h e a lt =
      let l = loop-LoopHere code i body p bytes e a lt in
      let (u, b) = loaded-Under base s 0 h q in
      let rest =
        (Straight-both d (behind_at i l.inside) l.rest h l.gens l.parts.follows
          (omega (arith, l.size, l.room, lt))).0 in
      let rest' = subst (λ j. Arrives base code (behind_at i l.inside) s j t) (sym l.size) rest in
      let skip =
        skip_start base code s i (over l.inside) l.parts.starts u
          (omega (arith, l.size, l.room, lt)) (omega (arith, l.size, l.room, lt)) in
      let leave =
        leave_end base code s (end_at i l.inside) (length l.inside) l.parts.closes u
          (omega (arith, l.size, l.room, lt)) in
      (
        Arrives-trans base code i (behind_at i l.inside) (i + length bytes) s s t
            (subst (λ j. Arrives base code i s j s) (omega arith) skip) rest',
        end-FromEnd i body p s t (i + length bytes) l.inside l.gens_inside (
            Arrives-trans base code (end_at i l.inside) (behind_at i l.inside) (i + length bytes) s
              s t leave rest'),
      )
  Straight-both {t = t} (again {body} {p} {s} {s₁} v q d d') i bytes h e a lt =
      let l = loop-LoopHere code i body p bytes e a lt in
      let (u, b) = loaded-Under base s (suc v) h q in
      let enter =
        enter_start base code s i (over l.inside) v l.parts.starts u b
          (omega (arith, l.size, l.room, lt)) in
      let back =
        again_end base code s (body_at i l.inside) (length l.inside) v l.parts.closes u b
          (omega (arith, l.size, l.room, lt)) (omega (arith, l.size, l.room, lt)) in
      let round =
        (Straight-both d (body_at i l.inside) l.inside h l.gens_inside l.parts.holds
          (omega (arith, l.size, l.room, lt))).0 in
      let on =
        (Straight-both d' i bytes (Straight-Sound base d h) e a lt).1 l.inside l.gens_inside in
      let inner =
        Arrives-trans base code (body_at i l.inside) (end_at i l.inside) (i + length bytes) s s₁ t
          round on in
      (
        Arrives-trans base code i (body_at i l.inside) (i + length bytes) s s t enter inner,
        end-FromEnd i body p s t (i + length bytes) l.inside l.gens_inside (
            Arrives-trans base code (end_at i l.inside) (body_at i l.inside) (i + length bytes) s s
              t back inner),
      )

  -- The code of a program, where it ends before the byte 2^31, does what the program does.
  pub Straight-Arrives :
      {p : Prog} {s t : Store} (d : Straight p s t) (i : ℕ) (bytes : List ℕ)
      → Sound base s
      → gen p [] ≡ (ok, bytes)
      → At code i bytes
      → i + length bytes < 2 ^ 31
      → Arrives base code i s (i + length bytes) t
  Straight-Arrives d i bytes h e a lt = (Straight-both d i bytes h e a lt).0
