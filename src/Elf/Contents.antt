-- ===== src/Elf/Contents.antt =====
-- What the loops of `gen_elf_file` in csrc/src/elf_gen.c leave in the file.
use bfcomp.Prelude.{
  ℕ, zero, suc, ◌+◌, ◌^◌, ◌<◌, ◌≤◌, ◌≡◌, ◌≢◌, refl, sym, ap, ◌∙◌, subst, List, [], ◌∷◌, ◌++◌,
  some_injective, some, true, false, arith, length, take, drop, get_elem?, inl, inr, Bool-cases,
}
use native.Mathlib.Nat.{zero-add}
use bfcomp.Options.{Text}
use bfcomp.Map.{MapOf, Occurs}
use bfcomp.Elf.{Program}
use bfcomp.Elf.Layout.{first_offset}
use bfcomp.Elf.Write.{overlay, write_at, write_program, for_each}
use bfcomp.Elf.Offsets.{SegmentAt, Chain, room, InPlace, segments-InPlace}

-- The bytes stand in the file, from a place on.
abbrev pub StandsAt : List ℕ → ℕ → List ℕ → Type 0
StandsAt file n bs = (i b : ℕ) → get_elem? bs i ≡ some b → get_elem? file (n + i) ≡ some b

-- All bytes left of a place are kept.
abbrev pub KeptBelow : ℕ → List ℕ → List ℕ → Type 0
KeptBelow n file out = (i b : ℕ) → i < n → get_elem? file i ≡ some b → get_elem? out i ≡ some b

pub suc-add : (n i : ℕ) → suc n + i ≡ suc (n + i)
suc-add n i = omega arith

pub get_elem?-append_found :
    (xs ys : List ℕ) (i b : ℕ) → get_elem? xs i ≡ some b → get_elem? (xs ++ ys) i ≡ some b
get_elem?-append_found [] ys i b e = absurd cc
get_elem?-append_found (x ∷ xs) ys zero b e = e
get_elem?-append_found (x ∷ xs) ys (suc i) b e = get_elem?-append_found xs ys i b e

overlay-StandsAt : (n : ℕ) (bs file : List ℕ) → StandsAt (overlay n bs file) n bs
unfolding overlay
overlay-StandsAt zero bs file i b e =
    ap (get_elem? (bs ++ drop (length bs) file)) (zero-add i) ∙ get_elem?-append_found bs _ i b e
overlay-StandsAt (suc n) bs [] i b e =
    ap (get_elem? (0 ∷ overlay n bs [])) (suc-add n i) ∙ overlay-StandsAt n bs [] i b e
overlay-StandsAt (suc n) bs (x ∷ xs) i b e =
    ap (get_elem? (x ∷ overlay n bs xs)) (suc-add n i) ∙ overlay-StandsAt n bs xs i b e

overlay-KeptBelow : (n : ℕ) (bs file : List ℕ) → KeptBelow n file (overlay n bs file)
unfolding overlay
overlay-KeptBelow zero bs file i b h e = absurd (omega arith)
overlay-KeptBelow (suc n) bs [] i b h e = absurd cc
overlay-KeptBelow (suc n) bs (x ∷ xs) zero b h e = e
overlay-KeptBelow (suc n) bs (x ∷ xs) (suc i) b h e = overlay-KeptBelow n bs xs i b (omega arith) e

pub write_at-StandsAt : (n : ℕ) (bs file : List ℕ) → StandsAt (write_at n bs file) n bs
unfolding write_at
write_at-StandsAt n [] file i b e = absurd cc
write_at-StandsAt n (x ∷ bs) file i b e = overlay-StandsAt n (x ∷ bs) file i b e

pub write_at-KeptBelow : (n : ℕ) (bs file : List ℕ) → KeptBelow n file (write_at n bs file)
unfolding write_at
write_at-KeptBelow n [] file i b h e = e
write_at-KeptBelow n (x ∷ bs) file i b h e = overlay-KeptBelow n (x ∷ bs) file i b h e

get_elem?-take_lt : (n : ℕ) (xs : List ℕ) (i b : ℕ) → get_elem? (take n xs) i ≡ some b → i < n
get_elem?-take_lt zero xs i b e = absurd cc
get_elem?-take_lt (suc n) [] i b e = absurd cc
get_elem?-take_lt (suc n) (x ∷ xs) zero b e = omega arith
get_elem?-take_lt (suc n) (x ∷ xs) (suc i) b e = omega (arith, get_elem?-take_lt n xs i b e)

-- What writing a segment that lies between two offsets does to the file.
record Written (p : Program) (off next : ℕ) (file out : List ℕ) : Type 0 where
  stands : p.allocated ≡ true → StandsAt out p.phdr.p_offset (take p.len p.bytes)
  below_next :
      p.allocated ≡ true
      → (i b : ℕ) → get_elem? (take p.len p.bytes) i ≡ some b
      → p.phdr.p_offset + i < next
  kept : KeptBelow off file out

-- A segment with bytes to write has a length, so that it lies at its offset.
data_has_len : (p : Program) (i b : ℕ) → get_elem? (take p.len p.bytes) i ≡ some b → p.len ≢ 0
data_has_len p i b e q = absurd (omega (arith, get_elem?-take_lt p.len p.bytes i b e))

write_at-below :
    (n off : ℕ) (bs file : List ℕ)
    → ((i b : ℕ) → get_elem? bs i ≡ some b → n ≡ off)
    → KeptBelow off file (write_at n bs file)
unfolding write_at
write_at-below n off [] file h = write_at-empty n file off
  where
    write_at-empty : (n : ℕ) (file : List ℕ) (off : ℕ) → KeptBelow off file (write_at n [] file)
    write_at-empty n file off i b lt e = e
write_at-below n off (x ∷ bs) file h =
    subst (λ k. KeptBelow k file (write_at n (x ∷ bs) file)) (h 0 x refl)
      (write_at-KeptBelow n (x ∷ bs) file)

module _ (p : Program) (off next : ℕ) (file : List ℕ) (h : SegmentAt p off next) where
  abbrev data_of : List ℕ
  data_of = take p.len p.bytes

  at_offset : (i b : ℕ) → get_elem? data_of i ≡ some b → p.phdr.p_offset ≡ off
  at_offset i b e = h.placed (data_has_len p i b e)

  allocated-Written :
      p.allocated ≡ true → Written p off next file (write_at p.phdr.p_offset data_of file)
  allocated-Written a = record {
    stands = λ _. write_at-StandsAt p.phdr.p_offset data_of file;
    below_next = λ _ i b e.
        omega (arith, at_offset i b e, h.behind a, get_elem?-take_lt p.len p.bytes i b e);
    kept = write_at-below p.phdr.p_offset off data_of file at_offset;
  }

  write_program-Written : Written p off next file (write_program p file)
  unfolding write_program
  write_program-Written = elim (Bool-cases p.allocated) [
    | inl a ↦ subst (Written p off next file) (sym (write_program-true a)) (allocated-Written a)
    | inr a ↦
        subst (Written p off next file) (sym (write_program-false a))
          (record { stands = λ a'. absurd cc; below_next = λ a'. absurd cc; kept = λ i b lt e. e })
  ]
    where
      write_program-true :
          p.allocated ≡ true → write_program p file ≡ write_at p.phdr.p_offset data_of file
      write_program-true a = rw (write_program, a)

      write_program-false : p.allocated ≡ false → write_program p file ≡ file
      write_program-false a = rw (write_program, a)

module _ (Segs : MapOf Program) where
  -- Every segment that has data stands in the file where its header says.
  abbrev pub AllStand : List Text → Segs.Carrier → List ℕ → Type 0
  AllStand ks m out =
      (k : Text) (p : Program)
      → Occurs k ks
      → Segs.get k m ≡ some p
      → p.allocated ≡ true
      → StandsAt out p.phdr.p_offset (take p.len p.bytes)

  record Loop (ks : List Text) (m : Segs.Carrier) (off : ℕ) (file : List ℕ) : Type 0 where
    out : List ℕ
    ends : for_each Segs write_program ks m file ≡ some out
    stand : AllStand ks m out
    kept : KeptBelow off file out

  cons-Loop :
      (k : Text) (ks : List Text) (m : Segs.Carrier) (off next : ℕ) (file : List ℕ) (p : Program)
      → Segs.get k m ≡ some p
      → off ≤ next
      → Written p off next file (write_program p file)
      → Loop ks m next (write_program p file)
      → Loop (k ∷ ks) m off file
  unfolding for_each
  cons-Loop k ks m off next file p found onward w rest = record {
    out = rest.out;
    ends = rw (for_each, found) rest.ends;
    stand = λ x q o e a. elim o [
      | inl at_k ↦
          let same : p ≡ q = some_injective (sym found ∙ ap (λ t. Segs.get t m) (sym at_k) ∙ e) in
          subst (λ q. q.allocated ≡ true → StandsAt rest.out q.phdr.p_offset (take q.len q.bytes))
            same
            (λ a' i b e'.
              rest.kept (p.phdr.p_offset + i) b (w.below_next a' i b e') (w.stands a' i b e'))
            a
      | inr behind ↦ rest.stand x q behind e a
    ];
    kept = λ i b lt e. rest.kept i b (omega (arith, onward)) (w.kept i b lt e);
  }

  for_each-Loop :
      (ks : List Text) (m : Segs.Carrier) (off stop : ℕ) (file : List ℕ)
      → Chain Segs ks off m stop
      → Loop ks m off file
  unfolding for_each
  for_each-Loop [] m off stop file h = record {
    out = file;
    ends = refl;
    stand = λ k p o. absurd o;
    kept = λ i b lt e. e;
  }
  for_each-Loop (k ∷ ks) m off stop file (p, next, found, seg, chain) =
      cons-Loop k ks m off next file p found seg.onward (write_program-Written p off next file seg)
        (for_each-Loop ks m next stop (write_program p file) chain)

  -- The file that the loop over the segments of `final` leaves, when it held `file` before.
  pub record Filed (m final : Segs.Carrier) (file : List ℕ) : Type 0 where
    pub out : List ℕ
    pub ends : for_each Segs write_program (Segs.keys final) final file ≡ some out
    pub stand : AllStand (Segs.keys final) final out
    pub kept : KeptBelow (first_offset Segs m) file out

  -- For any map of segments that fit, with their paddings, in 2^32 bytes, and whatever the file holds
  -- already: with the offsets that `fix_header_offsets` gives, the loop that writes the segments ends;
  -- each segment with data then stands in the file at the offset that its header names, and what the
  -- file held before the first offset, which is behind the headers of the segments, is kept.
  pub segments-Filed :
      (m : Segs.Carrier) (file : List ℕ)
      → first_offset Segs m + room Segs (Segs.keys m) m < 2 ^ 32
      → Segs.count m < 2 ^ 32
      → (r : InPlace Segs m) × Filed m r.final file
  segments-Filed m file h h' =
      let r = segments-InPlace Segs m h h' in
      let l = for_each-Loop (Segs.keys r.final) r.final (first_offset Segs m) r.stop file (
        subst (λ ks. Chain Segs ks (first_offset Segs m) r.final r.stop) (sym r.same_keys)
          r.chain) in
      (r, record { out = l.out; ends = l.ends; stand = l.stand; kept = l.kept })
