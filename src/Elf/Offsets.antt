-- ===== src/Elf/Offsets.antt =====
-- Where the segments of the file lie, by the loop of csrc/src/elf_gen.c over them.
use bfcomp.Prelude.{
  ℕ, zero, suc, ◌+◌, ◌*◌, ◌%◌, ◌^◌, ◌<◌, ◌≤◌, ◌≡◌, ◌≢◌, refl, sym, ap, ap₂, ◌∙◌, subst, List, [],
  ◌∷◌, Option, none, some, Bool, true, false, arith, inl, inr,
}
use bfcomp.Options.{Text}
use bfcomp.Map.{MapOf, Occurs, AllDistinct}
use bfcomp.Elf.{Program, Phdr, page_size, align_to, sizeof_ehdr, sizeof_phdr}
use bfcomp.Elf.Layout.{fix_segment, fix_segments, first_offset}

align_to-page :
    (v : ℕ)
    → v < 2 ^ 63
    → (align_to v page_size % page_size ≡ 0)
      × (v ≤ align_to v page_size)
      × (align_to v page_size < v + page_size)
unfolding align_to
align_to-page v h = (omega arith, omega arith, omega arith)

-- A segment whose header is final, between two offsets.
pub record SegmentAt (p : Program) (off next : ℕ) : Type 0 where
  pub placed : p.len ≢ 0 → p.phdr.p_offset ≡ off
  pub sized : p.allocated ≡ true → p.len ≢ 0 → p.phdr.p_filesz ≡ p.len
  pub behind : p.allocated ≡ true → off + p.len ≤ next
  pub onward : off ≤ next
  pub aligned : next % page_size ≡ 0

-- What the body of the loop guarantees; `near` bounds the next offset.
record Fixed (p : Program) (off : ℕ) (r : Program × ℕ) : Type 0 where
  segment : SegmentAt r.0 off r.1
  near : r.1 ≤ off + p.len + page_size
  same_len : r.0.len ≡ p.len

module _ (ph : Phdr) (bs : List ℕ) (off : ℕ) where
  abbrev program : ℕ → Bool → Program
  program n b = record { phdr = ph; bytes = bs; len = n; allocated = b }

  fields-Fixed :
      (n : ℕ) (b : Bool)
      → off % page_size ≡ 0
      → off + n + page_size < 2 ^ 32
      → Fixed (program n b) off (fix_segment (program n b) off)
  unfolding fix_segment
  fields-Fixed zero b a h = record {
    segment = record {
      placed = λ q. absurd (q refl);
      sized = λ t q. absurd (q refl);
      behind = λ t. omega arith;
      onward = omega arith;
      aligned = a;
    };
    near = omega arith;
    same_len = refl;
  }
  fields-Fixed (suc n) true a h =
      let l = align_to-page ((off + suc n) % 2 ^ 64) (omega arith) in
      record {
        segment = record {
          placed = λ q. omega arith;
          sized = λ t q. omega arith;
          behind = λ t. omega (arith, l.1);
          onward = omega (arith, l.1);
          aligned = l.0;
        };
        near = omega (arith, l.2);
        same_len = refl;
      }
  fields-Fixed (suc n) false a h = record {
    segment = record {
      placed = λ q. omega arith;
      sized = λ t q. absurd cc;
      behind = λ t. absurd cc;
      onward = omega arith;
      aligned = a;
    };
    near = omega arith;
    same_len = refl;
  }

fix_segment-Fixed :
    (p : Program) (off : ℕ)
    → off % page_size ≡ 0
    → off + p.len + page_size < 2 ^ 32
    → Fixed p off (fix_segment p off)
fix_segment-Fixed p off = fields-Fixed p.phdr p.bytes off p.len p.allocated

-- The bytes that the segments take at most, with their paddings.
abbrev room_of : Option Program → ℕ
room_of none = 0
room_of (some p) = p.len + page_size

module _ (Segs : MapOf Program) where
  abbrev pub room : List Text → Segs.Carrier → ℕ
  room [] m = 0
  room (k ∷ ks) m = room_of (Segs.get k m) + room ks m

  -- The segments of a final map, one behind the other from an offset on.
  abbrev pub Chain : List Text → ℕ → Segs.Carrier → ℕ → Type 0
  Chain [] off m stop = off ≡ stop
  Chain (k ∷ ks) off m stop =
      (p : Program) × (next : ℕ) × (Segs.get k m ≡ some p)
      × SegmentAt p off next
      × Chain ks next m stop

  abbrev Present : List Text → Segs.Carrier → Type 0
  Present ks m = (k : Text) → Occurs k ks → (p : Program) × (Segs.get k m ≡ some p)

  room-put :
      (k : Text) (p : Program) (ks : List Text) (m : Segs.Carrier)
      → ¬ Occurs k ks
      → room ks (Segs.put k p m) ≡ room ks m
  room-put k p [] m h = refl
  room-put k p (x ∷ ks) m h =
      ap₂ (λ o n. room_of o + n) (Segs.get-put_other x k p m (λ e. h (inl (sym e))))
        (room-put k p ks m (λ o. h (inr o)))

  Present-put :
      (k : Text) (p : Program) (ks : List Text) (m : Segs.Carrier)
      → ¬ Occurs k ks
      → Present ks m
      → Present ks (Segs.put k p m)
  Present-put k p ks m h pres x o =
      let r = pres x o in
      (r.0, Segs.get-put_other x k p m (λ e. h (subst (λ t. Occurs t ks) e o)) ∙ r.1)

  -- The loop ends, with a map where the segments lie one behind the other.
  record LaidOut (ks : List Text) (m : Segs.Carrier) (off : ℕ) : Type 0 where
    final : Segs.Carrier
    stop : ℕ
    ends : fix_segments Segs ks m off ≡ some (final, stop)
    chain : Chain ks off final stop
    others : (k : Text) → ¬ Occurs k ks → Segs.get k final ≡ Segs.get k m
    same_keys : Segs.keys final ≡ Segs.keys m

  cons-LaidOut :
      (k : Text) (ks : List Text) (m : Segs.Carrier) (off : ℕ) (p : Program)
      → Segs.get k m ≡ some p
      → ¬ Occurs k ks
      → Fixed p off (fix_segment p off)
      → LaidOut ks (Segs.put k (fix_segment p off).0 m) (fix_segment p off).1
      → LaidOut (k ∷ ks) m off
  unfolding fix_segments
  cons-LaidOut k ks m off p e n fixed rest =
      let r = fix_segment p off in
      record {
        final = rest.final;
        stop = rest.stop;
        ends = rw (fix_segments, e) rest.ends;
        chain =
            (r.0, r.1, rest.others k n ∙ Segs.get-put_self k p r.0 m e, fixed.segment, rest.chain);
        others = λ x n'.
            rest.others x (λ o. n' (inr o)) ∙ Segs.get-put_other x k r.0 m (λ e'. n' (inl e'));
        same_keys = rest.same_keys ∙ Segs.keys-put k r.0 m;
      }

  fix_segments-LaidOut :
      (ks : List Text) (m : Segs.Carrier) (off : ℕ)
      → AllDistinct ks
      → Present ks m
      → off % page_size ≡ 0
      → off + room ks m < 2 ^ 32
      → LaidOut ks m off
  fix_segments-LaidOut [] m off d pres a h = record {
    final = m;
    stop = off;
    ends = unfold fix_segments in refl;
    chain = refl;
    others = λ k n. refl;
    same_keys = refl;
  }
  fix_segments-LaidOut (k ∷ ks) m off d pres a h =
      let found = pres k (inl refl) in
      let roomy : room_of (Segs.get k m) ≡ found.0.len + page_size = ap room_of found.1 in
      let fixed = fix_segment-Fixed found.0 off a (omega arith) in
      let r = fix_segment found.0 off in
      cons-LaidOut k ks m off found.0 found.1 d.0 fixed (
        fix_segments-LaidOut ks (Segs.put k r.0 m) r.1 d.1
          (Present-put k r.0 ks m d.0 (λ x o. pres x (inr o))) fixed.segment.aligned
          (omega (arith, fixed.near, room-put k r.0 ks m d.0)))

  -- The loop over the segments ends, and `final` is the map that it leaves.
  pub record InPlace (m : Segs.Carrier) : Type 0 where
    pub final : Segs.Carrier
    pub stop : ℕ
    pub ends : fix_segments Segs (Segs.keys m) m (first_offset Segs m) ≡ some (final, stop)
    pub same_keys : Segs.keys final ≡ Segs.keys m
    pub chain : Chain (Segs.keys m) (first_offset Segs m) final stop
    pub on_page : first_offset Segs m % page_size ≡ 0
    pub behind_headers : sizeof_ehdr + Segs.count m * sizeof_phdr ≤ first_offset Segs m

  -- Whatever order the map gives its keys in: if the segments with their paddings fit in 2^32 bytes,
  -- then the loop over them ends. They lie one behind the other, in this order, each at a multiple of
  -- the page size, behind the headers of the segments.
  pub segments-InPlace :
      (m : Segs.Carrier)
      → first_offset Segs m + room (Segs.keys m) m < 2 ^ 32
      → Segs.count m < 2 ^ 32
      → InPlace m
  segments-InPlace m h h' =
      let first = align_to-page (sizeof_ehdr + Segs.count m * sizeof_phdr) (omega arith) in
      let r =
        fix_segments-LaidOut (Segs.keys m) m (first_offset Segs m) (Segs.keys-distinct m)
          (λ k. Segs.get-key k m) (unfold first_offset in first.0) h in
      record {
        final = r.final;
        stop = r.stop;
        ends = r.ends;
        same_keys = r.same_keys;
        chain = r.chain;
        on_page = unfold first_offset in first.0;
        behind_headers = unfold first_offset in first.1;
      }
