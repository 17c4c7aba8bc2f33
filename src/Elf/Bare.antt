-- ===== src/Elf/Bare.antt =====
-- Sections with no data of their own, in the loops of csrc/src/elf_gen.c over the sections: only the
-- section of the names is written, and behind the segments.
use bfcomp.Prelude.{
  ℕ, ◌^◌, ◌<◌, ◌≤◌, ◌≡◌, ◌≢◌, refl, sym, ap, ◌∙◌, subst, ◌⊎◌, List, [], ◌∷◌, ◌++◌, Option, none,
  some, some_injective, true, false, arith, inl, inr, Bool-cases, take,
}
use bfcomp.Options.{Text}
use bfcomp.Map.{MapOf, Occurs, same_text, eq-same_text, same_text_self}
use bfcomp.Parse.Round.{both}
use bfcomp.Elf.{Program, Section, ElfCtx}
use bfcomp.Elf.Layout.{
  is_set, section_offset, place_section, with_name, push_bytes, shstrtab_name, fix_sections,
  add_shstrtab,
}
use bfcomp.Elf.Write.{write_section, for_each}
use bfcomp.Elf.Contents.{KeptBelow, write_at-KeptBelow}

-- Two texts are the same, or not.
pub same_or_not : (k x : Text) → (k ≡ x) ⊎ (k ≢ x)
same_or_not k x = elim (Bool-cases (same_text k x)) [
  | inl e ↦ inl (eq-same_text k x e)
  | inr e ↦ inr (λ q. let t = sym (same_text_self k) ∙ ap (same_text k) q ∙ e in cc)
]

-- No data, and no length.
pub record Bare (s : Section) : Type 0 where
  pub no_len : s.len ≡ 0
  pub no_data : s.allocated ≡ false

section_offset-Bare : (s : Section) (off : ℕ) → Bare s → section_offset s off ≡ off
unfolding section_offset
section_offset-Bare s off h = rw h.no_len

place_section-Bare :
    (s : Section) (o : Option Program) (off n : ℕ)
    → Bare s
    → Bare (place_section (with_name n s) o off)
unfolding place_section
place_section-Bare s none off n h =
    both Bare (is_set s.len) (record { no_len = h.no_len; no_data = h.no_data })
      (record { no_len = h.no_len; no_data = h.no_data })
place_section-Bare s (some p) off n h = record { no_len = h.no_len; no_data = h.no_data }

module _ (Segs : MapOf Program) (Secs : MapOf Section) where
  abbrev pub AllBare : Secs.Carrier → Type 0
  AllBare m = (k : Text) (s : Section) → Secs.get k m ≡ some s → Bare s

  abbrev Present : List Text → Secs.Carrier → Type 0
  Present ks m = (k : Text) → Occurs k ks → (s : Section) × (Secs.get k m ≡ some s)

  put-AllBare :
      (k : Text) (u v : Section) (m : Secs.Carrier)
      → Secs.get k m ≡ some u
      → Bare v
      → AllBare m
      → AllBare (Secs.put k v m)
  put-AllBare k u v m e b h x s q = elim (same_or_not x k) [
    | inl same ↦
        subst Bare
          (some_injective (
            sym (Secs.get-put_self k u v m e)
            ∙ ap (λ t. Secs.get t (Secs.put k v m)) (sym same)
            ∙ q))
          b
    | inr other ↦ h x s (sym (Secs.get-put_other x k v m other) ∙ q)
  ]

  put-Present :
      (k : Text) (u v : Section) (ks : List Text) (m : Secs.Carrier)
      → Secs.get k m ≡ some u
      → Present ks m
      → Present ks (Secs.put k v m)
  put-Present k u v ks m e h x o = elim (same_or_not x k) [
    | inl same ↦ (v, ap (λ t. Secs.get t (Secs.put k v m)) same ∙ Secs.get-put_self k u v m e)
    | inr other ↦ let (s, q) = h x o in (s, Secs.get-put_other x k v m other ∙ q)
  ]

  -- The loop ends, with no offset changed, and leaves such sections.
  pub record BareLoop (ks : List Text) (segs : Segs.Carrier) (m : Secs.Carrier) (names : Section)
      (off : ℕ) : Type 0 where
    pub final : Secs.Carrier
    pub names_after : Section
    pub ends : fix_sections Segs Secs ks segs m names off ≡ some (final, names_after, off)
    pub bare : AllBare final

  pub fix_sections-BareLoop :
      (ks : List Text) (segs : Segs.Carrier) (m : Secs.Carrier) (names : Section) (off : ℕ)
      → Present ks m
      → AllBare m
      → BareLoop ks segs m names off
  unfolding fix_sections
  fix_sections-BareLoop [] segs m names off p h = record {
    final = m;
    names_after = names;
    ends = refl;
    bare = h;
  }
  fix_sections-BareLoop (k ∷ ks) segs m names off p h =
      let (s, e) = p k (inl refl) in
      let b = h k s e in
      let same : section_offset s off ≡ off = section_offset-Bare s off b in
      let placed = place_section (with_name names.len s) (Segs.get k segs) off in
      let rest =
        fix_sections-BareLoop ks segs (Secs.put k placed m) (push_bytes (k ++ 0 ∷ []) names) off
          (put-Present k s placed ks m e (λ x o. p x (inr o)))
          (put-AllBare k s placed m e (place_section-Bare s (Segs.get k segs) _ names.len b) h) in
      record {
        final = rest.final;
        names_after = rest.names_after;
        ends = rw (fix_sections, e, same) rest.ends;
        bare = rest.bare;
      }

  -- What is written for a section stands behind a place.
  abbrev pub AllBehind : ℕ → Secs.Carrier → Type 0
  AllBehind stop m =
      (k : Text) (s : Section)
      → Secs.get k m ≡ some s
      → s.allocated ≡ true
      → stop ≤ s.shdr.sh_offset

  -- What holds of every section of a map, and of one that is set.
  pub set_all :
      (P : Section → Type 0) (x : Text) (v : Section) (m : Secs.Carrier)
      → P v
      → ((k : Text) (s : Section) → Secs.get k m ≡ some s → P s)
      → (k : Text) (s : Section) → Secs.get k (Secs.set x v m) ≡ some s
      → P s
  set_all P x v m b h k s e = elim (same_or_not k x) [
    | inl same ↦
        let same_value : v ≡ s =
          some_injective (
            sym (Secs.get-set_self x v m) ∙ ap (λ t. Secs.get t (Secs.set x v m)) (sym same) ∙ e) in
        subst P same_value b
    | inr other ↦ h k s (sym (Secs.get-set_other k x v m other) ∙ e)
  ]

  pub add_shstrtab-AllBehind :
      (ctx : ElfCtx Segs Secs) (segs : Segs.Carrier) (m : Secs.Carrier) (names : Section) (off : ℕ)
      → off < 2 ^ 32
      → AllBare m
      → AllBehind off (add_shstrtab Segs Secs ctx segs m names off).sections
  unfolding add_shstrtab
  add_shstrtab-AllBehind ctx segs m names off lt h =
      set_all (λ s. s.allocated ≡ true → off ≤ s.shdr.sh_offset) shstrtab_name _ m
        (λ a. omega arith) (λ k s e a. absurd (let q = (h k s e).no_data in cc))

  KeptBelow-trans : (n : ℕ) (f g h : List ℕ) → KeptBelow n f g → KeptBelow n g h → KeptBelow n f h
  KeptBelow-trans n f g h p q i b lt e = q i b lt (p i b lt e)

  write_section-KeptBelow :
      (s : Section) (stop : ℕ) (file : List ℕ)
      → (s.allocated ≡ true → stop ≤ s.shdr.sh_offset)
      → KeptBelow stop file (write_section s file)
  unfolding write_section
  write_section-KeptBelow s stop file h = elim (Bool-cases s.allocated) [
    | inl a ↦ rw a (λ i b lt e.
        write_at-KeptBelow s.shdr.sh_offset (take s.len s.bytes) file i b (omega (arith, h a)) e)
    | inr a ↦ rw a (λ i b lt e. e)
  ]

  pub for_each-write_section :
      (ks : List Text) (m : Secs.Carrier) (stop : ℕ) (file : List ℕ)
      → Present ks m
      → AllBehind stop m
      → (out : List ℕ) × (for_each Secs write_section ks m file ≡ some out)
        × KeptBelow stop file out
  unfolding for_each
  for_each-write_section [] m stop file p h = (file, refl, λ i b lt e. e)
  for_each-write_section (k ∷ ks) m stop file p h =
      let (s, e) = p k (inl refl) in
      let (out, ends, kept) =
        for_each-write_section ks m stop (write_section s file) (λ x o. p x (inr o)) h in
      (
        out,
        rw (for_each, e) ends,
        KeptBelow-trans stop file _ out (write_section-KeptBelow s stop file (h k s e)) kept,
      )
