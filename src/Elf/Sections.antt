-- ===== src/Elf/Sections.antt =====
-- What the section headers of a file say, by `fix_header_offsets` of csrc/src/elf_gen.c.
use bfcomp.Prelude.{
  ℕ, suc, ◌+◌, ◌^◌, ◌<◌, ◌≡◌, ◌≢◌, refl, sym, ap, ◌∙◌, subst, List, [], ◌∷◌, ◌++◌, some, false,
  arith, inl, inr, Bool-cases, get_elem?,
}
use bfcomp.Options.{Text}
use bfcomp.Map.{MapOf, Occurs, same_text, eq-same_text, same_text_self}
use bfcomp.Elf.{half, Program, Section, ElfCtx}
use bfcomp.Elf.Layout.{
  first_offset, shstrtab_name, fresh_shstrtab, index_from, index_of_section, shstrndx, add_shstrtab,
  fix_header_offsets,
}
use bfcomp.Elf.Contents.{StandsAt}
use bfcomp.Elf.Offsets.{room, segments-InPlace}
use bfcomp.Elf.Names.{name_bytes, names_room, middle-StandsAt, HasName, fix_sections-NamedLoop}

module _ (Segs : MapOf Program) (Secs : MapOf Section) where
  behind_first :
      (idx : ℕ) (key k : Text) (ks : List Text)
      → same_text k key ≡ false
      → Occurs key (k ∷ ks)
      → Occurs key ks
  behind_first idx key k ks e (inl q) =
      absurd (let t = sym (same_text_self k) ∙ ap (same_text k) (sym q) ∙ e in cc)
  behind_first idx key k ks e (inr o) = o

  index_found :
      (idx : ℕ) (key : Text) (ks : List Text)
      → Occurs key ks
      → (i : ℕ) × (index_from idx key ks ≡ some (idx + i)) × (get_elem? ks i ≡ some key)
  unfolding index_from
  index_found idx key [] o = absurd o
  index_found idx key (k ∷ ks) o = elim (Bool-cases (same_text k key)) [
    | inl e ↦ (0, rw e (ap (λ n. some n) (omega arith)), ap (λ t. some t) (eq-same_text k key e))
    | inr e ↦
        let (i, q, found) = index_found (suc idx) key ks (behind_first idx key k ks e o) in
        (suc i, rw e (q ∙ ap (λ n. some n) (omega arith)), found)
  ]

  index_told_by :
      (m : Secs.Carrier) (tab : Section) (i : ℕ)
      → Secs.get shstrtab_name m ≡ some tab
      → index_from 1 shstrtab_name (Secs.keys m) ≡ some (1 + i)
      → shstrndx Segs Secs (index_of_section Segs Secs m shstrtab_name) ≡ half (suc i)
  unfolding index_of_section shstrndx
  index_told_by m tab i e q = rw (index_of_section, e) (rw q (ap half (omega arith)))

  own_name :
      (table : Section) (more : List ℕ)
      → table.bytes ≡ fresh_shstrtab.bytes ++ more
      → table.shdr.sh_name ≡ fresh_shstrtab.shdr.sh_name
      → StandsAt table.bytes table.shdr.sh_name (name_bytes shstrtab_name)
  unfolding fresh_shstrtab
  own_name table more e q =
      subst (λ n. StandsAt table.bytes n (name_bytes shstrtab_name)) (sym q)
        (subst (λ bs. StandsAt bs 1 (name_bytes shstrtab_name)) (sym e)
          (middle-StandsAt (0 ∷ []) (name_bytes shstrtab_name) more))

  -- What the sections of a finished context say.
  pub record WellNamed (m : Secs.Carrier) (c : ElfCtx Segs Secs) : Type 0 where
    pub index : ℕ
    pub tab_found : Secs.get shstrtab_name c.sections ≡ some c.shstrtab
    pub tab_named : StandsAt c.shstrtab.bytes c.shstrtab.shdr.sh_name (name_bytes shstrtab_name)
    pub tab_index : get_elem? (Secs.keys c.sections) index ≡ some shstrtab_name
    pub index_told : c.elf_header.e_shstrndx ≡ half (suc index)
    pub named :
        (k : Text)
        → Occurs k (Secs.keys m)
        → k ≢ shstrtab_name
        → HasName Segs Secs k c.sections c.shstrtab.bytes

  -- For any maps: if the segments with their paddings, and the names of the sections with their NULs, fit in 2^32
  -- bytes, then `fix_header_offsets` ends. The header of each section, but one that has the name of the section of
  -- the names, then names a place in that section's data where the section's name stands, with a NUL behind it. The
  -- section of the names is in the map, its own name stands where its header says, and `e_shstrndx` is its place
  -- among the sections, counted from 1, in 16 bits.
  pub fix_header_offsets-WellNamed :
      (ctx : ElfCtx Segs Secs)
      → first_offset Segs ctx.segments + room Segs (Segs.keys ctx.segments) ctx.segments < 2 ^ 32
      → Segs.count ctx.segments < 2 ^ 32
      → 11 + names_room (Secs.keys ctx.sections) < 2 ^ 32
      → (c : ElfCtx Segs Secs) × (fix_header_offsets Segs Secs ctx ≡ some c)
        × WellNamed ctx.sections c
  unfolding fix_header_offsets add_shstrtab fresh_shstrtab shstrndx index_of_section
  fix_header_offsets-WellNamed ctx h h' h'' =
      let place = segments-InPlace Segs ctx.segments h h' in
      let loop =
        fix_sections-NamedLoop Segs Secs (Secs.keys ctx.sections) place.final ctx.sections
          fresh_shstrtab place.stop (Secs.keys-distinct ctx.sections)
          (λ k. Secs.get-key k ctx.sections) refl (omega (arith, h'')) in
      let c = add_shstrtab Segs Secs ctx place.final loop.final loop.table loop.behind in
      let found : Secs.get shstrtab_name c.sections ≡ some c.shstrtab =
        Secs.get-set_self shstrtab_name c.shstrtab loop.final in
      let (i, index, key) =
        index_found 1 shstrtab_name (Secs.keys c.sections)
          (Secs.key-get shstrtab_name c.shstrtab c.sections found) in
      (
        c,
        rw (fix_header_offsets, place.ends, loop.ends),
        record {
          index = i;
          tab_found = found;
          tab_named = own_name loop.table loop.more loop.grows loop.same_name;
          tab_index = key;
          index_told = index_told_by c.sections c.shstrtab i found index;
          named = λ k o n.
              let (s, e, stands) = loop.named k o in
              (s, Secs.get-set_other k shstrtab_name c.shstrtab loop.final n ∙ e, stands);
        },
      )
