-- ===== src/Elf/Layout.antt =====
-- Offsets, names and sizes: `fix_header_offsets` and `finalize_elf_ctx` of csrc/src/elf_gen.c. A name
-- that a map does not hold is a null pointer that is followed: `none`.
use Prim.Native.Nat.{bit_and}
use bfcomp.Prelude.{
  ℕ, zero, suc, ◌+◌, ◌-◌, ◌*◌, ◌%◌, ◌^◌, List, [], ◌∷◌, ◌++◌, Option, none, some, Bool, true, false,
  ◌&&◌, if◌then◌else◌, length,
}
use bfcomp.Prelude.Text.{codes}
use bfcomp.Options.{Text}
use bfcomp.Map.{MapOf, same_text}
use bfcomp.Elf.{
  word, half, Ehdr, zero_shdr, Program, Section, ElfCtx, page_size, align_to, sizeof_ehdr,
  sizeof_phdr, sizeof_shdr,
}

-- A number as a condition.
abbrev pub is_set : ℕ → Bool
is_set zero = false
is_set (suc n) = true

-- The body of the loop over the segments: the program, and the offset of the next one.
unfoldable pub fix_segment : Program → ℕ → Program × ℕ
fix_segment p offset =
    if is_set p.len && p.allocated
    then (
      record p {
        phdr = record p.phdr {
          p_filesz = word p.len;
          p_memsz = word p.len;
          p_offset = word offset;
        };
      },
      align_to ((offset + p.len) % 2 ^ 64) page_size,
    )
    else if is_set p.len
    then (
      record p { phdr = record p.phdr { p_memsz = word p.len; p_offset = word offset } },
      offset,
    )
    else (p, offset)

module _ (Segs : MapOf Program) where
  unfoldable pub fix_segments : List Text → Segs.Carrier → ℕ → Option (Segs.Carrier × ℕ)
  fix_segments [] m offset = some (m, offset)
  fix_segments (k ∷ ks) m offset = elim (Segs.get k m) [
    | none ↦ none
    | some p ↦ let r = fix_segment p offset in fix_segments ks (Segs.put k r.0 m) r.1
  ]

  -- Behind the ELF header and the table of the program headers.
  unfoldable pub first_offset : Segs.Carrier → ℕ
  first_offset m = align_to (sizeof_ehdr + Segs.count m * sizeof_phdr) page_size

-- `vec_pusharr` on a section.
abbrev pub push_bytes : List ℕ → Section → Section
push_bytes bs s = record s { bytes = s.bytes ++ bs; len = s.len + length bs; allocated = true }

-- The flags and types of <elf.h>.
abbrev pub sht_strtab : ℕ
sht_strtab = 3

abbrev pub sht_nobits : ℕ
sht_nobits = 8

abbrev pub shf_strings : ℕ
shf_strings = 0x20

-- The section of the names, before those of the other sections.
abbrev pub shstrtab_name : Text
shstrtab_name = codes ".shstrtab"

unfoldable pub fresh_shstrtab : Section
fresh_shstrtab = push_bytes (shstrtab_name ++ 0 ∷ []) (
    push_bytes (0 ∷ []) (record {
      shdr = record zero_shdr {
        sh_name = 1;
        sh_type = sht_strtab;
        sh_addralign = page_size;
        sh_flags = shf_strings;
      };
      bytes = [];
      len = 0;
      allocated = false;
    }))

-- The offset behind a section, and the section's header at this offset.
unfoldable pub section_offset : Section → ℕ → ℕ
section_offset s offset =
    if is_set s.len && is_set (bit_and s.shdr.sh_type (2 ^ 32 - 1 - sht_nobits))
    then align_to ((offset + s.len) % 2 ^ 64) page_size
    else offset

unfoldable pub place_section : Section → Option Program → ℕ → Section
place_section s none offset =
    if is_set s.len
    then record s { shdr = record s.shdr { sh_size = word s.len; sh_offset = word offset } }
    else s
place_section s (some p) offset = record s {
  shdr = record s.shdr {
    sh_size = word p.len;
    sh_offset = p.phdr.p_offset;
    sh_addr = p.phdr.p_vaddr;
  };
}

abbrev pub with_name : ℕ → Section → Section
with_name n s = record s { shdr = record s.shdr { sh_name = word n } }

-- `index_of_section`, from the section with index `idx` on; a section is found by its name, since
-- the pointer is that of its node.
unfoldable pub index_from : ℕ → Text → List Text → Option ℕ
index_from idx key [] = none
index_from idx key (k ∷ ks) = if same_text k key then some idx else index_from (suc idx) key ks

module _ (Segs : MapOf Program) (Secs : MapOf Section) where
  -- The loop over the sections.
  unfoldable pub fix_sections :
      List Text → Segs.Carrier → Secs.Carrier → Section → ℕ → Option (Secs.Carrier × Section × ℕ)
  fix_sections [] segs m names offset = some (m, names, offset)
  fix_sections (k ∷ ks) segs m names offset = elim (Secs.get k m) [
    | none ↦ none
    | some s ↦
        let behind = section_offset s offset in
        let placed = place_section (with_name names.len s) (Segs.get k segs) behind in
        fix_sections ks segs (Secs.put k placed m) (push_bytes (k ++ 0 ∷ []) names) behind
  ]

  -- `none` is the -1 that the program returns.
  unfoldable pub index_of_section : Secs.Carrier → Text → Option ℕ
  index_of_section m key = elim (Secs.get key m) [
    | none ↦ none
    | some s ↦ index_from 1 key (Secs.keys m)
  ]

  -- The result of `index_of_section`, in an `Elf32_Half`.
  unfoldable pub shstrndx : Option ℕ → ℕ
  shstrndx none = 2 ^ 16 - 1
  shstrndx (some i) = half i

  -- Behind the two loops: the section of the names is completed and put into the map.
  unfoldable pub add_shstrtab :
      ElfCtx Segs Secs → Segs.Carrier → Secs.Carrier → Section → ℕ → ElfCtx Segs Secs
  add_shstrtab ctx segs m names offset =
      let tab = record names {
        shdr = record names.shdr { sh_size = word names.len; sh_offset = word offset };
      } in
      let m' = Secs.set shstrtab_name tab m in
      record ctx {
        elf_header = record ctx.elf_header {
          e_shstrndx = shstrndx (index_of_section m' shstrtab_name);
        };
        segments = segs;
        sections = m';
        shstrtab = tab;
      }

  unfoldable pub fix_header_offsets : ElfCtx Segs Secs → Option (ElfCtx Segs Secs)
  fix_header_offsets ctx =
      elim (fix_segments Segs (Segs.keys ctx.segments) ctx.segments
        (first_offset Segs ctx.segments)) [
          | none ↦ none
          | some (segs, offset) ↦
              elim (fix_sections (Secs.keys ctx.sections) segs ctx.sections fresh_shstrtab offset) [
                | none ↦ none
                | some (secs, names, behind) ↦ some (add_shstrtab ctx segs secs names behind)
              ]
        ]

  -- `finalize_elf_ctx`: the counts and the offsets of the tables, in the header.
  unfoldable pub with_segments : ℕ → Ehdr → Ehdr
  with_segments zero h = h
  with_segments (suc n) h = record h {
    e_phnum = half (suc n);
    e_phentsize = sizeof_phdr;
    e_phoff = sizeof_ehdr;
  }

  unfoldable pub with_sections : ℕ → ℕ → Ehdr → Ehdr
  with_sections segs secs h = record h {
    e_shnum = half (secs + 1);
    e_shentsize = sizeof_shdr;
    e_shoff = word (sizeof_ehdr + segs * sizeof_phdr);
  }

  unfoldable pub finalize_elf_ctx : ElfCtx Segs Secs → Option (ElfCtx Segs Secs)
  finalize_elf_ctx ctx = elim (fix_header_offsets ctx) [
    | none ↦ none
    | some c ↦
        let segs = Segs.count c.segments in
        some (record c {
          elf_header = with_sections segs (Secs.count c.sections) (with_segments segs c.elf_header);
        })
  ]
