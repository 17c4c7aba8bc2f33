-- ===== src/Elf/Headers.antt =====
-- The headers at the start of a file that csrc/src/elf_gen.c writes, as the loader reads them.
use bfcomp.Prelude.{
  ℕ, ◌+◌, ◌*◌, ◌/◌, ◌%◌, ◌^◌, ◌<◌, ◌≡◌, refl, ap, ap₂, ◌∙◌, List, [], ◌∷◌, ◌++◌, some, arith, take,
  drop,
}
use bfcomp.Elf.{Ehdr, Phdr}
use bfcomp.Elf.Write.{ehdr_bytes, phdr_bytes}
use bfcomp.Elf.Contents.{StandsAt}
use bfcomp.Elf.Loader.{
  Loaded, half_at, word_at, words_at, and_word, load_segment, load_header, load_table, and_segment,
  with_entry, load_fields, load_elf, half_at_bytes, word_at_bytes, word_at-le_bytes, StandsAt-left,
  StandsAt-right, words_at-StandsAt,
}

-- The fields of a program header of the type PT_LOAD are words.
pub record IsLoad (h : Phdr) : Type 0 where
  pub loads : h.p_type ≡ 1
  pub offset : h.p_offset < 2 ^ 32
  pub vaddr : h.p_vaddr < 2 ^ 32
  pub paddr : h.p_paddr < 2 ^ 32
  pub filesz : h.p_filesz < 2 ^ 32
  pub memsz : h.p_memsz < 2 ^ 32
  pub flags : h.p_flags < 2 ^ 32
  pub align : h.p_align < 2 ^ 32

-- What is loaded for such a header.
abbrev pub loaded : List ℕ → Phdr → Loaded
loaded file h = record {
  vaddr = h.p_vaddr;
  flags = h.p_flags;
  bytes = take h.p_filesz (drop h.p_offset file);
  memsz = h.p_memsz;
}

-- What the loader takes from the ELF header for a table of two.
pub record OfTwo (h : Ehdr) : Type 0 where
  pub entry : h.e_entry < 2 ^ 32
  pub phoff : h.e_phoff ≡ 52
  pub phnum : h.e_phnum ≡ 2
  pub phentsize : h.e_phentsize ≡ 32

module _ (file : List ℕ) where
  load_header-IsLoad :
      (n : ℕ) (h : Phdr)
      → StandsAt file n (phdr_bytes h)
      → IsLoad h
      → load_header file (words_at file n 8) ≡ some (loaded file h)
  unfolding phdr_bytes load_header load_segment
  load_header-IsLoad n h s l =
      ap (load_header file) (
        words_at-StandsAt file n
          (h.p_type ∷ h.p_offset ∷ h.p_vaddr ∷ h.p_paddr ∷ h.p_filesz ∷ h.p_memsz ∷ h.p_flags
            ∷ h.p_align ∷ [])
          s
          (
            omega (arith, l.loads),
            (l.offset, (l.vaddr, (l.paddr, (l.filesz, (l.memsz, (l.flags, (l.align, tt))))))),
          ))
      ∙ rw l.loads

  module _ (h : Ehdr) (h₁ h₂ : Phdr)
      (s : StandsAt file 0 (ehdr_bytes h ++ (phdr_bytes h₁ ++ phdr_bytes h₂))) (t : OfTwo h) where
    magic : word_at file 0 ≡ some 0x464C457F
    unfolding ehdr_bytes
    magic =
        word_at_bytes file 0 0x7F b'E' b'L' b'F' (s 0 _ refl) (s 1 _ refl) (s 2 _ refl) (s 3 _ refl)

    kind : word_at file 16 ≡ some 0x00030002
    unfolding ehdr_bytes
    kind = word_at_bytes file 16 2 0 3 0 (s 16 _ refl) (s 17 _ refl) (s 18 _ refl) (s 19 _ refl)

    entered : word_at file 24 ≡ some h.e_entry
    unfolding ehdr_bytes
    entered =
        word_at-le_bytes file 24 h.e_entry (s 24 _ refl) (s 25 _ refl) (s 26 _ refl) (s 27 _ refl)
          t.entry

    table_at : word_at file 28 ≡ some 52
    unfolding ehdr_bytes
    table_at =
        word_at-le_bytes file 28 h.e_phoff (s 28 _ refl) (s 29 _ refl) (s 30 _ refl) (s 31 _ refl)
          (omega (arith, t.phoff))
        ∙ ap (λ u. some u) t.phoff

    entry_size : half_at file 42 ≡ some 32
    unfolding ehdr_bytes
    entry_size =
        half_at_bytes file 42 (h.e_phentsize % 256) (h.e_phentsize / 256 % 256) (s 42 _ refl)
          (s 43 _ refl)
        ∙ ap (λ u. some (u % 256 + 256 * (u / 256 % 256))) t.phentsize

    entries : half_at file 44 ≡ some 2
    unfolding ehdr_bytes
    entries =
        half_at_bytes file 44 (h.e_phnum % 256) (h.e_phnum / 256 % 256) (s 44 _ refl) (s 45 _ refl)
        ∙ ap (λ u. some (u % 256 + 256 * (u / 256 % 256))) t.phnum

    module _ (l₁ : IsLoad h₁) (l₂ : IsLoad h₂) where
      headers : StandsAt file 52 (phdr_bytes h₁ ++ phdr_bytes h₂)
      unfolding ehdr_bytes
      headers = StandsAt-right file 0 (ehdr_bytes h) (phdr_bytes h₁ ++ phdr_bytes h₂) s

      second : StandsAt file 84 (phdr_bytes h₂)
      unfolding phdr_bytes
      second = StandsAt-right file 52 (phdr_bytes h₁) (phdr_bytes h₂) headers

      table : load_table file 52 2 ≡ some (loaded file h₁ ∷ loaded file h₂ ∷ [])
      unfolding load_table and_segment
      table =
          ap₂ (λ x y. and_segment x (and_segment y (some [])))
            (load_header-IsLoad 52 h₁
              (StandsAt-left file 52 (phdr_bytes h₁) (phdr_bytes h₂) headers) l₁)
            (load_header-IsLoad 84 h₂ second l₂)

      -- The loader finds the entry and the two segments.
      pub load_elf_headers :
          load_elf file
          ≡ some (record { entry = h.e_entry; segments = loaded file h₁ ∷ loaded file h₂ ∷ [] })
      unfolding load_elf load_fields words_at and_word with_entry
      load_elf_headers =
          rw (load_elf, magic, kind, entered, table_at, entry_size, entries) (rw table)
