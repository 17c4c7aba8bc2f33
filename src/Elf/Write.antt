-- ===== src/Elf/Write.antt =====
-- The bytes of the output: `gen_elf_file` of csrc/src/elf_gen.c. A file is the list of its bytes.
use bfcomp.Prelude.{
  ℕ, zero, suc, ◌%◌, ◌/◌, List, [], ◌∷◌, ◌++◌, Option, none, some, true, false, length, take, drop,
  replicate,
}
use bfcomp.Options.{Text}
use bfcomp.Map.{MapOf}
use bfcomp.Emit.{le_bytes}
use bfcomp.Elf.{Ehdr, Phdr, Shdr, zero_shdr, Program, Section, ElfCtx, sizeof_ehdr}
use bfcomp.Elf.Layout.{finalize_elf_ctx}

-- The bytes of an `Elf32_Half`.
abbrev pub le_half : ℕ → List ℕ
le_half n = n % 256 ∷ n / 256 % 256 ∷ []

-- `e_ident`: the magic bytes, ELFCLASS32, ELFDATA2LSB, EV_CURRENT and ELFOSABI_NONE.
abbrev pub e_ident : List ℕ
e_ident = 0x7F ∷ b'E' ∷ b'L' ∷ b'F' ∷ 1 ∷ 1 ∷ 1 ∷ replicate 9 0

-- The headers as they lie in memory; the type is ET_EXEC and the machine EM_386.
unfoldable pub ehdr_bytes : Ehdr → List ℕ
ehdr_bytes h =
    e_ident
    ++ (le_half 2
        ++ (le_half 3
            ++ (le_bytes 1
                ++ (le_bytes h.e_entry
                    ++ (le_bytes h.e_phoff
                        ++ (le_bytes h.e_shoff
                            ++ (le_bytes 0
                                ++ (le_half sizeof_ehdr
                                    ++ (le_half h.e_phentsize
                                        ++ (le_half h.e_phnum
                                            ++ (le_half h.e_shentsize
                                                ++ (le_half h.e_shnum
                                                    ++ le_half h.e_shstrndx))))))))))))

abbrev pub words : List ℕ → List ℕ
words [] = []
words (x ∷ xs) = le_bytes x ++ words xs

unfoldable pub phdr_bytes : Phdr → List ℕ
phdr_bytes h = words (
    h.p_type ∷ h.p_offset ∷ h.p_vaddr ∷ h.p_paddr ∷ h.p_filesz ∷ h.p_memsz ∷ h.p_flags ∷ h.p_align
    ∷ [])

unfoldable pub shdr_bytes : Shdr → List ℕ
shdr_bytes h = words (
    h.sh_name ∷ h.sh_type ∷ h.sh_flags ∷ h.sh_addr ∷ h.sh_offset ∷ h.sh_size ∷ h.sh_link ∷ h.sh_info
    ∷ h.sh_addralign ∷ h.sh_entsize ∷ [])

-- `fseek` to a place and `fwrite` there: what is skipped behind the end is filled with zeros.
unfoldable pub overlay : ℕ → List ℕ → List ℕ → List ℕ
overlay zero bs file = bs ++ drop (length bs) file
overlay (suc n) bs [] = 0 ∷ overlay n bs []
overlay (suc n) bs (x ∷ xs) = x ∷ overlay n bs xs

unfoldable pub write_at : ℕ → List ℕ → List ℕ → List ℕ
write_at n [] file = file
write_at n (b ∷ bs) file = overlay n (b ∷ bs) file

unfoldable pub write_program : Program → List ℕ → List ℕ
write_program p file = elim p.allocated [
  | true ↦ write_at p.phdr.p_offset (take p.len p.bytes) file
  | false ↦ file
]

unfoldable pub write_section : Section → List ℕ → List ℕ
write_section s file = elim s.allocated [
  | true ↦ write_at s.shdr.sh_offset (take s.len s.bytes) file
  | false ↦ file
]

-- A loop that writes something for each value of a map.
module _ {V : Type 0} (M : MapOf V) (f : V → List ℕ → List ℕ) where
  unfoldable pub for_each : List Text → M.Carrier → List ℕ → Option (List ℕ)
  for_each [] m file = some file
  for_each (k ∷ ks) m file = elim (M.get k m) [ none ↦ none | some v ↦ for_each ks m (f v file) ]

abbrev pub then_write : Option (List ℕ) → (List ℕ → Option (List ℕ)) → Option (List ℕ)
then_write none f = none
then_write (some file) f = f file

module _ (Segs : MapOf Program) (Secs : MapOf Section) where
  -- The tables, one after the other, and then the data at their places.
  unfoldable pub write_all : ElfCtx Segs Secs → Option (List ℕ)
  write_all ctx =
      let segs = ctx.segments in
      let secs = ctx.sections in
      then_write
        (for_each Segs (λ p file. file ++ phdr_bytes p.phdr) (Segs.keys segs) segs
          (ehdr_bytes ctx.elf_header))
        (λ file.
          then_write
            (for_each Secs (λ s out. out ++ shdr_bytes s.shdr) (Secs.keys secs) secs
              (file ++ shdr_bytes zero_shdr))
            (λ tables.
              then_write (for_each Segs write_program (Segs.keys segs) segs tables)
                (for_each Secs write_section (Secs.keys secs) secs)))

  unfoldable pub gen_elf_file : ElfCtx Segs Secs → Option (List ℕ)
  gen_elf_file ctx = elim (finalize_elf_ctx Segs Secs ctx) [ none ↦ none | some c ↦ write_all c ]
