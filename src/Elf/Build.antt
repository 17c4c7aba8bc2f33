-- ===== src/Elf/Build.antt =====
-- `write_elf_file` of csrc/src/main.c, which puts the compiled program into an ELF file.
use bfcomp.Prelude.{ℕ, suc, ◌+◌, List, ◌∷◌, ◌++◌, Option, none, some, true, length, take, drop}
use bfcomp.Prelude.Text.{codes}
use bfcomp.Ir.{Ctx}
use bfcomp.Options.{Text}
use bfcomp.Map.{MapOf}
use bfcomp.Emit.{CompileResult, le_bytes, sp_reg}
use bfcomp.Compile.{ir_ctx_compile}
use bfcomp.Elf.{
  word, Phdr, Shdr, Program, Section, ElfCtx, zero_phdr, zero_shdr, align_to, elf_gen_ctx_init,
  gen_program_header, gen_section_header,
}
use bfcomp.Elf.Write.{gen_elf_file}

-- The virtual address of `.text`.
abbrev pub text_addr : ℕ
text_addr = 0x08048000

-- PT_LOAD, with PF_R | PF_X and with PF_R | PF_W.
abbrev pub text_phdr : Phdr
text_phdr = record zero_phdr { p_type = 1; p_vaddr = text_addr; p_flags = 5 }

abbrev pub bss_phdr : ℕ → Phdr
bss_phdr addr = record zero_phdr { p_type = 1; p_vaddr = addr; p_flags = 6 }

-- SHT_PROGBITS with SHF_ALLOC | SHF_EXECINSTR, and SHT_NOBITS with SHF_ALLOC | SHF_WRITE.
abbrev pub text_shdr : Shdr
text_shdr = record zero_shdr { sh_type = 1; sh_flags = 6; sh_addr = text_addr }

abbrev pub bss_shdr : ℕ → Shdr
bss_shdr addr = record zero_shdr { sh_type = 8; sh_flags = 3; sh_addr = addr }

-- The code before that of the program: `mov` of an address to SP_REG.
abbrev pub preload : List ℕ
preload = (0xB8 + sp_reg) ∷ le_bytes text_addr

-- `*(int32_t *)(text->data + 1) = addr`
unfoldable pub patch_addr : ℕ → List ℕ → List ℕ
patch_addr addr bs = take 1 bs ++ (le_bytes addr ++ drop 5 bs)

unfoldable pub bss_addr : ℕ → ℕ
bss_addr text_len = word (align_to (text_addr + text_len) 0x1000)

module _ {Segs : MapOf Program} {Secs : MapOf Section} where
  -- An assignment through a pointer to a program of the map.
  unfoldable pub at_program :
      Text → (Program → Program) → ElfCtx Segs Secs → Option (ElfCtx Segs Secs)
  at_program name f ctx = elim (Segs.get name ctx.segments) [
    | none ↦ none
    | some p ↦ some (record ctx { segments = Segs.put name (f p) ctx.segments })
  ]

  abbrev pub and_then :
      Option (ElfCtx Segs Secs)
      → (ElfCtx Segs Secs → Option (ElfCtx Segs Secs))
      → Option (ElfCtx Segs Secs)
  and_then none f = none
  and_then (some c) f = f c

  -- The headers of `.text`, and its address as the entry.
  unfoldable pub start_elf : ElfCtx Segs Secs
  start_elf =
      let c =
        gen_section_header (codes ".text") text_shdr
          (gen_program_header (codes ".text") text_phdr elf_gen_ctx_init) in
      record c { elf_header = record c.elf_header { e_entry = text_addr } }

  -- The headers of `.bss`, and its address patched into the code.
  unfoldable pub patch_text : ℕ → ElfCtx Segs Secs → Option (ElfCtx Segs Secs)
  patch_text addr c =
      at_program (codes ".text") (λ p. record p { bytes = patch_addr addr p.bytes })
        (gen_section_header (codes ".bss") (bss_shdr addr) c)

  unfoldable pub add_bss : ℕ → ElfCtx Segs Secs → Option (ElfCtx Segs Secs)
  add_bss addr c =
      and_then
        (at_program (codes ".bss") (λ p. record p { len = 30000 })
          (gen_program_header (codes ".bss") (bss_phdr addr) c))
        (patch_text addr)

  -- The context with the code, before it is written.
  unfoldable pub build_elf : List ℕ → Option (ElfCtx Segs Secs)
  build_elf code =
      and_then
        (at_program (codes ".text")
          (λ p. record p { bytes = code; len = length code; allocated = true }) start_elf)
        (add_bss (bss_addr (length code)))

module _ (Segs : MapOf Program) (Secs : MapOf Section) where
  unfoldable pub write_code : Option (CompileResult × List ℕ) → Option (List ℕ)
  write_code none = none
  write_code (some (err, code)) = elim (build_elf {Segs = Segs} {Secs = Secs} code) [
    | none ↦ none
    | some c ↦ gen_elf_file Segs Secs c
  ]

  -- `write_elf_file`: it does not look at the result of `ir_ctx_compile`.
  unfoldable pub write_elf_file : Ctx → Option (List ℕ)
  write_elf_file c = write_code (ir_ctx_compile (suc (suc (length c.code))) c preload)
