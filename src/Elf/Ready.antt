-- ===== src/Elf/Ready.antt =====
-- The file that `write_elf_file` of csrc/src/main.c writes, as it is loaded.
use bfcomp.Prelude.{
  ℕ, suc, ◌+◌, ◌^◌, ◌<◌, ◌≤◌, ◌≡◌, ◌≢◌, refl, ap, ◌∙◌, ◌⊎◌, List, [], ◌∷◌, ◌++◌, none, some, arith,
  inl, inr, length,
}
use bfcomp.Prelude.Text.{codes}
use bfcomp.Options.{Text}
use bfcomp.Map.{MapOf, Occurs}
use bfcomp.Map.Keys.{two_keys}
use bfcomp.Emit.{CompileResult, le_bytes, sp_reg}
use bfcomp.Elf.{Program, Section, ElfCtx, elf_gen_ctx_init, gen_program_header, gen_section_header}
use bfcomp.Elf.Build.{text_addr, preload, bss_phdr, patch_addr, start_elf, write_code}
use bfcomp.Elf.Image.{
  text_not_bss, bss_addr-page, patch-preload, fresh, with_len, patched, addr, text_of, fourth,
  found_text, found_bss_last, build_elf-fourth,
}
use bfcomp.Elf.Bare.{same_or_not, Bare, AllBare, set_all}
use bfcomp.Elf.Finish.{PairCtx}
use bfcomp.Elf.Filed.{gen_elf_file-FileOf}
use bfcomp.Elf.Loader.{Loaded, Image, load_elf}
use bfcomp.Elf.Loads.{Given, file-Loads}

module _ (Segs : MapOf Program) (Secs : MapOf Section) (code : List ℕ) where
  abbrev ctx : ElfCtx Segs Secs
  ctx = fourth Segs Secs code

  abbrev text : Program
  text = patched Segs Secs (addr Segs Secs code) (text_of Segs Secs code)

  abbrev bss : Program
  bss = with_len Segs Secs (fresh Segs Secs (bss_phdr (addr Segs Secs code)))

  text_there : Segs.get (codes ".text") ctx.segments ≡ some text
  text_there = Segs.get-put_self (codes ".text") _ _ _ (found_text Segs Secs code)

  bss_there : Segs.get (codes ".bss") ctx.segments ≡ some bss
  bss_there = found_bss_last Segs Secs code

  -- No other key has a segment.
  no_other : (k : Text) → k ≢ codes ".text" → k ≢ codes ".bss" → Segs.get k ctx.segments ≡ none
  unfolding gen_program_header gen_section_header start_elf elf_gen_ctx_init
  no_other k h h' =
      Segs.get-put_other k (codes ".text") _ _ h
      ∙ Segs.get-put_other k (codes ".bss") _ _ h'
      ∙ Segs.get-set_other k (codes ".bss") _ _ h'
      ∙ Segs.get-put_other k (codes ".text") _ _ h
      ∙ Segs.get-set_other k (codes ".text") _ _ h
      ∙ Segs.get-empty k

  two_counted : Segs.count ctx.segments ≡ 2
  unfolding gen_program_header gen_section_header start_elf elf_gen_ctx_init
  two_counted =
      Segs.count-put (codes ".text") _ _
      ∙ Segs.count-put (codes ".bss") _ _
      ∙ Segs.count-set (codes ".bss") _ _
      ∙ ap suc (
          Segs.count-put (codes ".text") _ _
          ∙ Segs.count-set (codes ".text") _ _
          ∙ ap suc Segs.count-empty)

  only_two :
      (k : Text) → Occurs k (Segs.keys ctx.segments) → (k ≡ codes ".text") ⊎ (k ≡ codes ".bss")
  only_two k o = elim (same_or_not k (codes ".text")) [
    | inl e ↦ inl e
    | inr h ↦ elim (same_or_not k (codes ".bss")) [
      | inl e ↦ inr e
      | inr h' ↦
          absurd (let (v, found) = Segs.get-key k ctx.segments o in let q = no_other k h h' in cc)
    ]
  ]

  sections_bare : AllBare Segs Secs ctx.sections
  unfolding gen_program_header gen_section_header start_elf elf_gen_ctx_init
  sections_bare =
      set_all Segs Secs Bare (codes ".bss") _ _ (record { no_len = refl; no_data = refl })
        (set_all Segs Secs Bare (codes ".text") _ _ (record { no_len = refl; no_data = refl })
          (λ k s e. absurd (let q = Secs.get-empty k in cc)))

  fourth-PairCtx :
      length code ≢ 0
      → length code < 2 ^ 31
      → PairCtx Segs Secs (codes ".text") (codes ".bss") text bss ctx
  fourth-PairCtx h lt = record {
    apart = text_not_bss;
    text_found = text_there;
    bss_found = bss_there;
    keys =
        two_keys (codes ".text") (codes ".bss") text_not_bss (Segs.keys ctx.segments)
          (Segs.keys-distinct ctx.segments) (Segs.key-get _ _ _ text_there)
          (Segs.key-get _ _ _ bss_there) only_two;
    counted = two_counted;
    bare = sections_bare;
    in_file = refl;
    not_in_file = refl;
    text_len = h;
    bss_len = λ e. absurd (omega arith);
    fits = lt;
  }

abbrev pub code_bytes : ℕ → List ℕ → List ℕ
code_bytes tape_addr rest = (0xB8 + sp_reg) ∷ (le_bytes tape_addr ++ rest)

abbrev pub code_segment : ℕ → List ℕ → Loaded
code_segment tape_addr rest = record {
  vaddr = text_addr;
  flags = 5;
  bytes = code_bytes tape_addr rest;
  memsz = length (code_bytes tape_addr rest);
}

abbrev pub tape_segment : ℕ → Loaded
tape_segment tape_addr = record { vaddr = tape_addr; flags = 6; bytes = []; memsz = 30000 }

-- The file is loaded as two segments, in one order or in the other: the code, with the address of the
-- tape in its first instruction, at the entry, and the tape of 30000 zeroed bytes.
pub record Executable (file rest : List ℕ) : Type 0 where
  pub image : Image
  pub tape_addr : ℕ
  pub loads : load_elf file ≡ some image
  pub entered : image.entry ≡ text_addr
  pub segments :
      (image.segments ≡ code_segment tape_addr rest ∷ tape_segment tape_addr ∷ [])
      ⊎ (image.segments ≡ tape_segment tape_addr ∷ code_segment tape_addr rest ∷ [])
  pub apart : text_addr + length (code_bytes tape_addr rest) ≤ tape_addr
  pub in_range : tape_addr + 30000 ≤ 2 ^ 32

module _ (Segs : MapOf Program) (Secs : MapOf Section) where
  text-Given : (code : List ℕ) → Given (text Segs Secs code)
  text-Given code = record {
    loads = refl;
    vaddr = omega arith;
    paddr = omega arith;
    flags = omega arith;
    align = omega arith;
  }

  bss-Given : (code : List ℕ) → length code < 2 ^ 31 → Given (bss Segs Secs code)
  bss-Given code lt = record {
    loads = refl;
    vaddr = omega (arith, (bss_addr-page (length code) lt).2);
    paddr = omega arith;
    flags = omega arith;
    align = omega arith;
  }

  -- For any maps, any result of the compiler and any code of less than 2^30 bytes behind the preload, a file is
  -- written. A loader that reads the ELF header and the table of the program headers from the bytes of this file
  -- accepts it. It finds the address of the code as the entry, and two segments, in one order or the other: the
  -- code, with the address of the other segment in its first instruction, and 30000 zeroed bytes, behind the code
  -- and below the address 2^32.
  pub write_code-Executable :
      (err : CompileResult) (rest : List ℕ)
      → length rest < 2 ^ 30
      → (file : List ℕ) × (write_code Segs Secs (some (err, preload ++ rest)) ≡ some file)
        × Executable file rest
  unfolding write_code patch_addr start_elf gen_section_header gen_program_header
  write_code-Executable err rest lt =
      let code = preload ++ rest in
      let page = bss_addr-page (length code) (omega arith) in
      let pair = fourth-PairCtx Segs Secs code (λ e. absurd (omega (arith, e))) (omega arith) in
      let (file, written, f) =
        gen_elf_file-FileOf Segs Secs (codes ".text") (codes ".bss") (text Segs Secs code)
          (bss Segs Secs code) (ctx Segs Secs code) pair in
      let l =
        file-Loads (text Segs Secs code) (bss Segs Secs code) (text-Given code)
          (bss-Given code (omega arith)) refl (omega arith) (omega arith)
          (ap length (patch-preload (addr Segs Secs code) rest)) text_addr file (omega arith) f in
      (
        file,
        rw (write_code, build_elf-fourth Segs Secs code) written,
        record {
          image = l.image;
          tape_addr = addr Segs Secs code;
          loads = l.loads;
          entered = l.entered;
          segments = l.segments;
          apart = page.0;
          in_range = page.2;
        },
      )
