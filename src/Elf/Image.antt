-- ===== src/Elf/Image.antt =====
-- The two segments that `write_elf_file` of csrc/src/main.c makes.
use bfcomp.Prelude.{
  ℕ, ◌+◌, ◌%◌, ◌^◌, ◌<◌, ◌≤◌, ◌≡◌, ◌≢◌, refl, sym, ap, ◌∙◌, List, [], ◌∷◌, ◌++◌, some, true, false,
  arith, length, get_or,
}
use bfcomp.Prelude.Text.{codes}
use bfcomp.Options.{Text}
use bfcomp.Map.{MapOf}
use bfcomp.Emit.{le_bytes, sp_reg}
use bfcomp.Elf.{
  Program, Section, ElfCtx, page_size, align_to, gen_program_header, gen_section_header, Phdr,
}
use bfcomp.Elf.Build.{
  text_addr, text_phdr, bss_phdr, bss_shdr, preload, patch_addr, bss_addr, at_program, and_then,
  start_elf, add_bss, patch_text, build_elf,
}

pub text_not_bss : codes ".text" ≢ codes ".bss"
text_not_bss h = let q : ◌≡◌ {A = ℕ} 116 98 = ap (λ t. get_or t 1 0) h in omega arith

pub bss_addr-page :
    (n : ℕ)
    → n < 2 ^ 31
    → (text_addr + n ≤ bss_addr n) × (bss_addr n % page_size ≡ 0) × (bss_addr n + 30000 ≤ 2 ^ 32)
unfolding bss_addr align_to
bss_addr-page n h = (omega arith, omega arith, omega arith)

pub patch-preload :
    (addr : ℕ) (rest : List ℕ)
    → patch_addr addr (preload ++ rest) ≡ (0xB8 + sp_reg) ∷ (le_bytes addr ++ rest)
unfolding patch_addr
patch-preload addr rest = refl

-- What the finished context holds for code whose part behind `preload` is `rest`.
pub record ImageOf (Segs : MapOf Program) (Secs : MapOf Section) (rest : List ℕ)
    (c : ElfCtx Segs Secs) : Type 0 where
  pub addr : ℕ
  pub text : Program
  pub bss : Program
  pub text_found : Segs.get (codes ".text") c.segments ≡ some text
  pub bss_found : Segs.get (codes ".bss") c.segments ≡ some bss
  pub text_bytes : text.bytes ≡ (0xB8 + sp_reg) ∷ (le_bytes addr ++ rest)
  pub text_len : text.len ≡ length text.bytes
  pub bss_placed : bss.phdr.p_vaddr ≡ addr
  pub bss_len : bss.len ≡ 30000
  pub bss_empty : bss.allocated ≡ false
  pub apart : text_addr + text.len ≤ addr
  pub aligned : addr % page_size ≡ 0
  pub in_range : addr + 30000 ≤ 2 ^ 32
  pub entered : c.elf_header.e_entry ≡ text_addr
  pub loaded : text.phdr.p_vaddr ≡ text_addr

module _ (Segs : MapOf Program) (Secs : MapOf Section) where
  at_program-found :
      (k : Text) (f : Program → Program) (c : ElfCtx Segs Secs) (p : Program)
      → Segs.get k c.segments ≡ some p
      → at_program k f c ≡ some (record c { segments = Segs.put k (f p) c.segments })
  unfolding at_program
  at_program-found k f c p e = rw (at_program, e)

  abbrev pub fresh : Phdr → Program
  fresh h = record {
    phdr = record h { p_align = page_size };
    bytes = [];
    len = 0;
    allocated = false;
  }

  abbrev pub with_code : List ℕ → Program → Program
  with_code code p = record p { bytes = code; len = length code; allocated = true }

  abbrev pub with_len : Program → Program
  with_len p = record p { len = 30000 }

  abbrev pub patched : ℕ → Program → Program
  patched addr p = record p { bytes = patch_addr addr p.bytes }

  -- The contexts after the three assignments.
  module _ (code : List ℕ) where
    abbrev pub addr : ℕ
    addr = bss_addr (length code)

    abbrev pub first : ElfCtx Segs Secs
    first = start_elf

    abbrev pub second : ElfCtx Segs Secs
    second = record first {
      segments = Segs.put (codes ".text") (with_code code (fresh text_phdr)) first.segments;
    }

    abbrev pub second' : ElfCtx Segs Secs
    second' = gen_program_header (codes ".bss") (bss_phdr addr) second

    abbrev pub third : ElfCtx Segs Secs
    third = record second' {
      segments = Segs.put (codes ".bss") (with_len (fresh (bss_phdr addr))) second'.segments;
    }

    abbrev pub third' : ElfCtx Segs Secs
    third' = gen_section_header (codes ".bss") (bss_shdr addr) third

    abbrev pub text_of : Program
    text_of = with_code code (fresh text_phdr)

    abbrev pub fourth : ElfCtx Segs Secs
    fourth = record third' {
      segments = Segs.put (codes ".text") (patched addr text_of) third'.segments;
    }

    found_first : Segs.get (codes ".text") first.segments ≡ some (fresh text_phdr)
    unfolding start_elf gen_section_header gen_program_header
    found_first = Segs.get-set_self (codes ".text") (fresh text_phdr) _

    found_bss : Segs.get (codes ".bss") second'.segments ≡ some (fresh (bss_phdr addr))
    unfolding gen_program_header
    found_bss = Segs.get-set_self (codes ".bss") (fresh (bss_phdr addr)) _

    pub found_text : Segs.get (codes ".text") third'.segments ≡ some text_of
    unfolding gen_program_header gen_section_header
    found_text =
        Segs.get-put_other (codes ".text") (codes ".bss") _ _ text_not_bss
        ∙ Segs.get-set_other (codes ".text") (codes ".bss") _ _ text_not_bss
        ∙ Segs.get-put_self (codes ".text") _ _ _ found_first

    pub found_bss_last :
        Segs.get (codes ".bss") fourth.segments ≡ some (with_len (fresh (bss_phdr addr)))
    unfolding gen_section_header
    found_bss_last =
        Segs.get-put_other (codes ".bss") (codes ".text") _ _ (λ e. text_not_bss (sym e))
        ∙ Segs.get-put_self (codes ".bss") _ _ _ found_bss

    pub build_elf-fourth : build_elf code ≡ some fourth
    unfolding build_elf add_bss patch_text
    build_elf-fourth =
        ap (λ o. and_then o (add_bss addr))
          (at_program-found (codes ".text") (with_code code) first (fresh text_phdr) found_first)
        ∙ ap (λ o. and_then o (patch_text addr))
            (at_program-found (codes ".bss") with_len second' (fresh (bss_phdr addr)) found_bss)
        ∙ at_program-found (codes ".text") (patched addr) third' text_of found_text

  -- For any maps and any code of less than 2^30 bytes behind the preload, the context is built. Its two
  -- segments are `.text`, loaded at the entry, and `.bss`, with 30000 bytes and none in the file; the
  -- first instruction loads the address of `.bss`, which is the start of a page behind `.text`, and
  -- whose bytes have addresses below 2^32.
  pub build_elf-ImageOf :
      (rest : List ℕ)
      → length rest < 2 ^ 30
      → (c : ElfCtx Segs Secs) × (build_elf (preload ++ rest) ≡ some c) × ImageOf Segs Secs rest c
  unfolding patch_addr gen_section_header gen_program_header start_elf
  build_elf-ImageOf rest h =
      let code = preload ++ rest in
      let page = bss_addr-page (length code) (omega arith) in
      (
        fourth code,
        build_elf-fourth code,
        record {
          addr = addr code;
          text = patched (addr code) (text_of code);
          bss = with_len (fresh (bss_phdr (addr code)));
          text_found = Segs.get-put_self (codes ".text") _ _ _ (found_text code);
          bss_found = found_bss_last code;
          text_bytes = patch-preload (addr code) rest;
          text_len = refl;
          bss_placed = refl;
          bss_len = refl;
          bss_empty = refl;
          apart = page.0;
          aligned = page.1;
          in_range = page.2;
          entered = refl;
          loaded = refl;
        },
      )
