-- ===== src/Elf.antt =====
-- The data of the ELF writer: csrc/include/elf_gen.h, and the structures of <elf.h> that it uses,
-- with the context and the functions of csrc/src/elf_gen.c that add to it.
pub mod Layout
pub mod Write
pub mod Build
pub mod Offsets
pub mod Contents
pub mod Loader
mod Pair
mod Bare
mod Headers
mod Finish
mod Shape
mod Filed
mod Loads
pub mod Image
pub mod Result
pub mod Ready
mod Names
pub mod Sections
mod Tests
use Prim.Native.Nat.{bit_and}
use bfcomp.Prelude.{
  ℕ, zero, suc, ◌+◌, ◌-◌, ◌%◌, ◌^◌, List, [], ◌∷◌, ◌++◌, Option, Bool, true, false, replicate,
  length,
}
use bfcomp.Options.{Text}
use bfcomp.Map.{MapOf}

-- What is left of a number in an `Elf32_Word`, and in an `Elf32_Half`.
abbrev pub word : ℕ → ℕ
word n = n % 2 ^ 32

abbrev pub half : ℕ → ℕ
half n = n % 2 ^ 16

-- `Elf32_Ehdr`, but for the constant fields
pub record Ehdr : Type 0 where
  pub e_entry : ℕ
  pub e_phoff : ℕ
  pub e_shoff : ℕ
  pub e_phentsize : ℕ
  pub e_phnum : ℕ
  pub e_shentsize : ℕ
  pub e_shnum : ℕ
  pub e_shstrndx : ℕ

-- `Elf32_Phdr`
pub record Phdr : Type 0 where
  pub p_type : ℕ
  pub p_offset : ℕ
  pub p_vaddr : ℕ
  pub p_paddr : ℕ
  pub p_filesz : ℕ
  pub p_memsz : ℕ
  pub p_flags : ℕ
  pub p_align : ℕ

-- `Elf32_Shdr`
pub record Shdr : Type 0 where
  pub sh_name : ℕ
  pub sh_type : ℕ
  pub sh_flags : ℕ
  pub sh_addr : ℕ
  pub sh_offset : ℕ
  pub sh_size : ℕ
  pub sh_link : ℕ
  pub sh_info : ℕ
  pub sh_addralign : ℕ
  pub sh_entsize : ℕ

abbrev pub sizeof_ehdr : ℕ
sizeof_ehdr = 52

abbrev pub sizeof_phdr : ℕ
sizeof_phdr = 32

abbrev pub sizeof_shdr : ℕ
sizeof_shdr = 40

-- `program_t`, and `section_t`. The length is a field of its own, since it is also set with no data;
-- `allocated` says that the capacity is not 0.
pub record Program : Type 0 where
  pub phdr : Phdr
  pub bytes : List ℕ
  pub len : ℕ
  pub allocated : Bool

pub record Section : Type 0 where
  pub shdr : Shdr
  pub bytes : List ℕ
  pub len : ℕ
  pub allocated : Bool

abbrev pub page_size : ℕ
page_size = 4096

-- `align_to(val, align)` in `uint64_t`, for an `align` that is a power of two: `& ~(align - 1)` takes
-- the bits of `align - 1` away.
unfoldable pub align_to : ℕ → ℕ → ℕ
align_to val align = let top = (val + (align - 1)) % 2 ^ 64 in top - top % align

-- A header with the fields that an initializer leaves out.
abbrev pub zero_phdr : Phdr
zero_phdr = record {
  p_type = 0;
  p_offset = 0;
  p_vaddr = 0;
  p_paddr = 0;
  p_filesz = 0;
  p_memsz = 0;
  p_flags = 0;
  p_align = 0;
}

abbrev pub zero_shdr : Shdr
zero_shdr = record {
  sh_name = 0;
  sh_type = 0;
  sh_flags = 0;
  sh_addr = 0;
  sh_offset = 0;
  sh_size = 0;
  sh_link = 0;
  sh_info = 0;
  sh_addralign = 0;
  sh_entsize = 0;
}

-- `elf_gen_ctx`, over the two maps.
pub record ElfCtx (Segs : MapOf Program) (Secs : MapOf Section) : Type 0 where
  pub elf_header : Ehdr
  pub segments : Segs.Carrier
  pub sections : Secs.Carrier
  pub shstrtab : Section

module _ {Segs : MapOf Program} {Secs : MapOf Section} where
  unfoldable pub elf_gen_ctx_init : ElfCtx Segs Secs
  elf_gen_ctx_init = record {
    elf_header = record {
      e_entry = 0;
      e_phoff = 0;
      e_shoff = 0;
      e_phentsize = 0;
      e_phnum = 0;
      e_shentsize = 0;
      e_shnum = 0;
      e_shstrndx = 0;
    };
    segments = Segs.empty;
    sections = Secs.empty;
    shstrtab = record { shdr = zero_shdr; bytes = []; len = 0; allocated = false };
  }

  unfoldable pub gen_program_header : Text → Phdr → ElfCtx Segs Secs → ElfCtx Segs Secs
  gen_program_header name h ctx = record ctx {
    segments =
        Segs.set name
          (record {
            phdr = record h { p_align = page_size };
            bytes = [];
            len = 0;
            allocated = false;
          })
          ctx.segments;
  }

  unfoldable pub gen_section_header : Text → Shdr → ElfCtx Segs Secs → ElfCtx Segs Secs
  gen_section_header name h ctx = record ctx {
    sections =
        Secs.set name
          (record {
            shdr = record h { sh_addralign = page_size };
            bytes = [];
            len = 0;
            allocated = false;
          })
          ctx.sections;
  }
