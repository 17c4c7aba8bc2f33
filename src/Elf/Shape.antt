-- ===== src/Elf/Shape.antt =====
-- The shape of a file with two segments that csrc/src/elf_gen.c writes.
use bfcomp.Prelude.{ℕ, ◌≡◌, ◌⊎◌, List, ◌++◌, take}
use bfcomp.Elf.{word, Ehdr, Program}
use bfcomp.Elf.Write.{ehdr_bytes, phdr_bytes}
use bfcomp.Elf.Contents.{StandsAt}
use bfcomp.Elf.Pair.{filed_at, zeroed_at}

-- Which of two programs are the finished ones, and in which order.
abbrev pub InOrder : Program → Program → ℕ → ℕ → Program → Program → Type 0
InOrder text bss n m p q =
    ((p ≡ filed_at n text) × (q ≡ zeroed_at m bss))
    ⊎ ((p ≡ zeroed_at m bss) × (q ≡ filed_at n text))

-- A file with its headers at the start, and the bytes of the one segment where its header says.
pub record FileOf (entry : ℕ) (text bss : Program) (file : List ℕ) : Type 0 where
  pub header : Ehdr
  pub p : Program
  pub q : Program
  pub at_text : ℕ
  pub at_bss : ℕ
  pub order : InOrder text bss at_text at_bss p q
  pub heads : StandsAt file 0 (ehdr_bytes header ++ (phdr_bytes p.phdr ++ phdr_bytes q.phdr))
  pub bytes_there : StandsAt file (word at_text) (take text.len text.bytes)
  pub entered : header.e_entry ≡ entry
  pub phoff : header.e_phoff ≡ 52
  pub phnum : header.e_phnum ≡ 2
  pub phentsize : header.e_phentsize ≡ 32
