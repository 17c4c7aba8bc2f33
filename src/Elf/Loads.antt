-- ===== src/Elf/Loads.antt =====
-- What is loaded of the file that `gen_elf_file` of csrc/src/elf_gen.c writes.
use bfcomp.Prelude.{
  ℕ, zero, suc, ◌^◌, ◌<◌, ◌≡◌, refl, sym, ap, ap₂, ◌∙◌, subst, ◌⊎◌, List, [], ◌∷◌, some,
  some_injective, arith, inl, inr, length, take, drop, get_elem?,
}
use native.Mathlib.Nat.{mod-eq_of_lt, zero-add}
use bfcomp.Elf.{word, Program}
use bfcomp.Elf.Contents.{StandsAt, suc-add}
use bfcomp.Elf.Pair.{filed_at, zeroed_at}
use bfcomp.Elf.Loader.{Loaded, Image, load_elf}
use bfcomp.Elf.Headers.{IsLoad, loaded, OfTwo, load_elf_headers}
use bfcomp.Elf.Shape.{FileOf}

StandsAt-drop : (m : ℕ) (file bs : List ℕ) → StandsAt file m bs → StandsAt (drop m file) 0 bs
StandsAt-drop zero file bs s = s
StandsAt-drop (suc m) [] bs s = λ i b e. (let q = s i b e in absurd cc)
StandsAt-drop (suc m) (x ∷ file) bs s =
    StandsAt-drop m file bs (λ i b e. sym (ap (get_elem? (x ∷ file)) (suc-add m i)) ∙ s i b e)

take-StandsAt : (file bs : List ℕ) → StandsAt file 0 bs → take (length bs) file ≡ bs
take-StandsAt file [] s = refl
take-StandsAt [] (b ∷ bs) s = (let q = s 0 b refl in absurd cc)
take-StandsAt (x ∷ file) (b ∷ bs) s =
    ap₂ (λ u us. u ∷ us) (some_injective (s 0 b refl))
      (take-StandsAt file bs (λ i c e.
        ap (get_elem? file) (zero-add i)
        ∙ sym (ap (get_elem? (x ∷ file)) (zero-add (suc i)))
        ∙ s (suc i) c e))

-- The fields of a header that the program gives.
pub record Given (p : Program) : Type 0 where
  pub loads : p.phdr.p_type ≡ 1
  pub vaddr : p.phdr.p_vaddr < 2 ^ 32
  pub paddr : p.phdr.p_paddr < 2 ^ 32
  pub flags : p.phdr.p_flags < 2 ^ 32
  pub align : p.phdr.p_align < 2 ^ 32

abbrev segment_of : Program → ℕ → List ℕ → Loaded
segment_of p size bs = record {
  vaddr = p.phdr.p_vaddr;
  flags = p.phdr.p_flags;
  bytes = bs;
  memsz = size;
}

-- A segment with the bytes of a program, and one with none.
abbrev pub with_bytes : Program → Loaded
with_bytes p = record {
  vaddr = p.phdr.p_vaddr;
  flags = p.phdr.p_flags;
  bytes = p.bytes;
  memsz = p.len;
}

abbrev pub with_zeros : Program → Loaded
with_zeros p = record { vaddr = p.phdr.p_vaddr; flags = p.phdr.p_flags; bytes = []; memsz = p.len }

-- The file has the two segments, in one order or in the other.
pub record Loads (file : List ℕ) (entry : ℕ) (text bss : Program) : Type 0 where
  pub image : Image
  pub loads : load_elf file ≡ some image
  pub entered : image.entry ≡ entry
  pub segments :
      (image.segments ≡ with_bytes text ∷ with_zeros bss ∷ [])
      ⊎ (image.segments ≡ with_zeros bss ∷ with_bytes text ∷ [])

module _ (text bss : Program) (g : Given text) (g' : Given bss) (none_filed : bss.phdr.p_filesz ≡ 0)
    (small : text.len < 2 ^ 32) (small' : bss.len < 2 ^ 32)
    (whole : length text.bytes ≡ text.len) where
  text-IsLoad : (n : ℕ) → IsLoad (filed_at n text).phdr
  text-IsLoad n = record {
    loads = g.loads;
    offset = omega arith;
    vaddr = g.vaddr;
    paddr = g.paddr;
    filesz = omega arith;
    memsz = omega arith;
    flags = g.flags;
    align = g.align;
  }

  bss-IsLoad : (n : ℕ) → IsLoad (zeroed_at n bss).phdr
  bss-IsLoad n = record {
    loads = g'.loads;
    offset = omega arith;
    vaddr = g'.vaddr;
    paddr = g'.paddr;
    filesz = omega (arith, none_filed);
    memsz = omega arith;
    flags = g'.flags;
    align = g'.align;
  }

  bss-loaded : (file : List ℕ) (n : ℕ) → loaded file (zeroed_at n bss).phdr ≡ with_zeros bss
  bss-loaded file n = rw (none_filed, mod-eq_of_lt small')

  text-loaded :
      (file : List ℕ) (n : ℕ)
      → StandsAt file (word n) (take text.len text.bytes)
      → loaded file (filed_at n text).phdr ≡ with_bytes text
  text-loaded file n s =
      let all : take text.len text.bytes ≡ text.bytes =
        ap (λ z. take z text.bytes) (sym whole)
        ∙ take-StandsAt text.bytes text.bytes
            (λ i b e. ap (get_elem? text.bytes) (zero-add i) ∙ e) in
      let size : word text.len ≡ text.len = mod-eq_of_lt small in
      ap₂ (λ z bs. segment_of text z bs) size
        (ap (λ z. take z (drop (word n) file)) (size ∙ sym whole)
          ∙ take-StandsAt (drop (word n) file) text.bytes
              (StandsAt-drop (word n) file text.bytes (subst (StandsAt file (word n)) all s)))

  pub file-Loads :
      (entry : ℕ) (file : List ℕ)
      → entry < 2 ^ 32
      → FileOf entry text bss file
      → Loads file entry text bss
  file-Loads entry file lt f = elim f.order [
    | inl (e, e') ↦ record {
      image = _;
      loads =
          load_elf_headers file f.header f.p.phdr f.q.phdr f.heads header
            (subst (λ u. IsLoad u.phdr) (sym e) (text-IsLoad f.at_text))
            (subst (λ u. IsLoad u.phdr) (sym e') (bss-IsLoad f.at_bss));
      entered = f.entered;
      segments = inl (
          ap₂ (λ u v. loaded file u.phdr ∷ loaded file v.phdr ∷ []) e e'
          ∙ ap₂ (λ u v. u ∷ v ∷ []) (text-loaded file f.at_text f.bytes_there)
              (bss-loaded file f.at_bss));
    }
    | inr (e, e') ↦ record {
      image = _;
      loads =
          load_elf_headers file f.header f.p.phdr f.q.phdr f.heads header
            (subst (λ u. IsLoad u.phdr) (sym e) (bss-IsLoad f.at_bss))
            (subst (λ u. IsLoad u.phdr) (sym e') (text-IsLoad f.at_text));
      entered = f.entered;
      segments = inr (
          ap₂ (λ u v. loaded file u.phdr ∷ loaded file v.phdr ∷ []) e e'
          ∙ ap₂ (λ u v. u ∷ v ∷ []) (bss-loaded file f.at_bss)
              (text-loaded file f.at_text f.bytes_there));
    }
  ]
    where
      header : OfTwo f.header
      header = record {
        entry = omega (arith, f.entered);
        phoff = f.phoff;
        phnum = f.phnum;
        phentsize = f.phentsize;
      }
