-- ===== src/Elf/Loader.antt =====
-- A specification of how Linux loads a 32-bit executable, from the bytes of the file: what it reads of the
-- ELF header and of the table of the program headers. It models no file of the program, and is what the
-- bytes that csrc/src/elf_gen.c writes are held against.
use bfcomp.Prelude.{
  ℕ, zero, suc, ◌+◌, ◌*◌, ◌/◌, ◌%◌, ◌^◌, ◌<◌, ◌≡◌, refl, ap, ap₂, ◌∙◌, subst, List, [], ◌∷◌, ◌++◌,
  Option, none, some, arith, ◌==◌, ◌&&◌, if◌then◌else◌, length, take, drop, get_elem?,
}
use bfcomp.Emit.{le_bytes}
use bfcomp.Elf.Write.{words}
use bfcomp.Elf.Contents.{StandsAt, get_elem?-append_found}

-- A little-endian number of 16 bits, and of 32 bits.
unfoldable pub joined16 : Option ℕ → Option ℕ → Option ℕ
joined16 (some a) (some b) = some (a + 256 * b)
joined16 _ _ = none

unfoldable pub joined32 : Option ℕ → Option ℕ → Option ℕ
joined32 (some a) (some b) = some (a + 65536 * b)
joined32 _ _ = none

unfoldable pub half_at : List ℕ → ℕ → Option ℕ
half_at file n = joined16 (get_elem? file n) (get_elem? file (n + 1))

unfoldable pub word_at : List ℕ → ℕ → Option ℕ
word_at file n = joined32 (half_at file n) (half_at file (n + 2))

unfoldable pub and_word : Option ℕ → Option (List ℕ) → Option (List ℕ)
and_word (some x) (some xs) = some (x ∷ xs)
and_word _ _ = none

unfoldable pub words_at : List ℕ → ℕ → ℕ → Option (List ℕ)
words_at file n zero = some []
words_at file n (suc k) = and_word (word_at file n) (words_at file (n + 4) k)

-- A segment in memory: its address, its flags, the bytes that come from the file, and how many there
-- are with the zeroed ones behind them.
pub record Loaded : Type 0 where
  pub vaddr : ℕ
  pub flags : ℕ
  pub bytes : List ℕ
  pub memsz : ℕ

-- A program header of the type PT_LOAD.
unfoldable pub load_segment : List ℕ → List ℕ → Option Loaded
load_segment file (t ∷ offset ∷ vaddr ∷ paddr ∷ filesz ∷ memsz ∷ flags ∷ align ∷ []) =
    if t == 1
    then some (record {
      vaddr = vaddr;
      flags = flags;
      bytes = take filesz (drop offset file);
      memsz = memsz;
    })
    else none
load_segment file _ = none

unfoldable pub load_header : List ℕ → Option (List ℕ) → Option Loaded
load_header file none = none
load_header file (some ws) = load_segment file ws

unfoldable pub and_segment : Option Loaded → Option (List Loaded) → Option (List Loaded)
and_segment (some x) (some xs) = some (x ∷ xs)
and_segment _ _ = none

-- The table of `k` program headers, of 32 bytes each.
unfoldable pub load_table : List ℕ → ℕ → ℕ → Option (List Loaded)
load_table file n zero = some []
load_table file n (suc k) =
    and_segment (load_header file (words_at file n 8)) (load_table file (n + 32) k)

pub record Image : Type 0 where
  pub entry : ℕ
  pub segments : List Loaded

unfoldable pub with_entry : ℕ → Option (List Loaded) → Option Image
with_entry entry none = none
with_entry entry (some segs) = some (record { entry = entry; segments = segs })

-- From the magic number, the type and machine, the entry, the place of the table, and the size and number
-- of its entries: an executable (2) for the machine EM_386 (3), whose headers take 32 bytes.
unfoldable pub load_fields :
    List ℕ → Option ℕ → Option ℕ → Option (List ℕ) → Option ℕ → Option ℕ → Option Image
load_fields file (some magic) (some kind) (some (entry ∷ phoff ∷ [])) (some size) (some k) =
    if (magic == 0x464C457F) && (kind == 0x00030002) && (size == 32)
    then with_entry entry (load_table file phoff k)
    else none
load_fields file _ _ _ _ _ = none

unfoldable pub load_elf : List ℕ → Option Image
load_elf file =
    load_fields file (word_at file 0) (word_at file 16) (words_at file 24 2) (half_at file 42)
      (half_at file 44)

-- The numbers that were written are read.
module _ (file : List ℕ) where
  pub half_at_bytes :
      (n a b : ℕ)
      → get_elem? file n ≡ some a
      → get_elem? file (n + 1) ≡ some b
      → half_at file n ≡ some (a + 256 * b)
  unfolding half_at joined16
  half_at_bytes n a b e e' = rw (half_at, e, e', joined16)

  pub word_at_bytes :
      (n a b c d : ℕ)
      → get_elem? file n ≡ some a
      → get_elem? file (n + 1) ≡ some b
      → get_elem? file (n + 2) ≡ some c
      → get_elem? file (n + 3) ≡ some d
      → word_at file n ≡ some (a + 256 * b + 65536 * (c + 256 * d))
  unfolding word_at joined32
  word_at_bytes n a b c d e f g k =
      ap₂ joined32 (half_at_bytes n a b e f)
        (half_at_bytes (n + 2) c d g (ap (get_elem? file) (omega arith) ∙ k))

  whole :
      (w : ℕ)
      → w < 2 ^ 32
      → w % 256
          + 256 * (w / 256 % 256)
          + 65536 * (w / 256 / 256 % 256 + 256 * (w / 256 / 256 / 256 % 256))
        ≡ w
  whole w h = omega arith

  pub word_at-le_bytes :
      (n w : ℕ)
      → get_elem? file n ≡ some (w % 256)
      → get_elem? file (n + 1) ≡ some (w / 256 % 256)
      → get_elem? file (n + 2) ≡ some (w / 256 / 256 % 256)
      → get_elem? file (n + 3) ≡ some (w / 256 / 256 / 256 % 256)
      → w < 2 ^ 32
      → word_at file n ≡ some w
  word_at-le_bytes n w e f g k h = word_at_bytes n _ _ _ _ e f g k ∙ ap (λ u. some u) (whole w h)

  word_at-StandsAt : (n w : ℕ) → StandsAt file n (le_bytes w) → w < 2 ^ 32 → word_at file n ≡ some w
  word_at-StandsAt n w s h =
      word_at-le_bytes n w (ap (get_elem? file) (omega arith) ∙ s 0 _ refl) (s 1 _ refl)
        (s 2 _ refl) (s 3 _ refl) h

  abbrev pub AllWords : List ℕ → Type 0
  AllWords [] = Unit
  AllWords (w ∷ ws) = (w < 2 ^ 32) × AllWords ws

  pub StandsAt-left : (n : ℕ) (xs ys : List ℕ) → StandsAt file n (xs ++ ys) → StandsAt file n xs
  StandsAt-left n xs ys s i b e = s i b (get_elem?-append_found xs ys i b e)

  pub StandsAt-right :
      (n : ℕ) (xs ys : List ℕ) → StandsAt file n (xs ++ ys) → StandsAt file (n + length xs) ys
  StandsAt-right n [] ys s = λ i b e. ap (get_elem? file) (omega arith) ∙ s i b e
  StandsAt-right n (x ∷ xs) ys s =
      subst (λ m. StandsAt file m ys) (omega arith)
        (StandsAt-right (suc n) xs ys (λ i b e. ap (get_elem? file) (omega arith) ∙ s (suc i) b e))

  pub words_at-StandsAt :
      (n : ℕ) (ws : List ℕ)
      → StandsAt file n (words ws)
      → AllWords ws
      → words_at file n (length ws) ≡ some ws
  unfolding words_at and_word
  words_at-StandsAt n [] s h = refl
  words_at-StandsAt n (w ∷ ws) s h =
      ap₂ and_word (word_at-StandsAt n w (StandsAt-left n (le_bytes w) (words ws) s) h.0)
        (words_at-StandsAt (n + 4) ws (StandsAt-right n (le_bytes w) (words ws) s) h.1)
