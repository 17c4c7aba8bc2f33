-- ===== src/Elf/Finish.antt =====
-- The file that `gen_elf_file` of csrc/src/elf_gen.c writes for a context with two segments, of which one
-- has its bytes in the file, and sections without data.
use bfcomp.Prelude.{
  ℕ, ◌+◌, ◌^◌, ◌<◌, ◌≤◌, ◌≡◌, ◌≢◌, refl, sym, ap, ◌∙◌, subst, ◌⊎◌, List, [], ◌∷◌, ◌++◌, some, true,
  false, arith, inl, inr, length, get_elem?,
}
use mathlib.Core.List.{append_assoc, append-nil}
use bfcomp.Options.{Text}
use bfcomp.Map.{MapOf, Occurs}
use bfcomp.Prog.Placed.{lt-length_of_get_elem?}
use bfcomp.Elf.{Program, Section, ElfCtx, align_to}
use bfcomp.Elf.Layout.{
  first_offset, fresh_shstrtab, add_shstrtab, with_segments, with_sections, fix_header_offsets,
  finalize_elf_ctx,
}
use bfcomp.Elf.Write.{for_each}
use bfcomp.Elf.Contents.{StandsAt, KeptBelow, get_elem?-append_found}
use bfcomp.Elf.Pair.{Laid, text_first, bss_first}
use bfcomp.Elf.Bare.{AllBare, BareLoop, fix_sections-BareLoop}

-- The context before it is written.
pub record PairCtx (Segs : MapOf Program) (Secs : MapOf Section) (k k' : Text) (text bss : Program)
    (ctx : ElfCtx Segs Secs) : Type 0 where
  pub apart : k ≢ k'
  pub text_found : Segs.get k ctx.segments ≡ some text
  pub bss_found : Segs.get k' ctx.segments ≡ some bss
  pub keys : (Segs.keys ctx.segments ≡ k ∷ k' ∷ []) ⊎ (Segs.keys ctx.segments ≡ k' ∷ k ∷ [])
  pub counted : Segs.count ctx.segments ≡ 2
  pub bare : AllBare Segs Secs ctx.sections
  pub in_file : text.allocated ≡ true
  pub not_in_file : bss.allocated ≡ false
  pub text_len : text.len ≢ 0
  pub bss_len : bss.len ≢ 0
  pub fits : text.len < 2 ^ 31

pub KeptBelow-at :
    (n m : ℕ) (file out bs : List ℕ)
    → m + length bs ≤ n
    → KeptBelow n file out
    → StandsAt file m bs
    → StandsAt out m bs
KeptBelow-at n m file out bs le k s i b e =
    k (m + i) b (omega (arith, lt-length_of_get_elem? bs i e, le)) (s i b e)

pub append-StandsAt : (xs ys : List ℕ) → StandsAt (xs ++ ys) 0 xs
append-StandsAt xs ys i b e =
    ap (get_elem? (xs ++ ys)) (omega arith) ∙ get_elem?-append_found xs ys i b e

module _ {V : Type 0} (M : MapOf V) (f : V → List ℕ → List ℕ) where
  pub for_each_pair :
      (x y : Text) (m : M.Carrier) (v w : V) (file : List ℕ)
      → M.get x m ≡ some v
      → M.get y m ≡ some w
      → for_each M f (x ∷ y ∷ []) m file ≡ some (f w (f v file))
  unfolding for_each
  for_each_pair x y m v w file e e' = rw (for_each, e) (rw (for_each, e'))

module _ {V : Type 0} (M : MapOf V) (g : V → List ℕ) where
  -- A loop that appends.
  pub for_each_appends :
      (ks : List Text) (m : M.Carrier) (file : List ℕ)
      → ((k : Text) → Occurs k ks → (v : V) × (M.get k m ≡ some v))
      → (more : List ℕ) × (for_each M (λ v out. out ++ g v) ks m file ≡ some (file ++ more))
  unfolding for_each
  for_each_appends [] m file p = ([], ap (λ u. some u) (sym (append-nil file)))
  for_each_appends (k ∷ ks) m file p =
      let (v, e) = p k (inl refl) in
      let (more, r) = for_each_appends ks m (file ++ g v) (λ x o. p x (inr o)) in
      (g v ++ more, rw (for_each, e) (r ∙ ap (λ u. some u) (append_assoc file (g v) more)))

module _ (Segs : MapOf Program) (Secs : MapOf Section) (k k' : Text) (text bss : Program)
    (ctx : ElfCtx Segs Secs) (h : PairCtx Segs Secs k k' text bss ctx) where
  pub start : first_offset Segs ctx.segments ≡ 4096
  unfolding first_offset align_to
  start = rw h.counted refl

  pub laid :
      Laid Segs ctx.segments (Segs.keys ctx.segments) k k' text bss (first_offset Segs ctx.segments)
  laid = elim h.keys [
    | inl e ↦
        subst (λ ks. Laid Segs ctx.segments ks k k' text bss (first_offset Segs ctx.segments))
          (sym e)
          (text_first Segs k k' h.apart ctx.segments text bss h.text_found h.bss_found _ h.in_file
            h.not_in_file h.text_len h.bss_len (omega (arith, start, h.fits)))
    | inr e ↦
        subst (λ ks. Laid Segs ctx.segments ks k k' text bss (first_offset Segs ctx.segments))
          (sym e)
          (bss_first Segs k k' h.apart ctx.segments text bss h.text_found h.bss_found _ h.in_file
            h.not_in_file h.text_len h.bss_len (omega (arith, start, h.fits)))
  ]

  pub named :
      BareLoop Segs Secs (Secs.keys ctx.sections) laid.final ctx.sections fresh_shstrtab laid.stop
  named =
      fix_sections-BareLoop Segs Secs (Secs.keys ctx.sections) laid.final ctx.sections
        fresh_shstrtab laid.stop (λ x. Secs.get-key x ctx.sections) h.bare

  abbrev pub fixed : ElfCtx Segs Secs
  fixed = add_shstrtab Segs Secs ctx laid.final named.final named.names_after laid.stop

  abbrev pub finished : ElfCtx Segs Secs
  finished = record fixed {
    elf_header =
        with_sections Segs Secs (Segs.count fixed.segments) (Secs.count fixed.sections)
          (with_segments Segs Secs (Segs.count fixed.segments) fixed.elf_header);
  }

  fix_header_offsets-fixed : fix_header_offsets Segs Secs ctx ≡ some fixed
  unfolding fix_header_offsets
  fix_header_offsets-fixed = rw (fix_header_offsets, laid.ends, named.ends)

  pub finalize_elf_ctx-finished : finalize_elf_ctx Segs Secs ctx ≡ some finished
  unfolding finalize_elf_ctx
  finalize_elf_ctx-finished = rw (finalize_elf_ctx, fix_header_offsets-fixed)
