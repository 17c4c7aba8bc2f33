-- ===== src/Elf/Filed.antt =====
-- The bytes that `gen_elf_file` of csrc/src/elf_gen.c writes for such a context, and what is loaded of them.
use bfcomp.Prelude.{
  ℕ, zero, suc, ◌≤◌, ◌≡◌, refl, sym, ap, ◌∙◌, subst, List, [], ◌∷◌, ◌++◌, some, true, false, arith,
  inl, inr, length, take,
}
use mathlib.Core.List.{append_assoc}
use bfcomp.Options.{Text}
use bfcomp.Map.{MapOf}
use bfcomp.Elf.{Ehdr, Program, Section, ElfCtx, zero_shdr}
use bfcomp.Elf.Layout.{add_shstrtab, with_segments, with_sections, first_offset}
use bfcomp.Elf.Write.{
  ehdr_bytes, phdr_bytes, shdr_bytes, write_at, write_program, write_section, for_each, write_all,
  gen_elf_file,
}
use bfcomp.Elf.Contents.{StandsAt, KeptBelow, write_at-StandsAt, write_at-KeptBelow}
use bfcomp.Elf.Pair.{filed_at, zeroed_at, Laid}
use bfcomp.Elf.Bare.{AllBehind, add_shstrtab-AllBehind, for_each-write_section}
use bfcomp.Elf.Finish.{
  PairCtx, KeptBelow-at, append-StandsAt, for_each_pair, for_each_appends, start, laid, named,
  fixed, finished, finalize_elf_ctx-finished,
}
use bfcomp.Elf.Shape.{InOrder, FileOf}

length-take_le : (n : ℕ) (xs : List ℕ) → length (take n xs) ≤ n
length-take_le zero xs = omega arith
length-take_le (suc n) [] = omega arith
length-take_le (suc n) (x ∷ xs) = omega (arith, length-take_le n xs)

module _ (Segs : MapOf Program) (Secs : MapOf Section) (k k' : Text) (text bss : Program)
    (ctx : ElfCtx Segs Secs) (h : PairCtx Segs Secs k k' text bss ctx) where
  abbrev l :
      Laid Segs ctx.segments (Segs.keys ctx.segments) k k' text bss (first_offset Segs ctx.segments)
  l = laid Segs Secs k k' text bss ctx h

  abbrev done : ElfCtx Segs Secs
  done = finished Segs Secs k k' text bss ctx h

  abbrev text' : Program
  text' = filed_at l.at_text text

  abbrev bss' : Program
  bss' = zeroed_at l.at_bss bss

  abbrev write_text : List ℕ → List ℕ
  write_text file = write_at text'.phdr.p_offset (take text.len text.bytes) file

  write_program_text : (file : List ℕ) → write_program text' file ≡ write_text file
  unfolding write_program
  write_program_text file = ap (λ b. elim b [ true ↦ write_text file | false ↦ file ]) h.in_file

  write_program_bss : (file : List ℕ) → write_program bss' file ≡ file
  unfolding write_program
  write_program_bss file =
      ap
        (λ b. elim b [
          | true ↦ write_at bss'.phdr.p_offset (take bss.len bss.bytes) file
          | false ↦ file
        ])
        h.not_in_file

  -- The two segments, in the order of the map.
  record Ordered : Type 0 where
    first : Text
    second : Text
    p : Program
    q : Program
    keys : Segs.keys l.final ≡ first ∷ second ∷ []
    first_found : Segs.get first l.final ≡ some p
    second_found : Segs.get second l.final ≡ some q
    writes : (file : List ℕ) → write_program q (write_program p file) ≡ write_text file
    same : InOrder text bss l.at_text l.at_bss p q

  ordered : Ordered
  ordered = elim h.keys [
    | inl e ↦ record {
      first = k;
      second = k';
      p = text';
      q = bss';
      keys = l.same_keys ∙ e;
      first_found = l.text_found;
      second_found = l.bss_found;
      writes = λ file. write_program_bss (write_program text' file) ∙ write_program_text file;
      same = inl (refl, refl);
    }
    | inr e ↦ record {
      first = k';
      second = k;
      p = bss';
      q = text';
      keys = l.same_keys ∙ e;
      first_found = l.bss_found;
      second_found = l.text_found;
      writes = λ file.
          write_program_text (write_program bss' file) ∙ ap write_text (write_program_bss file);
      same = inr (refl, refl);
    }
  ]

  module _ (o : Ordered) where
    abbrev head : List ℕ
    head = ehdr_bytes done.elf_header ++ (phdr_bytes o.p.phdr ++ phdr_bytes o.q.phdr)

    segment_table :
        for_each Segs
          (λ p file. file ++ phdr_bytes p.phdr)
          (Segs.keys l.final)
          l.final
          (ehdr_bytes done.elf_header)
        ≡ some head
    segment_table =
        ap
          (λ ks.
            for_each Segs (λ p file. file ++ phdr_bytes p.phdr) ks l.final
              (ehdr_bytes done.elf_header))
          o.keys
        ∙ for_each_pair Segs (λ p file. file ++ phdr_bytes p.phdr) o.first o.second l.final o.p o.q
            _ o.first_found o.second_found
        ∙ ap (λ u. some u) (append_assoc (ehdr_bytes done.elf_header) _ _)

    abbrev tables :
        (more : List ℕ) × (for_each Secs
            (λ s out. out ++ shdr_bytes s.shdr)
            (Secs.keys done.sections)
            done.sections
            (head ++ shdr_bytes zero_shdr)
          ≡ some ((head ++ shdr_bytes zero_shdr) ++ more))
    tables =
        for_each_appends Secs (λ s. shdr_bytes s.shdr) (Secs.keys done.sections) done.sections
          (head ++ shdr_bytes zero_shdr) (λ x. Secs.get-key x done.sections)

    abbrev with_tables : List ℕ
    with_tables = (head ++ shdr_bytes zero_shdr) ++ tables.0

    segments_written :
        for_each Segs write_program (Segs.keys l.final) l.final with_tables
        ≡ some (write_text with_tables)
    segments_written =
        ap (λ ks. for_each Segs write_program ks l.final with_tables) o.keys
        ∙ for_each_pair Segs write_program o.first o.second l.final o.p o.q _ o.first_found
            o.second_found
        ∙ ap (λ u. some u) (o.writes with_tables)

    behind : AllBehind Segs Secs l.stop done.sections
    behind =
        add_shstrtab-AllBehind Segs Secs ctx l.final (named Segs Secs k k' text bss ctx h).final
          (named Segs Secs k k' text bss ctx h).names_after l.stop l.fits
          (named Segs Secs k k' text bss ctx h).bare

    abbrev last :
        (out : List ℕ) × (for_each Secs write_section
            (Secs.keys done.sections)
            done.sections
            (write_text with_tables)
          ≡ some out)
        × KeptBelow l.stop (write_text with_tables) out
    last =
        for_each-write_section Segs Secs (Secs.keys done.sections) done.sections l.stop
          (write_text with_tables) (λ x. Secs.get-key x done.sections) behind

    gen_elf_file-last : gen_elf_file Segs Secs ctx ≡ some last.0
    unfolding gen_elf_file write_all add_shstrtab
    gen_elf_file-last =
        rw (gen_elf_file, finalize_elf_ctx-finished Segs Secs k k' text bss ctx h)
          (rw (segment_table) (rw tables.1 (rw segments_written last.1)))

    placed : text'.phdr.p_offset ≡ l.at_text
    placed = omega (arith, l.before, l.fits)

    late : 4096 ≤ l.at_text
    late = omega (arith, l.behind, start Segs Secs k k' text bss ctx h)

    head_short : length head ≡ 116
    unfolding ehdr_bytes phdr_bytes
    head_short = refl

    head-StandsAt : StandsAt last.0 0 head
    head-StandsAt =
        KeptBelow-at l.stop 0 (write_text with_tables) last.0 head
          (omega (arith, head_short, late, l.before)) last.2
          (KeptBelow-at text'.phdr.p_offset 0 with_tables (write_text with_tables) head
            (omega (arith, head_short, late, placed))
            (write_at-KeptBelow text'.phdr.p_offset (take text.len text.bytes) with_tables)
            (subst (λ f. StandsAt f 0 head)
              (sym (append_assoc head (shdr_bytes zero_shdr) tables.0))
              (append-StandsAt head (shdr_bytes zero_shdr ++ tables.0))))

    text-StandsAt : StandsAt last.0 text'.phdr.p_offset (take text.len text.bytes)
    text-StandsAt =
        KeptBelow-at l.stop text'.phdr.p_offset (write_text with_tables) last.0
          (take text.len text.bytes)
          (omega (arith, placed, l.before, length-take_le text.len text.bytes)) last.2
          (write_at-StandsAt text'.phdr.p_offset (take text.len text.bytes) with_tables)

  counted : Segs.count l.final ≡ 2
  counted = l.same_count ∙ h.counted

  -- The fields of the header, by the number of segments.
  module _ (f : Ehdr → ℕ) where
    by_count :
        f done.elf_header
        ≡ f (
            with_sections Segs Secs 2
              (Secs.count done.sections)
              (with_segments Segs Secs 2 (fixed Segs Secs k k' text bss ctx h).elf_header))
    unfolding add_shstrtab
    by_count =
        ap
          (λ n. f (
            with_sections Segs Secs n (Secs.count done.sections)
              (with_segments Segs Secs n (fixed Segs Secs k k' text bss ctx h).elf_header)))
          counted

  pub gen_elf_file-FileOf :
      (file : List ℕ) × (gen_elf_file Segs Secs ctx ≡ some file)
      × FileOf ctx.elf_header.e_entry text bss file
  unfolding with_sections with_segments add_shstrtab
  gen_elf_file-FileOf =
      let o = ordered in
      (
        (last o).0,
        gen_elf_file-last o,
        record {
          header = done.elf_header;
          p = o.p;
          q = o.q;
          at_text = l.at_text;
          at_bss = l.at_bss;
          order = o.same;
          heads = head-StandsAt o;
          bytes_there = text-StandsAt o;
          entered = by_count (λ u. u.e_entry);
          phoff = by_count (λ u. u.e_phoff);
          phnum = by_count (λ u. u.e_phnum);
          phentsize = by_count (λ u. u.e_phentsize);
        },
      )
