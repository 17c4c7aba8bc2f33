-- ===== src/Elf/Pair.antt =====
-- The layout of a file with two segments, of which one has its bytes in the file and one has none, by
-- `fix_header_offsets` of csrc/src/elf_gen.c. The map gives its two keys in one order or in the other.
use bfcomp.Prelude.{
  ℕ, zero, suc, ◌+◌, ◌%◌, ◌^◌, ◌<◌, ◌≤◌, ◌≡◌, ◌≢◌, refl, sym, ap, ◌∙◌, List, [], ◌∷◌, some, true,
  false, arith,
}
use bfcomp.Options.{Text}
use bfcomp.Map.{MapOf}
use bfcomp.Elf.{word, Program, page_size, align_to}
use bfcomp.Elf.Layout.{is_set, fix_segment, fix_segments}

is_set-true : (n : ℕ) → n ≢ 0 → is_set n ≡ true
is_set-true zero h = absurd (h refl)
is_set-true (suc n) h = refl

-- The headers that the loop gives to the two kinds of segment.
abbrev pub filed_at : ℕ → Program → Program
filed_at off p = record p {
  phdr = record p.phdr { p_filesz = word p.len; p_memsz = word p.len; p_offset = word off };
}

abbrev pub zeroed_at : ℕ → Program → Program
zeroed_at off p = record p { phdr = record p.phdr { p_memsz = word p.len; p_offset = word off } }

abbrev pub behind_of : ℕ → Program → ℕ
behind_of off p = align_to ((off + p.len) % 2 ^ 64) page_size

fix_segment-filed_at :
    (p : Program) (off : ℕ)
    → p.allocated ≡ true
    → p.len ≢ 0
    → fix_segment p off ≡ (filed_at off p, behind_of off p)
unfolding fix_segment
fix_segment-filed_at p off a h = rw (is_set-true p.len h, a)

fix_segment-zeroed_at :
    (p : Program) (off : ℕ)
    → p.allocated ≡ false
    → p.len ≢ 0
    → fix_segment p off ≡ (zeroed_at off p, off)
unfolding fix_segment
fix_segment-zeroed_at p off a h = rw (is_set-true p.len h, a)

module _ (Segs : MapOf Program) where
  -- The loop over two segments.
  module _ (x y : Text) (apart : x ≢ y) (m : Segs.Carrier) (p q : Program)
      (found : Segs.get x m ≡ some p) (found' : Segs.get y m ≡ some q) (off : ℕ) where
    abbrev r : Program × ℕ
    r = fix_segment p off

    abbrev r' : Program × ℕ
    r' = fix_segment q r.1

    abbrev both_put : Segs.Carrier
    both_put = Segs.put y r'.0 (Segs.put x r.0 m)

    found_behind : Segs.get y (Segs.put x r.0 m) ≡ some q
    found_behind = Segs.get-put_other y x r.0 m (λ q. apart (sym q)) ∙ found'

    fix_segments_pair : fix_segments Segs (x ∷ y ∷ []) m off ≡ some (both_put, r'.1)
    unfolding fix_segments
    fix_segments_pair = rw (fix_segments, found, found_behind)

    first_found : Segs.get x both_put ≡ some r.0
    first_found =
        Segs.get-put_other x y r'.0 (Segs.put x r.0 m) apart ∙ Segs.get-put_self x p r.0 m found

    second_found : Segs.get y both_put ≡ some r'.0
    second_found = Segs.get-put_self y q r'.0 (Segs.put x r.0 m) found_behind

  -- Where the two segments lie: `text` with its bytes, and `bss` with none.
  pub record Laid (m : Segs.Carrier) (ks : List Text) (k k' : Text) (text bss : Program) (off : ℕ)
      : Type 0 where
    pub final : Segs.Carrier
    pub stop : ℕ
    pub at_text : ℕ
    pub at_bss : ℕ
    pub ends : fix_segments Segs ks m off ≡ some (final, stop)
    pub text_found : Segs.get k final ≡ some (filed_at at_text text)
    pub bss_found : Segs.get k' final ≡ some (zeroed_at at_bss bss)
    pub same_keys : Segs.keys final ≡ Segs.keys m
    pub same_count : Segs.count final ≡ Segs.count m
    pub behind : off ≤ at_text
    pub before : at_text + text.len ≤ stop
    pub fits : stop < 2 ^ 32
    pub fits_bss : at_bss < 2 ^ 32

  module _ (k k' : Text) (apart : k ≢ k') (m : Segs.Carrier) (text bss : Program)
      (found : Segs.get k m ≡ some text) (found' : Segs.get k' m ≡ some bss) (off : ℕ)
      (a : text.allocated ≡ true) (b : bss.allocated ≡ false) (n : text.len ≢ 0) (n' : bss.len ≢ 0)
      (room : off + text.len + page_size < 2 ^ 32) where
    reached : (off + text.len ≤ behind_of off text) × (behind_of off text < 2 ^ 32)
    unfolding align_to
    reached = (omega arith, omega arith)

    keys_both :
        (x y : Text) (u v : Program) → Segs.keys (Segs.put y v (Segs.put x u m)) ≡ Segs.keys m
    keys_both x y u v = Segs.keys-put y v (Segs.put x u m) ∙ Segs.keys-put x u m

    count_both :
        (x y : Text) (u v : Program) → Segs.count (Segs.put y v (Segs.put x u m)) ≡ Segs.count m
    count_both x y u v = Segs.count-put y v (Segs.put x u m) ∙ Segs.count-put x u m

    pub text_first : Laid m (k ∷ k' ∷ []) k k' text bss off
    text_first =
        let e = fix_segment-filed_at text off a n in
        let e' : fix_segment bss (fix_segment text off).1
            ≡ (zeroed_at (behind_of off text) bss, behind_of off text) =
          ap (λ o. fix_segment bss o.1) e ∙ fix_segment-zeroed_at bss (behind_of off text) b n' in
        record {
          final = both_put k k' apart m text bss found found' off;
          stop = behind_of off text;
          at_text = off;
          at_bss = behind_of off text;
          ends =
              fix_segments_pair k k' apart m text bss found found' off
              ∙ ap (λ o. some (both_put k k' apart m text bss found found' off, o.1)) e';
          text_found = first_found k k' apart m text bss found found' off ∙ ap (λ o. some o.0) e;
          bss_found = second_found k k' apart m text bss found found' off ∙ ap (λ o. some o.0) e';
          same_keys = keys_both k k' _ _;
          same_count = count_both k k' _ _;
          behind = omega arith;
          before = reached.0;
          fits = reached.1;
          fits_bss = reached.1;
        }

    pub bss_first : Laid m (k' ∷ k ∷ []) k k' text bss off
    bss_first =
        let e = fix_segment-zeroed_at bss off b n' in
        let e' : fix_segment text (fix_segment bss off).1
            ≡ (filed_at off text, behind_of off text) =
          ap (λ o. fix_segment text o.1) e ∙ fix_segment-filed_at text off a n in
        let turned : k' ≢ k = λ q. apart (sym q) in
        record {
          final = both_put k' k turned m bss text found' found off;
          stop = behind_of off text;
          at_text = off;
          at_bss = off;
          ends =
              fix_segments_pair k' k turned m bss text found' found off
              ∙ ap (λ o. some (both_put k' k turned m bss text found' found off, o.1)) e';
          text_found = second_found k' k turned m bss text found' found off ∙ ap (λ o. some o.0) e';
          bss_found = first_found k' k turned m bss text found' found off ∙ ap (λ o. some o.0) e;
          same_keys = keys_both k' k _ _;
          same_count = count_both k' k _ _;
          behind = omega arith;
          before = reached.0;
          fits = reached.1;
          fits_bss = omega arith;
        }
