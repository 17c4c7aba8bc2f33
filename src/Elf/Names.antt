-- ===== src/Elf/Names.antt =====
-- The names of the sections, by the loop of csrc/src/elf_gen.c over them.
use bfcomp.Prelude.{
  ℕ, ◌+◌, ◌^◌, ◌<◌, ◌≡◌, refl, sym, ◌∙◌, subst, List, [], ◌∷◌, ◌++◌, Option, none, some, arith, inl,
  inr, length, length-append,
}
use mathlib.Core.List.{append_assoc, append-nil}
use native.Mathlib.Nat.{mod-eq_of_lt}
use bfcomp.Options.{Text}
use bfcomp.Parse.Round.{both}
use bfcomp.Map.{MapOf, Occurs, AllDistinct}
use bfcomp.Elf.{word, Program, Section}
use bfcomp.Elf.Layout.{is_set, section_offset, place_section, with_name, push_bytes, fix_sections}
use bfcomp.Elf.Contents.{StandsAt}
use bfcomp.Elf.Loader.{StandsAt-right}
use bfcomp.Elf.Finish.{append-StandsAt}

-- A name with its NUL.
abbrev pub name_bytes : Text → List ℕ
name_bytes k = k ++ 0 ∷ []

abbrev pub names_room : List Text → ℕ
names_room [] = 0
names_room (k ∷ ks) = length (name_bytes k) + names_room ks

pub middle-StandsAt : (xs ys zs : List ℕ) → StandsAt ((xs ++ ys) ++ zs) (length xs) ys
middle-StandsAt xs ys zs =
    subst (λ n. StandsAt ((xs ++ ys) ++ zs) n ys) (omega arith)
      (StandsAt-right ((xs ++ ys) ++ zs) 0 xs ys (append-StandsAt (xs ++ ys) zs))

place_section_name :
    (s : Section) (o : Option Program) (off n : ℕ)
    → (place_section (with_name n s) o off).shdr.sh_name ≡ word n
unfolding place_section
place_section_name s none off n =
    both (λ (u : Section). u.shdr.sh_name ≡ word n) (is_set s.len) refl refl
place_section_name s (some p) off n = refl

module _ (Segs : MapOf Program) (Secs : MapOf Section) where
  abbrev Present : List Text → Secs.Carrier → Type 0
  Present ks m = (k : Text) → Occurs k ks → (s : Section) × (Secs.get k m ≡ some s)

  later :
      (k : Text) (s placed : Section) (ks : List Text) (m : Secs.Carrier)
      → ¬ Occurs k ks
      → Present ks m
      → Present ks (Secs.put k placed m)
  later k s placed ks m n p x o =
      let (t, e) = p x o in
      (t, Secs.get-put_other x k placed m (λ q. n (subst (λ y. Occurs y ks) q o)) ∙ e)

  -- A section whose name stands in a table.
  abbrev pub HasName : Text → Secs.Carrier → List ℕ → Type 0
  HasName k m table =
      (s : Section) × (Secs.get k m ≡ some s) × StandsAt table s.shdr.sh_name (name_bytes k)

  -- The loop over the sections ends, with a name for each of them behind the table that there was.
  pub record NamedLoop (ks : List Text) (segs : Segs.Carrier) (m : Secs.Carrier) (names : Section)
      (off : ℕ) : Type 0 where
    pub final : Secs.Carrier
    pub table : Section
    pub behind : ℕ
    pub more : List ℕ
    pub ends : fix_sections Segs Secs ks segs m names off ≡ some (final, table, behind)
    pub grows : table.bytes ≡ names.bytes ++ more
    pub same_name : table.shdr.sh_name ≡ names.shdr.sh_name
    pub others : (k : Text) → ¬ Occurs k ks → Secs.get k final ≡ Secs.get k m
    pub named : (k : Text) → Occurs k ks → HasName k final table.bytes

  pub fix_sections-NamedLoop :
      (ks : List Text) (segs : Segs.Carrier) (m : Secs.Carrier) (names : Section) (off : ℕ)
      → AllDistinct ks
      → Present ks m
      → names.len ≡ length names.bytes
      → length names.bytes + names_room ks < 2 ^ 32
      → NamedLoop ks segs m names off
  unfolding fix_sections
  fix_sections-NamedLoop [] segs m names off d p l lt = record {
    final = m;
    table = names;
    behind = off;
    more = [];
    ends = refl;
    grows = sym (append-nil names.bytes);
    same_name = refl;
    others = λ k n. refl;
    named = λ k o. absurd o;
  }
  fix_sections-NamedLoop (k ∷ ks) segs m names off d p l lt =
      let (s, e) = p k (inl refl) in
      let after = section_offset s off in
      let placed = place_section (with_name names.len s) (Segs.get k segs) after in
      let names' = push_bytes (name_bytes k) names in
      let size : length names'.bytes ≡ length names.bytes + length (name_bytes k) =
        length-append names.bytes (name_bytes k) in
      let rest =
        fix_sections-NamedLoop ks segs (Secs.put k placed m) names' after d.1
          (later k s placed ks m d.0 (λ x o. p x (inr o))) (omega (arith, size, l))
          (omega (arith, size, lt)) in
      record {
        final = rest.final;
        table = rest.table;
        behind = rest.behind;
        more = name_bytes k ++ rest.more;
        ends = rw (fix_sections, e) rest.ends;
        grows = rest.grows ∙ append_assoc names.bytes (name_bytes k) rest.more;
        same_name = rest.same_name;
        others = λ x n.
            rest.others x (λ o. n (inr o)) ∙ Secs.get-put_other x k placed m (λ q. n (inl q));
        named = λ x o. elim o [
          | inl q ↦
              subst (λ y. HasName y rest.final rest.table.bytes) (sym q)
                (
                  placed,
                  rest.others k d.0 ∙ Secs.get-put_self k s placed m e,
                  subst (λ bs. StandsAt bs placed.shdr.sh_name (name_bytes k)) (sym rest.grows)
                      (subst
                        (λ n.
                          StandsAt ((names.bytes ++ name_bytes k) ++ rest.more) n (name_bytes k))
                        (sym (
                          place_section_name s (Segs.get k segs) after names.len
                          ∙ mod-eq_of_lt (omega (arith, l, lt))
                          ∙ l))
                        (middle-StandsAt names.bytes (name_bytes k) rest.more)),
                )
          | inr o' ↦ rest.named x o'
        ];
      }
