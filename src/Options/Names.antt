-- ===== src/Options/Names.antt =====
-- The output name that csrc/src/options.c makes from a file argument.
use bfcomp.Prelude.{
  ℕ, suc, ◌+◌, ◌-◌, ◌<◌, ◌≡◌, refl, sym, ap, ap₂, ◌∙◌, ◌≢◌, ◌⊎◌, inl, inr, [], ◌∷◌, ◌++◌, none,
  some, false, arith, length, length-append, take, drop,
}
use mathlib.Core.List.{append_assoc}
use bfcomp.Options.{
  Text, compile, success, fault, last_index, start_of, end_of, default_output, check_extra,
  with_default, name_output, take_file, getopt_loop, parse_options,
}

-- The character does not occur.
abbrev pub Lacks : ℕ → Text → Type 0
Lacks c [] = Unit
Lacks c (x ∷ xs) = (x ≢ c) × Lacks c xs

Lacks-last_index : (c : ℕ) (xs : Text) → Lacks c xs → last_index c xs ≡ none
unfolding last_index
Lacks-last_index c [] h = refl
Lacks-last_index c (x ∷ xs) h = ground (arith, Lacks-last_index c xs h.1, h.0)

last_index-last :
    (c : ℕ) (xs ys : Text) → Lacks c ys → last_index c (xs ++ c ∷ ys) ≡ some (length xs)
unfolding last_index
last_index-last c [] ys h = ground (arith, Lacks-last_index c ys h)
last_index-last c (x ∷ xs) ys h = ground (arith, last_index-last c xs ys h)

Lacks-append : (c : ℕ) (xs ys : Text) → Lacks c xs → Lacks c ys → Lacks c (xs ++ ys)
Lacks-append c [] ys h k = k
Lacks-append c (x ∷ xs) ys h k = (h.0, Lacks-append c xs ys h.1 k)

take-length : (xs ys : Text) → take (length xs) (xs ++ ys) ≡ xs
take-length [] ys = refl
take-length (x ∷ xs) ys = ap (λ t. x ∷ t) (take-length xs ys)

drop-length : (xs ys : Text) → drop (length xs) (xs ++ ys) ≡ ys
drop-length [] ys = refl
drop-length (x ∷ xs) ys = drop-length xs ys

-- A directory with its slash, or nothing.
abbrev pub IsFolder : Text → Type 0
IsFolder folder = (folder ≡ []) ⊎ ((dir : Text) × (folder ≡ dir ++ b'/' ∷ []))

start_of-folder :
    (folder file : Text)
    → IsFolder folder
    → Lacks b'/' file
    → start_of (last_index b'/' (folder ++ file)) ≡ length folder
unfolding start_of
start_of-folder folder file (inl e) h =
    rw (e, start_of) (rw (Lacks-last_index b'/' file h, start_of))
start_of-folder folder file (inr (dir, e)) h =
    ap (λ t. start_of (last_index b'/' (t ++ file))) e
    ∙ ap (λ t. start_of (last_index b'/' t)) (append_assoc dir (b'/' ∷ []) file)
    ∙ ap start_of (last_index-last b'/' dir file h)
    ∙ omega (arith, ap length e, length-append dir (b'/' ∷ []))

end_of-suffix :
    (base ext : Text)
    → 0 < length base
    → Lacks b'.' ext
    → end_of (length (base ++ b'.' ∷ ext)) (last_index b'.' (base ++ b'.' ∷ ext)) ≡ length base
unfolding end_of
end_of-suffix [] ext lt h = absurd (omega arith)
end_of-suffix (x ∷ base) ext lt h =
    ap (end_of (length (x ∷ base ++ b'.' ∷ ext))) (last_index-last b'.' (x ∷ base) ext h)

module _ (folder stem ext : Text) (is_folder : IsFolder folder) (named : stem ≢ [])
    (no_slash : Lacks b'/' stem) (no_slash' : Lacks b'/' ext) (no_dot : Lacks b'.' ext) where
  abbrev path : Text
  path = folder ++ (stem ++ b'.' ∷ ext)

  stem_pos : 0 < length stem
  stem_pos = grind arith

  starts : start_of (last_index b'/' path) ≡ length folder
  starts =
      start_of-folder folder (stem ++ b'.' ∷ ext) is_folder
        (Lacks-append b'/' stem (b'.' ∷ ext) no_slash (omega arith, no_slash'))

  stops : end_of (length path) (last_index b'.' path) ≡ length folder + length stem
  stops =
      ap (λ t. end_of (length t) (last_index b'.' t)) (sym (append_assoc folder stem (b'.' ∷ ext)))
      ∙ end_of-suffix (folder ++ stem) ext (omega (arith, stem_pos, length-append folder stem))
          no_dot
      ∙ length-append folder stem

  default_output-stem : default_output path ≡ some stem
  unfolding default_output
  default_output-stem = rw (starts, stops) (ground (arith, cut))
    where
      cut : take (length folder + length stem - length folder) (drop (length folder) path) ≡ stem
      cut =
          ap₂ take (omega arith) (drop-length folder (stem ++ b'.' ∷ ext))
          ∙ take-length stem (b'.' ∷ ext)

  -- With `--compile` and a file argument that has an extension, the output is named after the file,
  -- with neither its folder nor its extension.
  pub parse_options-stem :
      parse_options (compile ∷ []) (path ∷ [])
      ≡ success (record { input_name = some path; output_name = some stem; dump_ir = false })
  unfolding parse_options getopt_loop take_file name_output with_default check_extra
  parse_options-stem = rw (default_output-stem, with_default)

module _ (x : ℕ) (dir mid file : Text) (no_dot : Lacks b'.' mid) (no_dot' : Lacks b'.' file)
    (no_slash : Lacks b'/' file) where
  abbrev dotted : Text
  dotted = x ∷ dir ++ b'.' ∷ (mid ++ b'/' ∷ file)

  dotted_start : start_of (last_index b'/' dotted) ≡ suc (length (x ∷ dir ++ b'.' ∷ mid))
  dotted_start =
      ap (λ t. start_of (last_index b'/' t))
        (sym (append_assoc (x ∷ dir) (b'.' ∷ mid) (b'/' ∷ file)))
      ∙ ap start_of (last_index-last b'/' (x ∷ dir ++ b'.' ∷ mid) file no_slash)
      ∙ unfold start_of in refl

  dotted_end : end_of (length dotted) (last_index b'.' dotted) ≡ suc (length dir)
  dotted_end =
      end_of-suffix (x ∷ dir) (mid ++ b'/' ∷ file) (omega arith)
        (Lacks-append b'.' mid (b'/' ∷ file) no_dot (omega arith, no_dot'))

  default_output-none : default_output dotted ≡ none
  unfolding default_output
  default_output-none =
      rw (dotted_start, dotted_end) (ground (arith, length-append (x ∷ dir) (b'.' ∷ mid)))

  -- If the last dot of the path stands in a folder's name, and not at the start of the path, the
  -- end of the output name is sought left of its start: with `--compile` the program copies a
  -- negative number of bytes.
  pub parse_options-dotted_folder : parse_options (compile ∷ []) (dotted ∷ []) ≡ fault
  unfolding parse_options getopt_loop take_file name_output with_default
  parse_options-dotted_folder = rw (default_output-none, with_default)
