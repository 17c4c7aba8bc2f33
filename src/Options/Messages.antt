-- ===== src/Options/Messages.antt =====
-- What `parse_options` of csrc/src/options.c writes to the standard error. What `getopt_long` itself
-- writes there is not the program's.
use bfcomp.Prelude.{
  ℕ, ◌≡◌, ◌≢◌, refl, List, [], ◌∷◌, ◌++◌, Option, none, some, Bool, true, false, get_or, arith, ap,
}
use bfcomp.Prelude.Text.{codes}
use bfcomp.Options.{
  Text, Options, Getopt, compile, dump, output, unknown, Parsed, success, failure, fault,
  default_output, check_extra, with_default, name_output, take_file, getopt_loop, parse_options,
}

-- The loop over the arguments that are left.
unfoldable pub quoted : List Text → List ℕ
quoted [] = []
quoted (x ∷ xs) = codes " '" ++ (x ++ (codes "'" ++ quoted xs))

unfoldable pub extra_message : List Text → List ℕ
extra_message [] = []
extra_message (x ∷ xs) = codes "extra arguments:" ++ (quoted (x ∷ xs) ++ 10 ∷ [])

-- Nothing is written if the copy of a negative number of bytes ends the program.
unfoldable pub default_message : Option Text → List Text → List ℕ
default_message none extra = []
default_message (some name) extra = extra_message extra

unfoldable pub name_message : Bool → Text → List Text → Option Text → List ℕ
name_message true path extra none = default_message (default_output path) extra
name_message compiling path extra _ = extra_message extra

unfoldable pub file_message : Bool → Options → List Text → List ℕ
file_message compiling o [] = codes "missing file argument" ++ 10 ∷ []
file_message compiling o (path ∷ extra) = name_message compiling path extra o.output_name

unfoldable pub getopt_message : List Getopt → Bool → Options → List Text → List ℕ
getopt_message [] compiling o rest = file_message compiling o rest
getopt_message (compile ∷ rs) compiling o rest = getopt_message rs true o rest
getopt_message (dump ∷ rs) compiling o rest =
    getopt_message rs compiling (record o { dump_ir = true }) rest
getopt_message (output name ∷ rs) compiling o rest =
    getopt_message rs compiling (record o { output_name = some name }) rest
getopt_message (unknown ∷ rs) compiling o rest = codes "error parsing arguments" ++ 10 ∷ []

unfoldable pub parse_options_messages : List Getopt → List Text → List ℕ
parse_options_messages results rest =
    getopt_message results false (record { input_name = none; output_name = none; dump_ir = false })
      rest

-- A failure is told, and else nothing.
unfoldable pub Tells : Parsed → List ℕ → Type 0
Tells failure message = message ≢ []
Tells (success o) message = message ≡ []
Tells fault message = message ≡ []

check_extra-Tells :
    (o : Options) (extra : List Text) → Tells (check_extra o extra) (extra_message extra)
unfolding Tells check_extra extra_message
check_extra-Tells o [] = refl
check_extra-Tells o (x ∷ xs) =
    λ e. absurd (let q : ◌≡◌ {A = ℕ} 101 0 = ap (λ t. get_or t 0 0) e in omega arith)

with_default-Tells :
    (o : Options) (name : Option Text) (extra : List Text)
    → Tells (with_default o name extra) (default_message name extra)
unfolding with_default default_message Tells
with_default-Tells o none extra = refl
with_default-Tells o (some name) extra =
    check_extra-Tells (record o { output_name = some name }) extra

name_output-Tells :
    (compiling : Bool) (o : Options) (path : Text) (extra : List Text) (out : Option Text)
    → Tells (name_output compiling o path extra out) (name_message compiling path extra out)
unfolding name_output name_message
name_output-Tells true o path extra none = with_default-Tells o (default_output path) extra
name_output-Tells true o path extra (some out) = check_extra-Tells o extra
name_output-Tells false o path extra none = check_extra-Tells o extra
name_output-Tells false o path extra (some out) = check_extra-Tells o extra

take_file-Tells :
    (compiling : Bool) (o : Options) (rest : List Text)
    → Tells (take_file compiling o rest) (file_message compiling o rest)
unfolding take_file file_message Tells
take_file-Tells compiling o [] =
    λ e. absurd (let q : ◌≡◌ {A = ℕ} 109 0 = ap (λ t. get_or t 0 0) e in omega arith)
take_file-Tells compiling o (path ∷ extra) =
    name_output-Tells compiling (record o { input_name = some path }) path extra o.output_name

getopt_loop-Tells :
    (rs : List Getopt) (compiling : Bool) (o : Options) (rest : List Text)
    → Tells (getopt_loop rs compiling o rest) (getopt_message rs compiling o rest)
unfolding getopt_loop getopt_message Tells
getopt_loop-Tells [] compiling o rest = take_file-Tells compiling o rest
getopt_loop-Tells (compile ∷ rs) compiling o rest = getopt_loop-Tells rs true o rest
getopt_loop-Tells (dump ∷ rs) compiling o rest =
    getopt_loop-Tells rs compiling (record o { dump_ir = true }) rest
getopt_loop-Tells (output name ∷ rs) compiling o rest =
    getopt_loop-Tells rs compiling (record o { output_name = some name }) rest
getopt_loop-Tells (unknown ∷ rs) compiling o rest =
    λ e. absurd (let q : ◌≡◌ {A = ℕ} 101 0 = ap (λ t. get_or t 0 0) e in omega arith)

-- Whatever options and arguments there are: if `parse_options` returns 1, it has written a message, and if
-- it returns 0, or copies a negative number of bytes, it has written none.
pub parse_options-Tells :
    (results : List Getopt) (rest : List Text)
    → Tells (parse_options results rest) (parse_options_messages results rest)
unfolding parse_options parse_options_messages
parse_options-Tells results rest = getopt_loop-Tells results false _ rest
