-- ===== src/Options.antt =====
-- The command line: csrc/src/options.c. `getopt_long` is not the program's: its results, in order,
-- and the arguments that it leaves from `optind` on are parameters. Texts are lists of bytes.
pub mod Names
pub mod Messages
mod Tests
use bfcomp.Prelude.{
  ℕ, zero, suc, ◌+◌, ◌-◌, List, [], ◌∷◌, Option, none, some, Bool, true, false, ◌==◌, ltb,
  if◌then◌else◌, length, take, drop,
}

abbrev pub Text : Type 0
Text = List ℕ

-- `options_t`
pub record Options : Type 0 where
  pub input_name : Option Text
  pub output_name : Option Text
  pub dump_ir : Bool

-- A result of `getopt_long`: one of the three options, with `optarg`, or an error.
pub data Getopt : Type 0 where
  compile dump : Getopt
  output : Text → Getopt
  unknown : Getopt

-- What `parse_options` ends with: 0, 1, or a copy of a negative number of bytes.
pub data Parsed : Type 0 where
  success : Options → Parsed
  failure : Parsed
  fault : Parsed

-- `strrchr`, as an index.
unfoldable pub last_index : ℕ → Text → Option ℕ
last_index c [] = none
last_index c (x ∷ xs) = elim (last_index c xs) [
  | some i ↦ some (suc i)
  | none ↦ if x == c then some 0 else none
]

-- `start` and `end`, as indices into `input_name`.
unfoldable pub start_of : Option ℕ → ℕ
start_of none = 0
start_of (some i) = suc i

unfoldable pub end_of : ℕ → Option ℕ → ℕ
end_of len none = len
end_of len (some zero) = len
end_of len (some (suc i)) = suc i

-- `output_name` made from `input_name`; `none` is the fault.
unfoldable pub default_output : Text → Option Text
default_output path =
    let start = start_of (last_index b'/' path) in
    let stop = end_of (length path) (last_index b'.' path) in
    if ltb stop start then none else some (take (stop - start) (drop start path))

-- The `else` branch behind the loop, for the file argument and the ones after it.
unfoldable pub check_extra : Options → List Text → Parsed
check_extra o [] = success o
check_extra o (x ∷ xs) = failure

unfoldable pub with_default : Options → Option Text → List Text → Parsed
with_default o none extra = fault
with_default o (some name) extra = check_extra (record o { output_name = some name }) extra

unfoldable pub name_output : Bool → Options → Text → List Text → Option Text → Parsed
name_output true o path extra none = with_default o (default_output path) extra
name_output compiling o path extra _ = check_extra o extra

unfoldable pub take_file : Bool → Options → List Text → Parsed
take_file compiling o [] = failure
take_file compiling o (path ∷ extra) =
    name_output compiling (record o { input_name = some path }) path extra o.output_name

-- The loop over the results of `getopt_long`.
unfoldable pub getopt_loop : List Getopt → Bool → Options → List Text → Parsed
getopt_loop [] compiling o rest = take_file compiling o rest
getopt_loop (compile ∷ rs) compiling o rest = getopt_loop rs true o rest
getopt_loop (dump ∷ rs) compiling o rest =
    getopt_loop rs compiling (record o { dump_ir = true }) rest
getopt_loop (output name ∷ rs) compiling o rest =
    getopt_loop rs compiling (record o { output_name = some name }) rest
getopt_loop (unknown ∷ rs) compiling o rest = failure

-- `parse_options`, from the options that `main` starts with.
unfoldable pub parse_options : List Getopt → List Text → Parsed
parse_options results rest =
    getopt_loop results false (record { input_name = none; output_name = none; dump_ir = false })
      rest
