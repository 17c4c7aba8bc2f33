-- ===== src/Options/Tests.antt =====
-- Runs of the option parser of csrc/src/options.c, and its theorems at concrete arguments.
use bfcomp.Prelude.{◌≡◌, refl, inr, List, [], ◌∷◌, ◌++◌, some, true, false, arith}
use bfcomp.Prelude.Text.{codes}
use bfcomp.Options.{
  Getopt, compile, dump, output, unknown, Parsed, success, failure, fault, Text, last_index,
  start_of, end_of, default_output, check_extra, with_default, name_output, take_file, getopt_loop,
  parse_options,
}
use bfcomp.Options.Messages.{
  quoted, extra_message, name_message, file_message, getopt_message, parse_options_messages, Tells,
  parse_options-Tells,
}
use bfcomp.Options.Names.{parse_options-stem, parse_options-dotted_folder}

parsed : List Getopt → List Text → Parsed
unfolding parse_options getopt_loop take_file name_output with_default check_extra default_output
    end_of start_of last_index
parsed = parse_options

last_output_wins :
    parsed (output (codes "a") ∷ dump ∷ output (codes "b") ∷ compile ∷ []) (codes "x.bf" ∷ [])
    ≡ success (record {
      input_name = some (codes "x.bf");
      output_name = some (codes "b");
      dump_ir = true;
    })
unfolding parsed
last_output_wins = refl

no_file : parsed (dump ∷ []) [] ≡ failure
unfolding parsed
no_file = refl

two_files : parsed [] (codes "a" ∷ codes "b" ∷ []) ≡ failure
unfolding parsed
two_files = refl

parse_options-stem_example :
    parse_options (compile ∷ []) ((codes "bf_test/" ++ (codes "hello" ++ codes ".bf")) ∷ [])
    ≡ success (record {
      input_name = some (codes "bf_test/" ++ (codes "hello" ++ codes ".bf"));
      output_name = some (codes "hello");
      dump_ir = false;
    })
parse_options-stem_example =
    parse_options-stem (codes "bf_test/") (codes "hello") (codes "bf") (inr (codes "bf_test", refl))
      (cc) (omega arith) (omega arith) (omega arith)

parse_options-dotted_folder_example :
    parse_options (compile ∷ []) ((codes "." ++ (codes "./" ++ codes "hello")) ∷ []) ≡ fault
parse_options-dotted_folder_example =
    parse_options-dotted_folder b'.' [] [] (codes "hello") (omega arith) (omega arith) (omega arith)

parse_options-Tells_example :
    Tells
      (parse_options (dump ∷ unknown ∷ []) (codes "a" ∷ []))
      (parse_options_messages (dump ∷ unknown ∷ []) (codes "a" ∷ []))
parse_options-Tells_example = parse_options-Tells (dump ∷ unknown ∷ []) (codes "a" ∷ [])

extra_told :
    parse_options_messages [] (codes "a" ∷ codes "b" ∷ codes "c" ∷ [])
    ≡ codes "extra arguments: 'b' 'c'" ++ 10 ∷ []
unfolding parse_options_messages getopt_message file_message name_message extra_message quoted
extra_told = refl
