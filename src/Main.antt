-- ===== src/Main.antt =====
-- The main program: csrc/src/main.c. The file system is a parameter, a function from names to
-- contents, and `fread` gives as many bytes of a file as are asked for and left.
pub mod Source
pub mod Weight
pub mod Modes
pub mod Messages
mod Tests
use bfcomp.Prelude.{
  ℕ, zero, suc, List, [], ◌∷◌, Option, none, some, Bool, true, false, take, drop, replicate, length,
}
use bfcomp.Prelude.Int.{pos}
use bfcomp.Ir.{Ctx, empty_ctx}
use bfcomp.Parse.{ir_ctx_parse}
use bfcomp.Dump.{ir_ctx_dump_ir}
use bfcomp.Interp.{Store, Outcome, ir_interpret}
use bfcomp.Options.{Text, Options, Parsed, success, failure, fault}

-- `BUFLEN`, and the capacity of the tape.
abbrev pub buf_len : ℕ
buf_len = 1024

abbrev pub tape_len : ℕ
tape_len = 30000

-- Behind the parsing of a chunk: `return 1`, or the test `read_bytes > 0`.
unfoldable pub after_chunk : List ℕ → Option (Ctx × ℕ) → (Ctx → Option (Ctx × ℕ)) → Option (Ctx × ℕ)
after_chunk chunk none more = none
after_chunk chunk (some (c, suc r)) more = some (c, 1)
after_chunk [] (some (c, zero)) more = some (c, 0)
after_chunk (x ∷ xs) (some (c, zero)) more = more c

-- The loop of `main` over the chunks of the source file, on fuel.
unfoldable pub read_loop : ℕ → Ctx → List ℕ → Option (Ctx × ℕ)
read_loop zero c rest = none
read_loop (suc f) c rest =
    let chunk = take buf_len rest in
    after_chunk chunk (ir_ctx_parse c chunk) (λ c'. read_loop f c' (drop buf_len rest))

-- The zeroed tape of the interpreter, with the program's input.
unfoldable pub fresh_tape : List ℕ → Store
fresh_tape input = record { sp = pos 0; cells = replicate tape_len 0; input = input; output = [] }

-- What `main` comes to: an error exit, a crash in `parse_options`, or one of the three modes with the parsed program. The mode
-- that compiles goes on in `write_elf_file`, if the output can be opened.
pub data Action : Type 0 where
  bad_options : Action
  crashed : Action
  cannot_open : Text → Action
  rejected : Action
  printed : List ℕ → Action
  interprets : Ctx → Action
  compiles : Ctx → Text → Action

unfoldable pub choose_mode : Options → Ctx → Action
choose_mode o c = elim o.dump_ir [
  | true ↦ printed (ir_ctx_dump_ir c)
  | false ↦ elim o.output_name [ none ↦ interprets c | some name ↦ compiles c name ]
]

unfoldable pub after_source : Options → Option (Ctx × ℕ) → Option Action
after_source o none = none
after_source o (some (c, zero)) = some (choose_mode o c)
after_source o (some (c, suc r)) = some rejected

unfoldable pub open_source :
    (Text → Option (List ℕ)) → Options → Text → Option (List ℕ) → Option Action
open_source files o name none = some (cannot_open name)
open_source files o name (some src) = after_source o (read_loop (suc (length src)) empty_ctx src)

-- `main`, from the result of `parse_options`; `none` would mean that the loop is out of fuel. The
-- file name is there, if the options were parsed.
unfoldable pub main : (Text → Option (List ℕ)) → Parsed → Option Action
main files failure = some bad_options
main files fault = some crashed
main files (success o) = elim o.input_name [
  | none ↦ some bad_options
  | some name ↦ open_source files o name (files name)
]
