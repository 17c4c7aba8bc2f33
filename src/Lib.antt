-- ===== src/Lib.antt =====
-- bfcomp: an optimising interpreter and a compiler to 32-bit ELF for a language of eight one-letter
-- commands. The development models the C program under csrc.
--
-- The program reads its source in chunks, `ir_ctx_parse` (csrc/src/ir_gen.c) turns each chunk into
-- instructions (`ir_op_t`) that are appended to one list, and then either `ir_interpret`
-- (csrc/src/ir_interpret.c) runs the list or `ir_ctx_compile` (csrc/src/ir_compile.c) generates
-- machine code from it.
--
-- - Word: the machine integers, with their wrap-around written out.
-- - Ir: the instructions and the parser's context (csrc/include/ir_gen.h). A vector is the list of
--   its elements, and the chain of patches the list of its addresses.
-- - Prog: the well-nested programs that instruction lists lay out, which the specifications are
--   about. Prog/Placed says where instructions stand, and where the jumps of a loop lead;
--   Prog/Weight is a measure that bounds the arguments and the code.
-- - Parse: `count_char` and `ir_ctx_parse`. Parse/Merge and Parse/Nesting are about the invariant
--   of the context, Parse/Total about the progress of the loop, Parse/Balance about the brackets,
--   Parse/Rejects about the failure, and Parse/Weight about the size of the arguments.
-- - Interp: `ir_interpret` as a step function on a machine. Interp/Exec is the structured
--   semantics, Interp/Forward, Interp/Inversion and Interp/Refine relate the two. Interp/Unique
--   says that a program has one run, Interp/Tape is about the ring of cells, and Interp/Joins about
--   the steps that the parser joins.
-- - Emit: the functions of csrc/src/ir_compile.c that encode one instruction.
-- - Compile: `ir_ctx_compile__` and `ir_ctx_compile`. Compile/Gen is the code of a program by its
--   structure; Compile/Loops and Compile/Structure relate the traversal to it. Compile/Append is
--   about code behind code, Compile/Parts about the parts of the code of a program, Compile/Sizes
--   about the forms of an addition, Compile/Errors about the result that is returned,
--   Compile/Stopped about the code that an error leaves, and Compile/Lengths about the number of
--   bytes. Compile/Messages is what is written to the standard error, Compile/Rounds and
--   Compile/Reports are about it, and Compile/Asm is `ir_compile_dump_asm`.
-- - X86: a specification of what the generated bytes mean, which models no file of the program:
--   X86/Decode is the part of the IA-32 instruction set that csrc/src/ir_compile.c uses, with its
--   encoding, and X86/Machine the processor and the Linux calls `read`, `write` and `exit`; other
--   bytes, and accesses outside of the tape, are faults. X86/CellCode, X86/TapeCode, X86/CallCode,
--   X86/Jumps and X86/Brackets are about the code of the instructions, X86/Straight about the runs
--   that wrap around nowhere, X86/Correct and X86/Whole about the code of programs, and X86/Agree,
--   X86/Safety, X86/Process, X86/Executable and X86/Loaded about the compiler, the interpreter, and
--   the process of the ELF file that `main` makes.
-- - Dump: `ir_ctx_dump_bf`, `ir_fmt_op` and `ir_ctx_dump_ir`. Dump/Shown is the text that is
--   printed for a program, Dump/Balance is about its brackets, Dump/Round and Dump/Reparse about
--   parsing it again.
-- - Options: `parse_options` (csrc/src/options.c). Options/Names is about the output's name, and
--   Options/Messages about what is written to the standard error.
-- - Map: the hash map, as an interface; Map/Assoc implements it with association lists, and
--   Map/Keys is about a map of two keys.
-- - Elf: the contexts of csrc/src/elf_gen.c. Elf/Layout is `finalize_elf_ctx`, Elf/Write is
--   `gen_elf_file`, and Elf/Build is `write_elf_file` (csrc/src/main.c). Elf/Offsets is about the
--   places of the segments, Elf/Contents about their data in the file, Elf/Image about the two
--   segments of the program, and Elf/Result about the file that is written when the compiler stops.
--   Elf/Loader is a specification of how the file is loaded; Elf/Headers, Elf/Pair, Elf/Bare,
--   Elf/Finish, Elf/Shape, Elf/Filed, Elf/Loads and Elf/Ready lead from the context, by its
--   headers, segments and sections, to what is loaded of the file. Elf/Names and Elf/Sections are
--   about what the headers of the sections say.
-- - Main: `main` (csrc/src/main.c). Main/Source is about the reading of a file in chunks,
--   Main/Weight about the size of the program that it gives, Main/Modes about what the modes do and
--   what `main` returns, and Main/Messages about what it writes to the standard error.
-- - Meaning: a specification of what a text means, character by character; it models no file of the
--   program. Meaning/Runs is about its runs, Meaning/Reader about its reader. Meaning/Tame is about
--   the runs of instructions in which no move wraps around the tape, Meaning/Joining and
--   Meaning/Counted about steps that the parser joins and counts, Meaning/Simulates and
--   Meaning/Rounds about what the parser keeps, Meaning/Parser about `ir_ctx_parse`, Meaning/Chunks
--   and Meaning/Commas about the reading of the source file, and Meaning/File about `main`, from
--   the text to the output.
--
-- Bounds and fuel: the loops of the parser and of `main` run on fuel, and the length of the text is
-- enough. The interpreter need not stop, so its fuel is a variable, and statements quantify over
-- it. The compiler takes fuel for as many instructions as the list holds, and two more. Statements
-- about the interpreter and the compiler take lists shorter than 2^63, so that an `int64_t` can
-- hold the jumps. Those about the machine code take less than 2^30 bytes of it, so that a
-- displacement fits in 32 bits, and a tape below the address 2^32; a source of less than 2^24 bytes
-- is short enough. The machine runs on fuel, and the statements give how much a run takes.
-- `getopt_long`, the files on the disk and the hash map are parameters.
--
-- Where the C code has no defined behaviour, the model has a value of its own: a memory access of
-- the interpreter outside of the tape is the outcome `fault`; the copy of a negative number of
-- bytes in `parse_options` is `Parsed.fault`, with which `main` is `crashed` and `run_main` ends in
-- `crashes`; and the counter of `putcc` overflows for 2^31 characters or more, where
-- `ir_ctx_dump_bf` gives `none`.
--
-- Not modelled: allocation failures; memory outside of the tape or of the instructions (an access
-- is a fault); the containers of csrc/include/rxi, another project's library; what `getopt_long`
-- writes to the standard error; what the compiled code does off the tape, with a second count of a
-- `,`, or with registers and memory that it does not use; the OCaml prototype under lib and bin.
pub mod Prelude
pub mod Word
pub mod Ir
pub mod Prog
pub mod Parse
pub mod Interp
pub mod Emit
pub mod Compile
pub mod Dump
pub mod Options
pub mod Map
pub mod Elf
pub mod Main
pub mod X86
pub mod Meaning
