-- ===== src/Elf/Tests.antt =====
-- A small ELF file that csrc/src/elf_gen.c writes, and the theorems on it, with association lists as
-- the maps.
use bfcomp.Prelude.{
  length, ℕ, ◌+◌, ◌≡◌, ◌<◌, ◌^◌, refl, List, [], ◌∷◌, ◌++◌, Option, none, some, true, false, arith,
  take, drop, replicate,
}
use bfcomp.Prelude.Text.{codes}
use bfcomp.Map.{same_text}
use bfcomp.Map.Assoc.{assoc, look, replaced, names, put_entry, insert_as}
use bfcomp.Elf.{
  Program, Section, ElfCtx, gen_section_header, gen_program_header, elf_gen_ctx_init, zero_phdr,
  zero_shdr, align_to,
}
use bfcomp.Ir.{OpKind, op, Ctx, ctx}
use bfcomp.Prelude.Int.{pos, ◌+ℤ◌, ◌-ℤ◌}
use bfcomp.Word.{to_u8, to_u64, to_u32, to_i32, to_i64, neg, next, jump_by}
use bfcomp.Emit.{
  push_int32, too_big, emit_indirect, emit_direct, emit_other, emit_step, emit_add_sub, emit_cmp,
  emit_code_loop_start, emit_jump_back, emit_code_loop_end, const_arg, emit_transfer, emit_writes,
  emit_code_write, emit_code_read, emit_code_trap, emit_code_exit, emit_op,
}
use bfcomp.Compile.{after_op, compile_from, ir_ctx_compile}
use bfcomp.Elf.Layout.{
  fix_segment, fix_segments, first_offset, finalize_elf_ctx, with_sections, with_segments,
  fix_header_offsets, add_shstrtab, shstrndx, index_of_section, index_from, fix_sections,
  place_section, section_offset, fresh_shstrtab,
}
use bfcomp.Elf.Write.{
  gen_elf_file, write_all, for_each, write_section, write_program, write_at, overlay, shdr_bytes,
  phdr_bytes, ehdr_bytes,
}
use bfcomp.Elf.Build.{
  text_addr, preload, build_elf, write_elf_file, write_code, add_bss, patch_text, start_elf,
  at_program, bss_addr, patch_addr,
}
use bfcomp.Elf.Offsets.{InPlace, room, segments-InPlace}
use bfcomp.Elf.Contents.{Filed, segments-Filed}
use bfcomp.Prog.{Basic, Prog, done, basic, flatten}
use bfcomp.Prog.Placed.{Holds}
use bfcomp.Emit.{ok}
use bfcomp.Prog.Weight.{weight}
use bfcomp.Emit.{too_big}
use bfcomp.Compile.Errors.{fits}
use bfcomp.Compile.Parts.{push_bytes, exit_bytes}
use bfcomp.Compile.Stopped.{fitting_part}
use bfcomp.Elf.Result.{write_elf_file-fitting_part}
use bfcomp.Elf.Loader.{
  Image, load_elf, load_fields, with_entry, load_table, and_segment, load_header, load_segment,
  words_at, and_word, word_at, half_at, joined16, joined32,
}
use bfcomp.Elf.Names.{names_room}
use bfcomp.Elf.Sections.{WellNamed, fix_header_offsets-WellNamed}
use bfcomp.Elf.Ready.{Executable, write_code-Executable}
use bfcomp.Elf.Image.{ImageOf, build_elf-ImageOf}

build_elf-ImageOf_example :
    (c : ElfCtx (assoc Program) (assoc Section)) × (build_elf (preload ++ 0xCD ∷ 0x80 ∷ [])
      ≡ some c)
    × ImageOf (assoc Program) (assoc Section) (0xCD ∷ 0x80 ∷ []) c
build_elf-ImageOf_example =
    build_elf-ImageOf (assoc Program) (assoc Section) (0xCD ∷ 0x80 ∷ []) (omega arith)

-- A segment of 5000 bytes, and one with no data.
abbrev code_segment : Program
code_segment = record {
  phdr = zero_phdr;
  bytes = replicate 5000 0x90;
  len = 5000;
  allocated = true;
}

abbrev data_segment : Program
data_segment = record { phdr = zero_phdr; bytes = []; len = 30000; allocated = false }

unfoldable two_segments : (assoc Program).Carrier
unfolding assoc
two_segments =
    (assoc Program).set (codes "a") code_segment
      ((assoc Program).set (codes "b") data_segment (assoc Program).empty)

two_segments-fit :
    first_offset (assoc Program) two_segments
      + room (assoc Program) ((assoc Program).keys two_segments) two_segments
    < 2 ^ 32
unfolding first_offset align_to two_segments assoc look names insert_as put_entry replaced same_text
two_segments-fit = omega arith

two_segments-count : (assoc Program).count two_segments < 2 ^ 32
unfolding two_segments assoc insert_as put_entry look same_text
two_segments-count = omega arith

segments-InPlace_example : InPlace (assoc Program) two_segments
segments-InPlace_example =
    segments-InPlace (assoc Program) two_segments two_segments-fit two_segments-count

segments-Filed_example :
    (r : InPlace (assoc Program) two_segments) × Filed
      (assoc Program)
      two_segments
      r.final
      (0x7F ∷ b'E' ∷ [])
segments-Filed_example =
    segments-Filed (assoc Program) two_segments (0x7F ∷ b'E' ∷ []) two_segments-fit
      two_segments-count

-- The file for a program with the single instruction `+`.
file : Ctx → Option (List ℕ)
unfolding write_elf_file write_code build_elf add_bss patch_text start_elf at_program bss_addr
    patch_addr gen_elf_file write_all for_each write_section write_program write_at overlay
    shdr_bytes phdr_bytes ehdr_bytes finalize_elf_ctx with_sections with_segments fix_header_offsets
    first_offset add_shstrtab shstrndx index_of_section index_from fix_sections place_section
    section_offset fresh_shstrtab fix_segments fix_segment gen_section_header gen_program_header
    elf_gen_ctx_init align_to same_text assoc look replaced names put_entry insert_as ir_ctx_compile
    compile_from after_op emit_op emit_code_exit emit_code_trap emit_code_read emit_code_write
    emit_writes emit_transfer const_arg emit_code_loop_end emit_jump_back emit_code_loop_start
    emit_cmp emit_add_sub emit_step emit_other emit_direct emit_indirect too_big push_int32 to_u8
    to_u64 to_u32 to_i32 to_i64 neg next jump_by ◌+ℤ◌ ◌-ℤ◌
file = write_elf_file (assoc Program) (assoc Section)

part : ℕ → ℕ → Option (List ℕ) → List ℕ
part n k none = []
part n k (some bs) = take k (drop n bs)

header_of_file :
    part 0 5 (file (ctx (op OpKind.cell (pos 1) ∷ []) [])) ≡ 0x7F ∷ b'E' ∷ b'L' ∷ b'F' ∷ 1 ∷ []
unfolding file part
header_of_file = refl

code_of_file :
    part 4096 9 (file (ctx (op OpKind.cell (pos 1) ∷ []) []))
    ≡ 0xBF ∷ 0 ∷ 0x90 ∷ 4 ∷ 8 ∷ 0xFF ∷ 0xF7 ∷ 0xFE ∷ 0x07 ∷ []
unfolding file part
code_of_file = refl

-- A step, and one that is too large for an operand.
abbrev too_large : Prog
too_large = basic Basic.tape (pos 1) (basic Basic.cell (pos (2 ^ 31)) done)

too_large-Holds : Holds (ctx (flatten too_large) []) too_large
unfolding flatten
too_large-Holds = record { layout = refl; fits = omega arith }

write_elf_file-fitting_part_example :
    (inside : List ℕ) × (file : List ℕ) × (ir_ctx_compile
        (length (flatten (fitting_part too_large)) + 2)
        (ctx (flatten (fitting_part too_large)) [])
        preload
      ≡ some (ok, preload ++ (push_bytes ++ (inside ++ exit_bytes))))
    × (write_elf_file (assoc Program) (assoc Section) (ctx (flatten too_large) []) ≡ some file)
    × Executable file (push_bytes ++ inside)
write_elf_file-fitting_part_example =
    write_elf_file-fitting_part (assoc Program) (assoc Section) (ctx (flatten too_large) [])
      too_large too_large-Holds (unfold fits too_big in refl)
      (unfold fitting_part flatten weight too_big in omega arith)

write_code-Executable_example :
    (file : List ℕ) × (write_code
        (assoc Program)
        (assoc Section)
        (some (ok, preload ++ 0xCD ∷ 0x80 ∷ []))
      ≡ some file)
    × Executable file (0xCD ∷ 0x80 ∷ [])
write_code-Executable_example =
    write_code-Executable (assoc Program) (assoc Section) ok (0xCD ∷ 0x80 ∷ []) (omega arith)

-- Two sections, and the segments from above.
abbrev two_sections : ElfCtx (assoc Program) (assoc Section)
two_sections = gen_section_header (codes ".data") zero_shdr (
    gen_section_header (codes ".code") zero_shdr
      (record elf_gen_ctx_init { segments = two_segments }))

two_sections-fit :
    first_offset (assoc Program) two_sections.segments
      + room (assoc Program) ((assoc Program).keys two_sections.segments) two_sections.segments
    < 2 ^ 32
unfolding gen_section_header
two_sections-fit = two_segments-fit

two_sections-count : (assoc Program).count two_sections.segments < 2 ^ 32
unfolding gen_section_header
two_sections-count = two_segments-count

two_sections-names : 11 + names_room ((assoc Section).keys two_sections.sections) < 2 ^ 32
unfolding gen_section_header elf_gen_ctx_init assoc insert_as put_entry look names same_text
two_sections-names = omega arith

fix_header_offsets-WellNamed_example :
    (c : ElfCtx (assoc Program) (assoc Section)) × (fix_header_offsets
        (assoc Program)
        (assoc Section)
        two_sections
      ≡ some c)
    × WellNamed (assoc Program) (assoc Section) two_sections.sections c
fix_header_offsets-WellNamed_example =
    fix_header_offsets-WellNamed (assoc Program) (assoc Section) two_sections two_sections-fit
      two_sections-count two_sections-names

-- The file for `+`, loaded.
loaded : Option (List ℕ) → Option Image
unfolding load_elf load_fields with_entry load_table and_segment load_header load_segment words_at
    and_word word_at half_at joined16 joined32
loaded none = none
loaded (some bs) = load_elf bs

entry_of : Option Image → ℕ
entry_of none = 0
entry_of (some i) = i.entry

file_enters : entry_of (loaded (file (ctx (op OpKind.cell (pos 1) ∷ []) []))) ≡ text_addr
unfolding file loaded entry_of
file_enters = refl
