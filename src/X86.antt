-- ===== src/X86.antt =====
-- The part of the IA-32 instruction set, and of the Linux system calls, that the code of
-- csrc/src/ir_compile.c is written for: the specification of what its bytes mean. Instructions
-- outside of this part, and accesses outside of the tape, are faults.
pub mod Decode
pub mod Machine
pub mod Flow
pub mod Steps
pub mod CellCode
pub mod TapeCode
pub mod CallCode
pub mod Jumps
pub mod Brackets
pub mod Straight
pub mod Places
pub mod Basics
pub mod Correct
pub mod Whole
pub mod Agree
pub mod Safety
pub mod Process
pub mod Executable
pub mod Loaded
mod Tests
