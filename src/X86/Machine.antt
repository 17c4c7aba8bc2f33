-- ===== src/X86/Machine.antt =====
-- What the instructions and the Linux system calls that the code of csrc/src/ir_compile.c uses do to a
-- processor: the rest of its specification. Accesses outside of the tape are faults.
use bfcomp.Prelude.{
  ℕ, zero, suc, ◌+◌, ◌-◌, ◌%◌, ◌^◌, List, [], ◌∷◌, ◌++◌, Option, none, some, Bool, true, false,
  ◌==◌, ltb, if◌then◌else◌, ◌&&◌, drop, set, get_elem?,
}
use bfcomp.Prelude.Int.{pos, ◌+ℤ◌}
use bfcomp.Word.{to_u32}
use bfcomp.X86.Decode.{
  Alu, Instr, add, alu_byte, alu_byte_al, alu_reg, cmp, decode, interrupt, jump_if, mov_imm,
  mov_reg, push_reg, sub,
}

-- The registers that the code uses, the flag ZF, the stack, the bytes of the tape, and the streams
-- of the process. `eip` counts from the start of the code.
pub record Cpu : Type 0 where
  pub eip : ℕ
  pub eax : ℕ
  pub ecx : ℕ
  pub edx : ℕ
  pub ebx : ℕ
  pub edi : ℕ
  pub zf : Bool
  pub stack : List ℕ
  pub cells : List ℕ
  pub input : List ℕ
  pub output : List ℕ

pub data Outcome : Type 0 where
  running : Cpu → Outcome
  exited : ℕ → Cpu → Outcome
  fault : Outcome

abbrev pub need {ℓ} : {A : Type ℓ} → Option A → (A → Outcome) → Outcome
need none f = fault
need (some a) f = f a

unfoldable pub get_reg : ℕ → Cpu → Option ℕ
get_reg r m =
    if r == 0
    then some m.eax
    else if r == 1
    then some m.ecx
    else if r == 2
    then some m.edx
    else if r == 3
    then some m.ebx
    else if r == 7
    then some m.edi
    else none

unfoldable pub set_reg : ℕ → ℕ → Cpu → Outcome
set_reg r v m =
    if r == 0
    then running (record m { eax = v })
    else if r == 1
    then running (record m { ecx = v })
    else if r == 2
    then running (record m { edx = v })
    else if r == 3
    then running (record m { ebx = v })
    else if r == 7
    then running (record m { edi = v })
    else fault

-- The result of an operation on numbers below a modulus; `cmp` subtracts.
abbrev pub alu_result : ℕ → Alu → ℕ → ℕ → ℕ
alu_result modulus add a b = (a + b) % modulus
alu_result modulus sub a b = (a + (modulus - b % modulus)) % modulus
alu_result modulus cmp a b = (a + (modulus - b % modulus)) % modulus

abbrev pub is_zero : ℕ → Bool
is_zero n = n == 0

-- The condition of a jump: that ZF is as given.
abbrev pub same_flag : Bool → Bool → Bool
same_flag true z = z
same_flag false true = false
same_flag false false = true

-- The tape is the only data memory: it starts at `base`.
module _ (base : ℕ) where
  unfoldable pub load_byte : ℕ → List ℕ → Option ℕ
  load_byte a cells = if ltb a base then none else get_elem? cells (a - base)

  unfoldable pub store_byte : ℕ → ℕ → List ℕ → List ℕ
  store_byte a v cells = set cells (a - base) v

  -- An operation on the byte at an address; `cmp` leaves it as it is.
  unfoldable pub on_byte : Alu → ℕ → ℕ → ℕ → Cpu → Outcome
  on_byte cmp a v b m = running (record m { zf = is_zero (alu_result 256 cmp v b) })
  on_byte o a v b m =
      let result = alu_result 256 o v b in
      running (record m { cells = store_byte a result m.cells; zf = is_zero result })

  unfoldable pub on_reg : Alu → ℕ → ℕ → ℕ → Cpu → Outcome
  on_reg cmp r v w m = running (record m { zf = is_zero (alu_result (2 ^ 32) cmp v w) })
  on_reg o r v w m =
      let result = alu_result (2 ^ 32) o v w in set_reg r result (record m { zf = is_zero result })

  -- The calls `read` and `write` of one byte, on the descriptors 0 and 1, and `exit`.
  unfoldable pub read_call : List ℕ → Cpu → Outcome
  read_call [] m = need (load_byte m.ecx m.cells) (λ v. running (record m { eax = 0 }))
  read_call (x ∷ xs) m =
      need (load_byte m.ecx m.cells)
        (λ v. running (record m { eax = 1; cells = store_byte m.ecx x m.cells; input = xs }))

  unfoldable pub write_call : Cpu → Outcome
  write_call m =
      need (load_byte m.ecx m.cells)
        (λ v. running (record m { eax = 1; output = m.output ++ v ∷ [] }))

  unfoldable pub system_call : Cpu → Outcome
  system_call m =
      if m.eax == 1
      then exited m.ebx m
      else if (m.eax == 3) && ((m.ebx == 0) && (m.edx == 1))
      then read_call m.input m
      else if (m.eax == 4) && ((m.ebx == 1) && (m.edx == 1))
      then write_call m
      else fault

  -- An instruction, when `eip` is behind it already.
  unfoldable pub execute : Instr → Cpu → Outcome
  execute (mov_imm r w) m = set_reg r w m
  execute (mov_reg d s) m = need (get_reg s m) (λ w. set_reg d w m)
  execute (alu_reg o r w) m = need (get_reg r m) (λ v. on_reg o r v w m)
  execute (alu_byte o r b) m =
      need (get_reg r m) (λ a. need (load_byte a m.cells) (λ v. on_byte o a v b m))
  execute (alu_byte_al o r) m =
      need (get_reg r m) (λ a. need (load_byte a m.cells) (λ v. on_byte o a v (m.eax % 256) m))
  execute (jump_if z d) m =
      running (if same_flag z m.zf then record m { eip = to_u32 (pos m.eip +ℤ d) } else m)
  execute (push_reg r) m = need (get_reg r m) (λ w. running (record m { stack = w ∷ m.stack }))
  execute (interrupt n) m = if n == 0x80 then system_call m else fault

  unfoldable pub step : List ℕ → Cpu → Outcome
  step code m = elim (decode (drop m.eip code)) [
    | none ↦ fault
    | some (i, n) ↦ execute i (record m { eip = m.eip + n })
  ]

  -- The run, on fuel: `running` means that the fuel ran out.
  unfoldable pub run : ℕ → List ℕ → Cpu → Outcome
  run zero code m = running m
  run (suc f) code m = elim (step code m) [
    | running m' ↦ run f code m'
    | exited n m' ↦ exited n m'
    | fault ↦ fault
  ]
