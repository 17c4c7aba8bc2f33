-- ===== src/X86/Steps.antt =====
-- What single instructions do on the byte under `%edi`, and on `%edi`.
use bfcomp.Prelude.{
  ℕ, ◌+◌, ◌/◌, ◌%◌, ◌^◌, ◌≡◌, ◌<◌, ap, ◌∙◌, List, some, Bool, false, arith, get_elem?, set, ltb,
}
use bfcomp.Interp.{Store}
use bfcomp.X86.Decode.{alu_byte, alu_byte_al, Alu, add, sub, cmp, word_of}
use bfcomp.X86.Machine.{
  Cpu, running, is_zero, alu_result, get_reg, load_byte, store_byte, on_byte, execute,
}
use bfcomp.X86.Flow.{at}

-- The registers that the code changes freely, and the stack.
pub record Regs : Type 0 where
  pub eax : ℕ
  pub ecx : ℕ
  pub edx : ℕ
  pub ebx : ℕ
  pub zf : Bool
  pub stack : List ℕ

-- The processor with `%edi` and the tape and the streams of a store.
abbrev pub cpu : Regs → ℕ → Store → Cpu
cpu r edi s = record {
  eip = 0;
  eax = r.eax;
  ecx = r.ecx;
  edx = r.edx;
  ebx = r.ebx;
  edi = edi;
  zf = r.zf;
  stack = r.stack;
  cells = s.cells;
  input = s.input;
  output = s.output;
}

abbrev pub with_cell : ℕ → ℕ → Store → Store
with_cell k v s = record s { cells = set s.cells k v }

pub word-le_bytes :
    (w : ℕ)
    → w < 2 ^ 32
    → word_of (w % 256) (w / 256 % 256) (w / 256 / 256 % 256) (w / 256 / 256 / 256 % 256) ≡ w
word-le_bytes w h = omega arith

module _ (base : ℕ) where
  above : (k : ℕ) → ltb (base + k) base ≡ false
  above k = ground arith

  pub load-cell : (k : ℕ) (cells : List ℕ) → load_byte base (base + k) cells ≡ get_elem? cells k
  unfolding load_byte
  load-cell k cells = rw (above k) (ap (get_elem? cells) (omega arith))

  pub store-cell : (k v : ℕ) (cells : List ℕ) → store_byte base (base + k) v cells ≡ set cells k v
  unfolding store_byte
  store-cell k v cells = ap (λ i. set cells i v) (omega arith)

  module _ (r : Regs) (k v : ℕ) (s : Store) (found : get_elem? s.cells k ≡ some v) where
    pub execute-byte :
        (o : Alu) (b i : ℕ)
        → execute base (alu_byte o 7 b) (at i (cpu r (base + k) s))
          ≡ on_byte base o (base + k) v b (at i (cpu r (base + k) s))
    unfolding execute get_reg
    execute-byte o b i = rw (load-cell k s.cells, found)

    -- An addition to the byte, or a subtraction from it.
    pub execute-add :
        (b i : ℕ)
        → execute base (alu_byte add 7 b) (at i (cpu r (base + k) s))
          ≡ running (
              at i (
                cpu
                  (record r { zf = is_zero (alu_result 256 add v b) })
                  (base + k)
                  (with_cell k (alu_result 256 add v b) s)))
    unfolding on_byte
    execute-add b i = execute-byte add b i ∙ rw (store-cell k (alu_result 256 add v b) s.cells)

    pub execute-sub :
        (b i : ℕ)
        → execute base (alu_byte sub 7 b) (at i (cpu r (base + k) s))
          ≡ running (
              at i (
                cpu
                  (record r { zf = is_zero (alu_result 256 sub v b) })
                  (base + k)
                  (with_cell k (alu_result 256 sub v b) s)))
    unfolding on_byte
    execute-sub b i = execute-byte sub b i ∙ rw (store-cell k (alu_result 256 sub v b) s.cells)

    pub execute-cmp :
        (b i : ℕ)
        → execute base (alu_byte cmp 7 b) (at i (cpu r (base + k) s))
          ≡ running (at i (cpu (record r { zf = is_zero (alu_result 256 cmp v b) }) (base + k) s))
    unfolding on_byte
    execute-cmp b i = execute-byte cmp b i

    pub execute-add_al :
        (i : ℕ)
        → execute base (alu_byte_al add 7) (at i (cpu r (base + k) s))
          ≡ running (
              at i (
                cpu
                  (record r { zf = is_zero (alu_result 256 add v (r.eax % 256)) })
                  (base + k)
                  (with_cell k (alu_result 256 add v (r.eax % 256)) s)))
    unfolding execute get_reg on_byte
    execute-add_al i =
        rw (load-cell k s.cells, found)
          (rw (store-cell k (alu_result 256 add v (r.eax % 256)) s.cells))

    pub execute-sub_al :
        (i : ℕ)
        → execute base (alu_byte_al sub 7) (at i (cpu r (base + k) s))
          ≡ running (
              at i (
                cpu
                  (record r { zf = is_zero (alu_result 256 sub v (r.eax % 256)) })
                  (base + k)
                  (with_cell k (alu_result 256 sub v (r.eax % 256)) s)))
    unfolding execute get_reg on_byte
    execute-sub_al i =
        rw (load-cell k s.cells, found)
          (rw (store-cell k (alu_result 256 sub v (r.eax % 256)) s.cells))
