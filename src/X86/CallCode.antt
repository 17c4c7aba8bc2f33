-- ===== src/X86/CallCode.antt =====
-- The code that csrc/src/ir_compile.c emits for the system calls.
use bfcomp.Prelude.{
  ℕ, zero, suc, ◌+◌, ◌≡◌, refl, sym, ap, subst, ◌∙◌, List, [], ◌∷◌, ◌++◌, Option, some,
  some_injective, arith, get_elem?,
}
use mathlib.Core.Option
use bfcomp.Prelude.Int.{pos}
use bfcomp.Word.{to_u32}
use bfcomp.Interp.{Store, repeat, write_byte, read_byte, read_from, update, load, load_at, store_at}
use bfcomp.Emit.{sys_read, sys_write, push_int32, const_arg, emit_transfer, emit_writes}
use bfcomp.Compile.Append.{writes-append}
use bfcomp.X86.Decode.{
  mov_imm, mov_reg, interrupt, word_of, decode, decode_reg, decode_mov, decode_89, decode_cd,
}
use bfcomp.X86.Machine.{get_reg, set_reg, execute, system_call, read_call, write_call}
use bfcomp.X86.Flow.{Runs, Runs-one, Runs-nil, Runs-append}
use bfcomp.X86.Steps.{Regs, cpu, with_cell, load-cell, store-cell}
use bfcomp.X86.CellCode.{Does, Does-append, set-same}

small_word : (n : ℕ) → word_of n 0 0 0 ≡ n
small_word n = omega arith

-- The arguments of a call for the byte under `%edi`, and the call.
abbrev set_up : ℕ → ℕ → List ℕ
set_up number fd =
    0xB8 ∷ number ∷ 0 ∷ 0 ∷ 0 ∷ 0xBB ∷ fd ∷ 0 ∷ 0 ∷ 0 ∷ 0x89 ∷ 0xF9 ∷ 0xBA ∷ 1 ∷ 0 ∷ 0 ∷ 0 ∷ []

abbrev for_call : ℕ → ℕ → ℕ → Regs → Regs
for_call number fd edi r = record r { eax = number; ebx = fd; ecx = edi; edx = 1 }

abbrev call_bytes : List ℕ
call_bytes = 0xCD ∷ 0x80 ∷ []

write_bytes : emit_transfer sys_write 1 [] ≡ set_up 4 1 ++ call_bytes
unfolding emit_transfer const_arg push_int32 to_u32
write_bytes = refl

read_bytes : emit_transfer sys_read 0 [] ≡ set_up 3 0 ++ call_bytes
unfolding emit_transfer const_arg push_int32 to_u32
read_bytes = refl

call_decoded : (post : List ℕ) → decode (call_bytes ++ post) ≡ some (interrupt 0x80, 2)
unfolding decode decode_cd
call_decoded post = refl

module _ (base edi : ℕ) (s : Store) where
  set_up-Runs :
      (number fd : ℕ) (r : Regs)
      → Runs base (set_up number fd) (cpu r edi s) (cpu (for_call number fd edi r) edi s)
  unfolding decode decode_reg decode_mov decode_89 execute get_reg set_reg
  set_up-Runs number fd r =
      Runs-append base
        (Runs-one base (0xB8 ∷ number ∷ 0 ∷ 0 ∷ 0 ∷ []) (mov_imm 0 number) (cpu r edi s)
          (cpu (record r { eax = number }) edi s)
          (λ post. ap (λ w. some (mov_imm 0 w, 5)) (small_word number)) (λ i. refl))
        (Runs-append base
          (Runs-one base (0xBB ∷ fd ∷ 0 ∷ 0 ∷ 0 ∷ []) (mov_imm 3 fd) _
            (cpu (record r { eax = number; ebx = fd }) edi s)
            (λ post. ap (λ w. some (mov_imm 3 w, 5)) (small_word fd)) (λ i. refl))
          (Runs-append base
            (Runs-one base (0x89 ∷ 0xF9 ∷ []) (mov_reg 1 7) _
              (cpu (record r { eax = number; ebx = fd; ecx = edi }) edi s) (λ post. refl)
              (λ i. refl))
            (Runs-one base (0xBA ∷ 1 ∷ 0 ∷ 0 ∷ 0 ∷ []) (mov_imm 2 1) _ _
              (λ post. ap (λ w. some (mov_imm 2 w, 5)) (small_word 1)) (λ i. refl))))

module _ (base k v : ℕ) (s : Store) (found : get_elem? s.cells k ≡ some v) where
  write_call-Runs :
      (r : Regs)
      → Runs base call_bytes (cpu (for_call 4 1 (base + k) r) (base + k) s) (
          cpu
            (record r { eax = 1; ebx = 1; ecx = base + k; edx = 1 })
            (base + k)
            (record s { output = s.output ++ v ∷ [] }))
  unfolding execute system_call write_call
  write_call-Runs r =
      Runs-one base call_bytes (interrupt 0x80) _ _ call_decoded
        (λ i. rw (load-cell base k s.cells, found))

  pub write-Does :
      Does base
        (emit_transfer sys_write 1 [])
        (base + k)
        s
        (base + k)
        (record s { output = s.output ++ v ∷ [] })
  write-Does =
      subst (λ t. Does base t (base + k) s (base + k) (record s { output = s.output ++ v ∷ [] }))
        (sym write_bytes)
        (record {
          regs = λ r. record r { eax = 1; ebx = 1; ecx = base + k; edx = 1 };
          runs = λ r. Runs-append base (set_up-Runs base (base + k) s 4 1 r) (write_call-Runs r);
        })

  read_call-Runs :
      (r : Regs) (x : ℕ) (xs : List ℕ)
      → s.input ≡ x ∷ xs
      → Runs base call_bytes (cpu (for_call 3 0 (base + k) r) (base + k) s) (
          cpu
            (record r { eax = 1; ebx = 0; ecx = base + k; edx = 1 })
            (base + k)
            (record (with_cell k x s) { input = xs }))
  unfolding execute system_call read_call
  read_call-Runs r x xs e =
      Runs-one base call_bytes (interrupt 0x80) _ _ call_decoded
        (λ i. simp (e, load-cell base k s.cells, found, store-cell base k x s.cells))

  no_read-Runs :
      (r : Regs)
      → s.input ≡ []
      → Runs base call_bytes
          (cpu (for_call 3 0 (base + k) r) (base + k) s)
          (cpu (record r { eax = 0; ebx = 0; ecx = base + k; edx = 1 }) (base + k) s)
  unfolding execute system_call read_call
  no_read-Runs r e =
      Runs-one base call_bytes (interrupt 0x80) _ _ call_decoded
        (λ i. simp (e, load-cell base k s.cells, found))

  read-Does_next :
      (x : ℕ) (xs : List ℕ)
      → s.input ≡ x ∷ xs
      → Does base
          (emit_transfer sys_read 0 [])
          (base + k)
          s
          (base + k)
          (record (with_cell k x s) { input = xs })
  read-Does_next x xs e =
      subst (λ t. Does base t (base + k) s (base + k) (record (with_cell k x s) { input = xs }))
        (sym read_bytes)
        (record {
          regs = λ r. record r { eax = 1; ebx = 0; ecx = base + k; edx = 1 };
          runs =
              λ r. Runs-append base (set_up-Runs base (base + k) s 3 0 r) (read_call-Runs r x xs e);
        })

  read-Does_end : s.input ≡ [] → Does base (emit_transfer sys_read 0 []) (base + k) s (base + k) s
  read-Does_end e =
      subst (λ t. Does base t (base + k) s (base + k) s) (sym read_bytes)
        (record {
          regs = λ r. record r { eax = 0; ebx = 0; ecx = base + k; edx = 1 };
          runs = λ r. Runs-append base (set_up-Runs base (base + k) s 3 0 r) (no_read-Runs r e);
        })

-- The cell under `sp`.
pub record Under (s : Store) (k : ℕ) (v : ℕ) : Type 0 where
  pub here : s.sp ≡ pos k
  pub found : get_elem? s.cells k ≡ some v

pub load-Under : (s : Store) (k v : ℕ) → Under s k v → load s ≡ some v
unfolding load load_at
load-Under s k v u = ap (load_at s.cells) u.here ∙ u.found

pub update-Under :
    (f : ℕ → ℕ) (s : Store) (k v : ℕ) → Under s k v → update f s ≡ some (with_cell k (f v) s)
unfolding update store_at
update-Under f s k v u =
    ap (Option.map (λ v. record s { cells = store_at s.cells s.sp (f v) })) (load-Under s k v u)
    ∙ ap (λ p. some (record s { cells = store_at s.cells p (f v) })) u.here

pub write_byte-Under :
    (s : Store) (k v : ℕ)
    → Under s k v
    → write_byte s ≡ some (record s { output = s.output ++ v ∷ [] })
unfolding write_byte
write_byte-Under s k v u =
    ap (Option.map (λ v. record s { output = s.output ++ v ∷ [] })) (load-Under s k v u)

read_byte-next :
    (s : Store) (k v x : ℕ) (xs : List ℕ)
    → Under s k v
    → s.input ≡ x ∷ xs
    → read_byte s ≡ some (record (with_cell k x s) { input = xs })
unfolding read_byte read_from
read_byte-next s k v x xs u e =
    ap (λ i. read_from i s) e
    ∙ update-Under (λ _. x) (record s { input = xs }) k v
        (record { here = u.here; found = u.found })

read_byte-end : (s : Store) (k v : ℕ) → Under s k v → s.input ≡ [] → read_byte s ≡ some s
unfolding read_byte read_from
read_byte-end s k v u e =
    ap (λ i. read_from i s) e
    ∙ update-Under (λ v. v) s k v u
    ∙ ap (λ c. some (record s { cells = c })) (set-same s.cells k v u.found)

pub repeat-some :
    (n : ℕ) (f : Store → Option Store) (s : Store) {t : Store}
    → f s ≡ some t
    → repeat (suc n) f s ≡ repeat n f t
unfolding repeat
repeat-some n f s e = rw (repeat, e)

module _ (base k v : ℕ) where
  -- The code of an instruction that reads one byte does what the interpreter does.
  pub read-Does :
      (s s' : Store)
      → Under s k v
      → read_byte s ≡ some s'
      → Does base (emit_transfer sys_read 0 []) (base + k) s (base + k) s'
  read-Does s s' u e = by_input s.input refl
    where
      by_input :
          (i : List ℕ)
          → s.input ≡ i
          → Does base (emit_transfer sys_read 0 []) (base + k) s (base + k) s'
      by_input [] q =
          subst (Does base (emit_transfer sys_read 0 []) (base + k) s (base + k))
            (some_injective (sym (read_byte-end s k v u q) ∙ e))
            (read-Does_end base k v s u.found q)
      by_input (x ∷ xs) q =
          subst (Does base (emit_transfer sys_read 0 []) (base + k) s (base + k))
            (some_injective (sym (read_byte-next s k v x xs u q) ∙ e))
            (read-Does_next base k v s u.found x xs q)

  -- So does the code of an instruction that writes, whatever its count.
  pub writes-Does :
      (n : ℕ) (s s' : Store)
      → Under s k v
      → repeat n write_byte s ≡ some s'
      → Does base (emit_writes n []) (base + k) s (base + k) s'
  unfolding repeat emit_writes
  writes-Does zero s s' u e =
      subst (Does base [] (base + k) s (base + k)) (some_injective e)
        (record { regs = λ r. r; runs = λ r. Runs-nil base (cpu r (base + k) s) })
  writes-Does (suc n) s s' u e =
      subst (λ t. Does base t (base + k) s (base + k) s')
        (sym (writes-append n (emit_transfer sys_write 1 [])))
        (Does-append base (write-Does base k v s u.found) (
          writes-Does n (record s { output = s.output ++ v ∷ [] }) s'
            (record { here = u.here; found = u.found })
            (sym (repeat-some n write_byte s (write_byte-Under s k v u)) ∙ e)))
