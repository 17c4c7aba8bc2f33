-- ===== src/Prog/Placed.antt =====
-- Where the instructions of a well-nested program stand in a list of instructions, and where the
-- jumps of its loops lead.
use bfcomp.Prelude.{
  ℕ, zero, suc, ◌+◌, ◌^◌, ◌<◌, ◌≤◌, ◌≡◌, refl, subst, List, [], ◌∷◌, ◌++◌, none, some, arith,
  length, get_elem?, length-append,
}
use bfcomp.Prelude.Int.{ℤ, pos, negsuc, ◌+ℤ◌}
use bfcomp.Word.{to_u64, to_i64, neg, neg-pos_suc, to_i64-eq_of_IsI64, next, jump_by}
use bfcomp.Ir.{OpKind, Op, op, Ctx}
use bfcomp.Prog.{Basic, Prog, done, basic, loop, kind_of, jump, flatten}

-- The instructions `xs` stand in `code` from `i` on.
abbrev pub HasAt : List Op → ℕ → List Op → Type 0
HasAt code i [] = Unit
HasAt code i (x ∷ xs) = (get_elem? code i ≡ some x) × HasAt code (suc i) xs

pub HasAt-append :
    (code : List Op) (i : ℕ) (xs ys : List Op)
    → HasAt code i (xs ++ ys)
    → HasAt code i xs × HasAt code (i + length xs) ys
HasAt-append code i [] ys h = (tt, subst (λ j. HasAt code j ys) (omega arith) h)
HasAt-append code i (x ∷ xs) ys h =
    let (a, b) = HasAt-append code (suc i) xs ys h.1 in
    ((h.0, a), subst (λ j. HasAt code j ys) (omega arith) b)

pub get_elem?-append_right {ℓ} :
    {A : Type ℓ} (xs : List A) (y : A) (ys : List A) → get_elem? (xs ++ y ∷ ys) (length xs) ≡ some y
get_elem?-append_right [] y ys = refl
get_elem?-append_right (x ∷ xs) y ys = get_elem?-append_right xs y ys

HasAt-cons :
    (y : Op) (code : List Op) (i : ℕ) (xs : List Op) → HasAt code i xs → HasAt (y ∷ code) (suc i) xs
HasAt-cons y code i [] h = tt
HasAt-cons y code i (x ∷ xs) h = (h.0, HasAt-cons y code (suc i) xs h.1)

-- A list stands at the start of itself, whatever follows.
pub HasAt-start : (xs post : List Op) → HasAt (xs ++ post) 0 xs
HasAt-start [] post = tt
HasAt-start (x ∷ xs) post = (refl, HasAt-cons x (xs ++ post) 0 xs (HasAt-start xs post))

pub lt-length_of_get_elem? {ℓ} :
    {A : Type ℓ} (xs : List A) (i : ℕ) {x : A} → get_elem? xs i ≡ some x → i < length xs
lt-length_of_get_elem? [] i h = cc
lt-length_of_get_elem? (y ∷ xs) zero h = omega arith
lt-length_of_get_elem? (y ∷ xs) (suc i) h = omega (arith, lt-length_of_get_elem? xs i h)

-- Instructions that can be addressed by an `int64_t`.
abbrev pub IsShort : List Op → Type 0
IsShort code = length code < 2 ^ 63

-- The next instruction, and the two ends of a loop.
pub next-eq-suc : (code : List Op) (i : ℕ) → IsShort code → i ≤ length code → next i ≡ suc i
unfolding next
next-eq-suc code i s h = omega arith

module _ (i n : ℕ) (h : i + n + 2 < 2 ^ 63) where
  jump-pos : jump n ≡ pos (suc n)
  jump-pos = to_i64-eq_of_IsI64 (pos (suc n)) (omega arith)

  pub next-jump_forward : next (jump_by i (jump n)) ≡ suc (suc i + n)
  unfolding next jump_by to_u64 ◌+ℤ◌
  next-jump_forward = rw jump-pos (ground arith)

  back-negsuc : to_i64 (neg (jump n)) ≡ negsuc n
  back-negsuc = rw (jump-pos, neg-pos_suc) (to_i64-eq_of_IsI64 (negsuc n) (omega arith))

  pub next-jump_back : next (jump_by (suc i + n) (to_i64 (neg (jump n)))) ≡ suc i
  unfolding next jump_by to_u64 ◌+ℤ◌
  next-jump_back = rw back-negsuc (ground arith)

module _ (code : List Op) (short : IsShort code) where
  pub next-at : (i : ℕ) (o : Op) → get_elem? code i ≡ some o → next i ≡ suc i
  next-at i o h = next-eq-suc code i short (omega (arith, lt-length_of_get_elem? code i h))

-- A loop that stands at `i`.
module _ (code : List Op) (i : ℕ) (body p : Prog)
    (here : HasAt code i (flatten (loop body p))) where
  abbrev pub close_at : ℕ
  close_at = suc i + length (flatten body)

  pub parts :
      (get_elem? code i ≡ some (op OpKind.loop_start (jump (length (flatten body)))))
      × HasAt code (suc i) (flatten body)
      × (get_elem? code close_at
          ≡ some (op OpKind.loop_end (to_i64 (neg (jump (length (flatten body)))))))
      × HasAt code (suc close_at) (flatten p)
  unfolding flatten
  parts =
      let (inside, behind) = HasAt-append code (suc i) (flatten body) _ here.1 in
      (here.0, inside, behind.0, behind.1)

  pub close-lt : suc close_at ≤ length code
  close-lt = omega (arith, lt-length_of_get_elem? code close_at parts.2)

  module _ (short : IsShort code) where
    pub next-over : next (jump_by i (jump (length (flatten body)))) ≡ suc close_at
    next-over = next-jump_forward i (length (flatten body)) (omega (arith, close-lt))

    pub next-back : next (jump_by close_at (to_i64 (neg (jump (length (flatten body)))))) ≡ suc i
    next-back = next-jump_back i (length (flatten body)) (omega (arith, close-lt))

  pub behind-loop : suc close_at + length (flatten p) ≡ i + length (flatten (loop body p))
  unfolding flatten
  behind-loop = omega (
    arith,
    length-append (flatten body)
        (op OpKind.loop_end (to_i64 (neg (jump (length (flatten body))))) ∷ flatten p),
  )

abbrev pub behind : ℕ → Prog → ℕ
behind i p = i + length (flatten p)

pub behind-done : (i : ℕ) → behind i done ≡ i
unfolding flatten
behind-done i = omega arith

pub behind-basic :
    (i : ℕ) (b : Basic) (z : ℤ) (p : Prog) → behind (suc i) p ≡ behind i (basic b z p)
unfolding flatten
behind-basic i b z p = omega arith

module _ (code : List Op) where
  pub basic-here :
      (i : ℕ) (b : Basic) (z : ℤ) (p : Prog)
      → HasAt code i (flatten (basic b z p))
      → (get_elem? code i ≡ some (op (kind_of b) z)) × HasAt code (suc i) (flatten p)
  unfolding flatten
  basic-here i b z p h = h

-- No instruction stands behind the last one.
pub get_elem?-past {ℓ} : {A : Type ℓ} (xs : List A) (i : ℕ) → length xs ≤ i → get_elem? xs i ≡ none
get_elem?-past [] i h = refl
get_elem?-past (x ∷ xs) zero h = absurd (omega arith)
get_elem?-past (x ∷ xs) (suc i) h = get_elem?-past xs i (omega arith)

-- The context holds the layout of a program, short enough for an `int64_t` to address the halt
-- instruction behind it.
pub record Holds (c : Ctx) (p : Prog) : Type 0 where
  pub layout : c.code ≡ flatten p
  pub fits : length c.code + 1 < 2 ^ 63
