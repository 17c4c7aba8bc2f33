-- ===== src/Meaning/Commas.antt =====
-- How often a `,` may be repeated in a text: any number of times for the interpreter, but once for the
-- code that csrc/src/ir_compile.c makes.
use bfcomp.Prelude.{
  ℕ, zero, suc, ◌≡◌, ◌≢◌, refl, ap, ◌∙◌, List, [], ◌∷◌, some, true, false, inl, inr, ◌==◌, ==_iff,
  Bool, Bool-cases, if◌then◌else◌, get_elem?, drop, take,
}
use bfcomp.Prelude.Int.{ℤ, pos}
use bfcomp.Parse.{run_length, count_char}
use bfcomp.Parse.Round.{both}
use bfcomp.Meaning.{Command, right, left, inc, dec, put, Token, orders, token}
use bfcomp.Meaning.Counted.{Allowed}
use bfcomp.Meaning.Tame.{Single}
use bfcomp.Meaning.Parser.{AllowedText}
use bfcomp.Meaning.Chunks.{ForChunks}

-- Any number of bytes may be read.
unfoldable pub AnyNumber : ℤ → Type 0
AnyNumber z = Unit

unfoldable pub AnyText : List ℕ → Type 0
AnyText xs = Unit

AnyNumber-Allowed : (c : Command) (n : ℕ) → Allowed AnyNumber c n
unfolding Allowed AnyNumber
AnyNumber-Allowed right n = tt
AnyNumber-Allowed left n = tt
AnyNumber-Allowed inc n = tt
AnyNumber-Allowed dec n = tt
AnyNumber-Allowed put n = tt
AnyNumber-Allowed Command.take n = tt

AnyNumber-AllowedText : (xs : List ℕ) → AllowedText AnyNumber xs
unfolding AllowedText
AnyNumber-AllowedText [] = tt
AnyNumber-AllowedText (x ∷ xs) = ((λ c e. AnyNumber-Allowed c _), AnyNumber-AllowedText xs)

pub AnyText-ForChunks : ForChunks AnyNumber AnyText
unfolding AnyText
AnyText-ForChunks = record {
  allows = λ xs h. AnyNumber-AllowedText xs;
  takes = λ n xs h. tt;
  drops = λ n xs h. tt;
}

-- No `,` stands directly behind another.
unfoldable pub CommasApart : List ℕ → Type 0
CommasApart [] = Unit
CommasApart (x ∷ xs) = (x ≡ b',' → get_elem? xs 0 ≢ some b',') × CommasApart xs

take_head :
    (n : ℕ) (xs : List ℕ) (c : ℕ) → get_elem? (take n xs) 0 ≡ some c → get_elem? xs 0 ≡ some c
take_head zero xs c e = absurd cc
take_head (suc n) [] c e = e
take_head (suc n) (x ∷ xs) c e = e

take-CommasApart : (n : ℕ) (xs : List ℕ) → CommasApart xs → CommasApart (take n xs)
unfolding CommasApart
take-CommasApart zero xs h = tt
take-CommasApart (suc n) [] h = tt
take-CommasApart (suc n) (x ∷ xs) h =
    ((λ e q. h.0 e (take_head n xs b',' q)), take-CommasApart n xs h.1)

drop-CommasApart : (n : ℕ) (xs : List ℕ) → CommasApart xs → CommasApart (drop n xs)
unfolding CommasApart
drop-CommasApart zero xs h = h
drop-CommasApart (suc n) [] h = h
drop-CommasApart (suc n) (x ∷ xs) h = drop-CommasApart n xs h.1

both_known {ℓ κ} :
    {A : Type ℓ} (P : A → Type κ) (b : Bool) {x y : A}
    → (b ≡ true → P x)
    → P y
    → P (if b then x else y)
both_known P true h k = h refl
both_known P false h k = k

-- The only character that takes a byte.
token-take : (x : ℕ) → token x ≡ orders Command.take → x ≡ b','
unfolding token
token-take x =
    both_known P (x == b',') (λ q e. (==_iff x b',').0 q)
      (both P (x == b'.') (λ e. absurd cc)
        (both P (x == b'+') (λ e. absurd cc)
          (both P (x == b'-') (λ e. absurd cc)
            (both P (x == b'>') (λ e. absurd cc)
              (both P (x == b'<') (λ e. absurd cc)
                (both P (x == b'[') (λ e. absurd cc)
                  (both P (x == b']') (λ e. absurd cc) (λ e. absurd cc))))))))
  where
    P : Token → Type 0
    P t = t ≡ orders Command.take → x ≡ b','

run_length_head : (xs : List ℕ) (c : ℕ) → get_elem? xs 0 ≢ some c → run_length xs c ≡ 0
unfolding run_length
run_length_head [] c h = refl
run_length_head (x ∷ xs) c h = elim (Bool-cases (x == c)) [
  | inl e ↦ absurd (h (ap (λ u. some u) ((==_iff x c).0 e)))
  | inr e ↦ rw e refl
]

CommasApart-Allowed :
    (x : ℕ) (xs : List ℕ) (c : Command)
    → (x ≡ b',' → get_elem? xs 0 ≢ some b',')
    → token x ≡ orders c
    → Allowed Single c (count_char xs x)
unfolding Allowed Single count_char
CommasApart-Allowed x xs right h e = tt
CommasApart-Allowed x xs left h e = tt
CommasApart-Allowed x xs inc h e = tt
CommasApart-Allowed x xs dec h e = tt
CommasApart-Allowed x xs put h e = tt
CommasApart-Allowed x xs Command.take h e =
    let q = token-take x e in
    ap (λ n. pos (suc n)) (run_length_head xs x (λ u. h q (u ∙ ap (λ v. some v) q)))

CommasApart-AllowedText : (xs : List ℕ) → CommasApart xs → AllowedText Single xs
unfolding AllowedText CommasApart
CommasApart-AllowedText [] h = tt
CommasApart-AllowedText (x ∷ xs) h =
    ((λ c e. CommasApart-Allowed x xs c h.0 e), CommasApart-AllowedText xs h.1)

pub CommasApart-ForChunks : ForChunks Single CommasApart
CommasApart-ForChunks = record {
  allows = CommasApart-AllowedText;
  takes = take-CommasApart;
  drops = drop-CommasApart;
}
