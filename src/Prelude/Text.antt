-- ===== src/Prelude/Text.antt =====
-- Text as the list of its bytes, and what `printf` writes for numbers.
use Prim.Native.Char.{code}
use Prim.Native.String.{String}
use bfcomp.Prelude.{ℕ, zero, suc, ◌+◌, ◌-◌, ◌/◌, ◌%◌, List, [], ◌∷◌, ltb, if◌then◌else◌}
use bfcomp.Prelude.Int.{ℤ, pos, negsuc}

-- The bytes of an ASCII text.
abbrev pub codes : String → List ℕ
codes String.[] = []
codes (String.◌∷◌ c s) = code c ∷ codes s

-- The digits of a number in a base below 17, on fuel; a number has fewer digits than its value,
-- or one.
unfoldable pub digit : ℕ → ℕ
digit d = if ltb d 10 then b'0' + d else b'a' + (d - 10)

unfoldable pub digits_from : ℕ → ℕ → ℕ → List ℕ → List ℕ
digits_from zero base n acc = acc
digits_from (suc f) base n acc =
    let acc' = digit (n % base) ∷ acc in
    let rest = digits_from f base (n / base) acc' in if ltb n base then acc' else rest

-- `%lu` and `%zu`, `%ld`, and `%02lx`.
unfoldable pub decimal : ℕ → List ℕ
unfolding digits_from digit
decimal n = digits_from (suc n) 10 n []

unfoldable pub decimal_ℤ : ℤ → List ℕ
unfolding decimal
decimal_ℤ (pos n) = decimal n
decimal_ℤ (negsuc n) = b'-' ∷ decimal (suc n)
