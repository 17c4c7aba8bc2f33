-- ===== src/Map.antt =====
-- The hash map of csrc/include/rxi/map.h, another project's, as an interface: what the program calls
-- of it, and what it relies on. Keys are texts, and values are kept in nodes that stay where they are.
pub mod Assoc
pub mod Keys
use bfcomp.Prelude.{
  ℕ, Bool, true, false, refl, ◌==◌, ==_iff, ◌&&◌, Bool-cases, inl, inr, ap₂, zero, suc, ◌≡◌, ◌≢◌,
  ◌⊎◌, List, [], ◌∷◌, Option, none, some,
}
use bfcomp.Options.{Text}

-- The comparison of keys, `memcmp` of their bytes.
unfoldable pub same_text : Text → Text → Bool
same_text [] [] = true
same_text (x ∷ xs) (y ∷ ys) = (x == y) && same_text xs ys
same_text _ _ = false

pub eq-same_text : (xs ys : Text) → same_text xs ys ≡ true → xs ≡ ys
unfolding same_text
eq-same_text [] [] h = refl
eq-same_text [] (y ∷ ys) h = absurd cc
eq-same_text (x ∷ xs) [] h = absurd cc
eq-same_text (x ∷ xs) (y ∷ ys) h = elim (Bool-cases (x == y)) [
  | inl e ↦ ap₂ (λ a t. a ∷ t) ((==_iff x y).0 e) (eq-same_text xs ys (rw e at h))
  | inr e ↦ absurd (let h' : false ≡ true = rw e at h in cc)
]

pub same_text_self : (xs : Text) → same_text xs xs ≡ true
unfolding same_text
same_text_self [] = refl
same_text_self (x ∷ xs) = rw ((==_iff x x).1 refl) (same_text_self xs)

abbrev pub Occurs : Text → List Text → Type 0
Occurs k [] = ⊥
Occurs k (x ∷ xs) = (k ≡ x) ⊎ Occurs k xs

abbrev pub AllDistinct : List Text → Type 0
AllDistinct [] = Unit
AllDistinct (x ∷ xs) = (¬ Occurs x xs) × AllDistinct xs

-- `put` is an assignment through the pointer that `map_get` gives, and `keys` is what `map_iter` and
-- `map_next` walk over. The macro `map_set` counts each of its calls.
pub record MapOf (V : Type 0) : Type 1 where
  pub Carrier : Type 0
  pub empty : Carrier
  pub set : Text → V → Carrier → Carrier
  pub get : Text → Carrier → Option V
  pub put : Text → V → Carrier → Carrier
  pub keys : Carrier → List Text
  pub count : Carrier → ℕ
  pub get-set_self : (k : Text) (v : V) (m : Carrier) → get k (set k v m) ≡ some v
  pub get-set_other : (k k' : Text) (v : V) (m : Carrier) → k ≢ k' → get k (set k' v m) ≡ get k m
  pub get-put_self :
      (k : Text) (u v : V) (m : Carrier) → get k m ≡ some u → get k (put k v m) ≡ some v
  pub get-put_other : (k k' : Text) (v : V) (m : Carrier) → k ≢ k' → get k (put k' v m) ≡ get k m
  pub keys-put : (k : Text) (v : V) (m : Carrier) → keys (put k v m) ≡ keys m
  pub count-put : (k : Text) (v : V) (m : Carrier) → count (put k v m) ≡ count m
  pub count-set : (k : Text) (v : V) (m : Carrier) → count (set k v m) ≡ suc (count m)
  pub keys-distinct : (m : Carrier) → AllDistinct (keys m)
  pub get-key : (k : Text) (m : Carrier) → Occurs k (keys m) → (v : V) × (get k m ≡ some v)
  pub key-get : (k : Text) (v : V) (m : Carrier) → get k m ≡ some v → Occurs k (keys m)
  pub get-empty : (k : Text) → get k empty ≡ none
  pub count-empty : count empty ≡ 0
