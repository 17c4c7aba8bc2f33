-- ===== src/Map/Keys.antt =====
-- The keys of a map of two values, in one order or in the other.
use bfcomp.Prelude.{◌≡◌, ◌≢◌, refl, sym, ap₂, ◌∙◌, ◌⊎◌, inl, inr, List, [], ◌∷◌}
use bfcomp.Options.{Text}
use bfcomp.Map.{Occurs, AllDistinct}

module _ (a b : Text) (apart : a ≢ b) where
  -- There is no third key.
  no_third :
      (x y z : Text) (ks : List Text)
      → AllDistinct (x ∷ y ∷ z ∷ ks)
      → (x ≡ a) ⊎ (x ≡ b)
      → (y ≡ a) ⊎ (y ≡ b)
      → (z ≡ a) ⊎ (z ≡ b)
      → ⊥
  no_third x y z ks d (inl p) (inl q) r = d.0 (inl (p ∙ sym q))
  no_third x y z ks d (inr p) (inr q) r = d.0 (inl (p ∙ sym q))
  no_third x y z ks d (inl p) (inr q) (inl r) = d.0 (inr (inl (p ∙ sym r)))
  no_third x y z ks d (inl p) (inr q) (inr r) = d.1.0 (inl (q ∙ sym r))
  no_third x y z ks d (inr p) (inl q) (inl r) = d.1.0 (inl (q ∙ sym r))
  no_third x y z ks d (inr p) (inl q) (inr r) = d.0 (inr (inl (p ∙ sym r)))

  both_there :
      (x y : Text)
      → ¬ Occurs x (y ∷ [])
      → (x ≡ a) ⊎ (x ≡ b)
      → (y ≡ a) ⊎ (y ≡ b)
      → (x ∷ y ∷ [] ≡ a ∷ b ∷ []) ⊎ (x ∷ y ∷ [] ≡ b ∷ a ∷ [])
  both_there x y d (inl p) (inl q) = absurd (d (inl (p ∙ sym q)))
  both_there x y d (inl p) (inr q) = inl (ap₂ (λ s t. s ∷ t ∷ []) p q)
  both_there x y d (inr p) (inl q) = inr (ap₂ (λ s t. s ∷ t ∷ []) p q)
  both_there x y d (inr p) (inr q) = absurd (d (inl (p ∙ sym q)))

  one_left : (x y : Text) → Occurs x (y ∷ []) → x ≡ y
  one_left x y (inl e) = e
  one_left x y (inr o) = absurd o

  pub two_keys :
      (ks : List Text)
      → AllDistinct ks
      → Occurs a ks
      → Occurs b ks
      → ((k : Text) → Occurs k ks → (k ≡ a) ⊎ (k ≡ b))
      → (ks ≡ a ∷ b ∷ []) ⊎ (ks ≡ b ∷ a ∷ [])
  two_keys [] d oa ob h = absurd oa
  two_keys (x ∷ []) d oa ob h = absurd (apart (one_left a x oa ∙ sym (one_left b x ob)))
  two_keys (x ∷ y ∷ []) d oa ob h = both_there x y d.0 (h x (inl refl)) (h y (inr (inl refl)))
  two_keys (x ∷ y ∷ z ∷ ks) d oa ob h =
      absurd
        (no_third x y z ks d (h x (inl refl)) (h y (inr (inl refl))) (h z (inr (inr (inl refl)))))
