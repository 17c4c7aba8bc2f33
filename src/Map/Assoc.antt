-- ===== src/Map/Assoc.antt =====
-- Association lists with one entry for each key, as an implementation of the interface of the map.
use bfcomp.Prelude.{
  ℕ, suc, ◌≡◌, ◌≢◌, refl, sym, ◌∙◌, false, List, [], ◌∷◌, Option, none, some, if◌then◌else◌,
  Bool-cases, inl, inr, subst,
}
use bfcomp.Options.{Text}
use bfcomp.Map.{MapOf, Occurs, AllDistinct, same_text, eq-same_text, same_text_self}

differ : (k x : Text) → k ≢ x → same_text k x ≡ false
differ k x h = elim (Bool-cases (same_text k x)) [
  | inl e ↦ absurd (h (eq-same_text k x e))
  | inr e ↦ e
]

module _ {V : Type 0} where
  unfoldable pub look : Text → List (Text × V) → Option V
  look k [] = none
  look k ((x, v) ∷ xs) = if same_text k x then some v else look k xs

  unfoldable pub replaced : Text → V → List (Text × V) → List (Text × V)
  replaced k v [] = []
  replaced k v ((x, u) ∷ xs) = if same_text k x then (x, v) ∷ xs else (x, u) ∷ replaced k v xs

  unfoldable pub names : List (Text × V) → List Text
  names [] = []
  names ((x, v) ∷ xs) = x ∷ names xs

  pub names-replaced :
      (k : Text) (v : V) (xs : List (Text × V)) → names (replaced k v xs) ≡ names xs
  unfolding names replaced
  names-replaced k v [] = refl
  names-replaced k v ((x, u) ∷ xs) = elim (Bool-cases (same_text k x)) [
    | inl e ↦ rw e
    | inr e ↦ rw (e, names-replaced k v xs)
  ]

  pub look-replaced :
      (k : Text) (u v : V) (xs : List (Text × V))
      → look k xs ≡ some u
      → look k (replaced k v xs) ≡ some v
  unfolding look replaced
  look-replaced k u v [] h = absurd cc
  look-replaced k u v ((x, w) ∷ xs) h = elim (Bool-cases (same_text k x)) [
    | inl e ↦ rw e (rw e)
    | inr e ↦ rw e (rw e (look-replaced k u v xs (rw e at h)))
  ]

  pub look-replaced_other :
      (k k' : Text) (v : V) (xs : List (Text × V)) → k ≢ k' → look k (replaced k' v xs) ≡ look k xs
  unfolding look replaced
  look-replaced_other k k' v [] h = refl
  look-replaced_other k k' v ((x, w) ∷ xs) h = elim (Bool-cases (same_text k' x)) [
    | inl e ↦ rw e (rw (differ k x (λ q. h (q ∙ sym (eq-same_text k' x e)))))
    | inr e ↦ rw e (rw (look-replaced_other k k' v xs h))
  ]

  pub look-name :
      (k : Text) (xs : List (Text × V)) → Occurs k (names xs) → (v : V) × (look k xs ≡ some v)
  unfolding look names
  look-name k [] o = elim o [ ]
  look-name k ((x, v) ∷ xs) (inl e) = (v, rw (e, same_text_self x))
  look-name k ((x, v) ∷ xs) (inr o) = elim (Bool-cases (same_text k x)) [
    | inl e ↦ (v, rw e)
    | inr e ↦ let r = look-name k xs o in (r.0, rw (e, r.1))
  ]

  pub name-look :
      (k : Text) (v : V) (xs : List (Text × V)) → look k xs ≡ some v → Occurs k (names xs)
  unfolding look names
  name-look k v [] h = absurd cc
  name-look k v ((x, u) ∷ xs) h = elim (Bool-cases (same_text k x)) [
    | inl e ↦ inl (eq-same_text k x e)
    | inr e ↦ inr (name-look k v xs (rw e at h))
  ]

  pub not-Occurs : (k : Text) (xs : List (Text × V)) → look k xs ≡ none → ¬ Occurs k (names xs)
  not-Occurs k xs h o = let r = look-name k xs o in absurd cc

-- The entries, with their names distinct, and the number of calls of `map_set`.
pub record Entries (V : Type 0) : Type 0 where
  pub entries : List (Text × V)
  pub distinct : AllDistinct (names entries)
  pub calls : ℕ

module _ {V : Type 0} where
  unfoldable pub put_entry : Text → V → Entries V → Entries V
  put_entry k v m = record {
    entries = replaced k v m.entries;
    distinct = subst AllDistinct (sym (names-replaced k v m.entries)) m.distinct;
    calls = m.calls;
  }

  unfoldable pub insert_as :
      (k : Text) (v : V) (m : Entries V) (o : Option V) → look k m.entries ≡ o → Entries V
  unfolding names put_entry
  insert_as k v m none e = record {
    entries = (k, v) ∷ m.entries;
    distinct = (not-Occurs k m.entries e, m.distinct);
    calls = suc m.calls;
  }
  insert_as k v m (some u) e = record (put_entry k v m) { calls = suc m.calls }

  pub insert_as_self :
      (k : Text) (v : V) (m : Entries V) (o : Option V) (e : look k m.entries ≡ o)
      → look k (insert_as k v m o e).entries ≡ some v
  unfolding insert_as look
  insert_as_self k v m none e = rw (same_text_self k)
  insert_as_self k v m (some u) e = look-replaced k u v m.entries e

  pub insert_as_other :
      (k k' : Text) (v : V) (m : Entries V) (o : Option V) (e : look k' m.entries ≡ o)
      → k ≢ k'
      → look k (insert_as k' v m o e).entries ≡ look k m.entries
  unfolding insert_as look
  insert_as_other k k' v m none e h = rw (differ k k' h)
  insert_as_other k k' v m (some u) e h = look-replaced_other k k' v m.entries h

  pub calls-insert_as :
      (k : Text) (v : V) (m : Entries V) (o : Option V) (e : look k m.entries ≡ o)
      → (insert_as k v m o e).calls ≡ suc m.calls
  unfolding insert_as look
  calls-insert_as k v m none e = refl
  calls-insert_as k v m (some u) e = refl

unfoldable pub assoc : (V : Type 0) → MapOf V
unfolding names look put_entry
assoc V = record {
  Carrier = Entries V;
  empty = record { entries = []; distinct = tt; calls = 0 };
  set = λ k v m. insert_as k v m (look k m.entries) refl;
  get = λ k m. look k m.entries;
  put = put_entry;
  keys = λ m. names m.entries;
  count = λ m. m.calls;
  get-set_self = λ k v m. insert_as_self k v m (look k m.entries) refl;
  get-set_other = λ k k' v m. insert_as_other k k' v m (look k' m.entries) refl;
  get-put_self = λ k u v m. look-replaced k u v m.entries;
  get-put_other = λ k k' v m. look-replaced_other k k' v m.entries;
  keys-put = λ k v m. names-replaced k v m.entries;
  count-put = λ k v m. refl;
  count-set = λ k v m. calls-insert_as k v m (look k m.entries) refl;
  keys-distinct = λ m. m.distinct;
  get-key = λ k m. look-name k m.entries;
  key-get = λ k v m. name-look k v m.entries;
  get-empty = λ k. refl;
  count-empty = refl;
}
