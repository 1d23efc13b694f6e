-- ===== src/Table.antt =====
-- `std::map` with numbers as keys, as a list of pairs: `find`, the assignment to `operator[]`, and
-- `erase`.
use cs.Prelude.{
  ℕ, ◌≡◌, refl, arith, inl, inr, Bool-cases, Option, none, some, List, [], ◌∷◌, if◌then◌else◌, ◌==◌,
}

abbrev pub Table {ℓ} : Type ℓ → Type ℓ
Table V = List (ℕ × V)

unfoldable pub find {ℓ} : {V : Type ℓ} → ℕ → Table V → Option V
find k [] = none
find k ((j, v) ∷ t) = let rest = find k t in if k == j then some v else rest

unfoldable pub assign {ℓ} : {V : Type ℓ} → ℕ → V → Table V → Table V
assign k v [] = (k, v) ∷ []
assign k v ((j, w) ∷ t) = let rest = assign k v t in if k == j then (k, v) ∷ t else (j, w) ∷ rest

unfoldable pub erase {ℓ} : {V : Type ℓ} → ℕ → Table V → Table V
erase k [] = []
erase k ((j, w) ∷ t) = let rest = erase k t in if k == j then rest else (j, w) ∷ rest

module _ {ℓ} {V : Type ℓ} where
  pub find-assign : (k : ℕ) (v : V) (t : Table V) → find k (assign k v t) ≡ some v
  unfolding find assign
  find-assign k v [] = ground arith
  find-assign k v ((j, w) ∷ t) = elim (Bool-cases (k == j)) [
    | inl e ↦ ground arith
    | inr e ↦ rw (e, find, e) (find-assign k v t)
  ]

  pub find-erase : (k : ℕ) (t : Table V) → find k (erase k t) ≡ none
  unfolding find erase
  find-erase k [] = refl
  find-erase k ((j, w) ∷ t) = elim (Bool-cases (k == j)) [
    | inl e ↦ rw e (find-erase k t)
    | inr e ↦ rw (e, find, e) (find-erase k t)
  ]

-- Each value is one of these.
abbrev pub AllValues {ℓ} : {V : Type ℓ} → (V → Type 0) → Table V → Type 0
AllValues P [] = Unit {0}
AllValues P ((k, v) ∷ t) = P v × AllValues P t

abbrev pub Maybe {ℓ} : {V : Type ℓ} → (V → Type 0) → Option V → Type 0
Maybe P none = Unit {0}
Maybe P (some v) = P v

module _ {ℓ} {V : Type ℓ} (P : V → Type 0) where
  pub AllValues-find : (k : ℕ) (t : Table V) → AllValues P t → Maybe P (find k t)
  unfolding find
  AllValues-find k [] all = tt
  AllValues-find k ((j, w) ∷ t) (p, all) = elim (Bool-cases (k == j)) [
    | inl e ↦ rw (Maybe, find, e) p
    | inr e ↦ rw (Maybe, find, e) (AllValues-find k t all)
  ]

  pub AllValues-assign :
      (k : ℕ) (v : V) (t : Table V) → P v → AllValues P t → AllValues P (assign k v t)
  unfolding assign
  AllValues-assign k v [] p all = (p, tt)
  AllValues-assign k v ((j, w) ∷ t) p (q, all) = elim (Bool-cases (k == j)) [
    | inl e ↦ rw (AllValues, assign, e) (p, all)
    | inr e ↦ rw (AllValues, assign, e) (q, AllValues-assign k v t p all)
  ]

  pub AllValues-erase : (k : ℕ) (t : Table V) → AllValues P t → AllValues P (erase k t)
  unfolding erase
  AllValues-erase k [] all = tt
  AllValues-erase k ((j, w) ∷ t) (q, all) = elim (Bool-cases (k == j)) [
    | inl e ↦ rw (AllValues, erase, e) (AllValues-erase k t all)
    | inr e ↦ rw (AllValues, erase, e) (q, AllValues-erase k t all)
  ]

pub AllValues-implies {ℓ} :
    {V : Type ℓ} (P Q : V → Type 0) (t : Table V)
    → ((v : V) → P v → Q v)
    → AllValues P t
    → AllValues Q t
AllValues-implies P Q [] f all = tt
AllValues-implies P Q ((k, v) ∷ t) f (p, all) = (f v p, AllValues-implies P Q t f all)
