-- ===== src/Manager/Monitor/Maps.antt =====
-- Hash maps as lists of keys and values, and look-ups in what the operations leave.
use dlcdevkit.Base.{
  ◌≡◌, refl, sym, ap, ◌∙◌, inl, inr, Bool, true, false, Option, none, some, List, [], ◌∷◌,
  Bool-cases, if◌then◌else◌,
}

module _ {ℓ κ} {K : Type ℓ} {V : Type κ} where
  abbrev pub lookup : (K → K → Bool) → K → List (K × V) → Option V
  lookup eq k [] = none
  lookup eq k ((j, v) ∷ m) = let rest = lookup eq k m in if eq k j then some v else rest

  -- `HashMap::insert`, `remove`, and `get_mut` where the value is there.
  unfoldable pub insert : (K → K → Bool) → K → V → List (K × V) → List (K × V)
  insert eq k v [] = (k, v) ∷ []
  insert eq k v ((j, w) ∷ m) =
      let rest = insert eq k v m in if eq k j then (j, v) ∷ m else (j, w) ∷ rest

  unfoldable pub remove : (K → K → Bool) → K → List (K × V) → List (K × V)
  remove eq k [] = []
  remove eq k ((j, w) ∷ m) = let rest = remove eq k m in if eq k j then m else (j, w) ∷ rest

  unfoldable pub adjust : (K → K → Bool) → K → (V → V) → List (K × V) → List (K × V)
  adjust eq k f [] = []
  adjust eq k f ((j, w) ∷ m) =
      let rest = adjust eq k f m in if eq k j then (j, f w) ∷ m else (j, w) ∷ rest

  -- `HashMap::retain` by the value.
  unfoldable pub retain_values : (V → Bool) → List (K × V) → List (K × V)
  retain_values p [] = []
  retain_values p ((j, w) ∷ m) = let rest = retain_values p m in if p w then (j, w) ∷ rest else rest

  abbrev pub values : List (K × V) → List V
  values [] = []
  values ((j, w) ∷ m) = w ∷ values m

abbrev pub map_option {ℓ} : {V : Type ℓ} → (V → V) → Option V → Option V
map_option f none = none
map_option f (some v) = some (f v)

module _ {ℓ κ} {K : Type ℓ} {V : Type κ} (eq : K → K → Bool)
    (same : (a b : K) → eq a b ≡ true → a ≡ b) where
  -- A value that is changed at its key, and nowhere else.
  pub lookup-adjust :
      (k j : K) (f : V → V) (m : List (K × V))
      → lookup eq k (adjust eq j f m)
        ≡ (if eq k j then map_option f (lookup eq k m) else lookup eq k m)
  unfolding adjust
  lookup-adjust k j f [] = elim (Bool-cases (eq k j)) [ inl e ↦ rw e refl | inr e ↦ rw e refl ]
  lookup-adjust k j f ((i, v) ∷ m) = elim (Bool-cases (eq j i)) [
    | inl at ↦
        let e : eq k j ≡ eq k i = ap (eq k) (same j i at) in
        elim (Bool-cases (eq k i)) [
          | inl here ↦ rw (at, e, here) refl
          | inr apart ↦ rw (at, e, apart) refl
        ]
    | inr past ↦ elim (Bool-cases (eq k i)) [
      | inl here ↦ elim (Bool-cases (eq k j)) [
        | inl both ↦ absurd (distinct (sym here ∙ ap (λ (t : K). eq t i) (same k j both) ∙ past))
        | inr other ↦ rw (past, here, other) refl
      ]
      | inr there ↦ rw (past, there) (lookup-adjust k j f m)
    ]
  ]
    where
      distinct : true ≡ false → ⊥
      distinct h = cc h

  -- What an insertion leaves to be found.
  pub lookup-insert :
      ((a : K) → eq a a ≡ true)
      → (k j : K) (v : V) (m : List (K × V))
      → lookup eq k (insert eq j v m) ≡ (if eq k j then some v else lookup eq k m)
  unfolding insert
  lookup-insert self k j v [] = elim (Bool-cases (eq k j)) [ inl e ↦ rw e refl | inr e ↦ rw e refl ]
  lookup-insert self k j v ((i, w) ∷ m) = elim (Bool-cases (eq j i)) [
    | inl at ↦
        let e : eq k j ≡ eq k i = ap (eq k) (same j i at) in
        elim (Bool-cases (eq k i)) [
          | inl here ↦ rw (at, e, here) refl
          | inr apart ↦ rw (at, e, apart) refl
        ]
    | inr past ↦ elim (Bool-cases (eq k i)) [
      | inl here ↦ elim (Bool-cases (eq k j)) [
        | inl both ↦ absurd (differ (sym here ∙ ap (λ (t : K). eq t i) (same k j both) ∙ past))
        | inr other ↦ rw (past, here, other) refl
      ]
      | inr there ↦ rw (past, there) (lookup-insert self k j v m)
    ]
  ]
    where
      differ : true ≡ false → ⊥
      differ h = cc h
