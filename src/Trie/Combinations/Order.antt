-- ===== src/Trie/Combinations/Order.antt =====
-- Selections in lexicographic order, read by index, and the one that comes after another.
use dlcdevkit.Base.{
  ℕ, zero, suc, ◌+◌, ◌-◌, ◌<◌, ◌≤◌, ◌≡◌, ◌≢◌, ◌⊎◌, ap, inl, inr, true, false, ltb, leb, ◌==◌,
  if◌then◌else◌, Bool-cases, arith,
}

-- The first `k` values rise, and stay below `n`.
abbrev pub Ascends : ℕ → ℕ → (ℕ → ℕ) → Type 0
Ascends n k f = ((i : ℕ) → suc i < k → f i < f (suc i)) × ((i : ℕ) → i < k → f i < n)

-- At the first of `k` places where the two differ, the first one is less.
abbrev pub Precedes : ℕ → (ℕ → ℕ) → (ℕ → ℕ) → Type 0
Precedes k f g = (c : ℕ) × (c < k) × ((i : ℕ) → i < c → f i ≡ g i) × (f c < g c)

-- Later values need room.
room : (n k : ℕ) (f : ℕ → ℕ) → Ascends n k f → (d i : ℕ) → i + suc d ≡ k → f i + suc d ≤ n
room n k f (rises, below) zero i e = omega (arith, below i (omega arith))
room n k f (rises, below) (suc d) i e =
    omega (arith, room n k f (rises, below) d (suc i) (omega arith), rises i (omega arith))

pub Ascends-room : (n k i : ℕ) (f : ℕ → ℕ) → Ascends n k f → i < k → f i + (k - i) ≤ n
Ascends-room n k i f ascends lt = omega (arith, room n k f ascends (k - i - 1) i (omega arith))

pub Ascends-index : (n k i : ℕ) (f : ℕ → ℕ) → Ascends n k f → i < k → i ≤ f i
Ascends-index n k zero f ascends lt = omega arith
Ascends-index n k (suc i) f ascends lt =
    omega (arith, Ascends-index n k i f ascends (omega arith), ascends.0 i lt)

-- The selection with the value at `c` raised and the least values after it.
abbrev pub raise : ℕ → (ℕ → ℕ) → ℕ → ℕ
raise c f i = if ltb i c then f i else f c + suc (i - c)

module _ (n k c : ℕ) (f : ℕ → ℕ) (ascends : Ascends n k f) (inside : c < k) where
  -- Nothing comes after a selection that is at its maximum.
  pub full-last :
      (g : ℕ → ℕ) → ((i : ℕ) → i < k → f i + (k - i) ≡ n) → Ascends n k g → ¬ Precedes k f g
  full-last g full ascends' (d, lt, same, less) =
      ground (arith, full d lt, Ascends-room n k d g ascends' lt)

  -- Where there is room to raise.
  module _ (free : f c + (k - c) < n) where
    pub raise-Ascends : Ascends n k (raise c f)
    raise-Ascends = (
      λ i lt. ground (arith, ascends.0 i lt, by_case i lt (Bool-cases (suc i == c))),
      λ i lt. ground (arith, ascends.1 i lt),
    )
      where
        by_case :
            (i : ℕ)
            → suc i < k
            → ((suc i == c) ≡ true) ⊎ ((suc i == c) ≡ false)
            → (suc i ≢ c) ⊎ (f i < f c)
        by_case i lt (inl e) =
            let same : suc i ≡ c = ground arith in inr (rw (← same) (ascends.0 i lt))
        by_case i lt (inr e) = inl (ground arith)

  pub raise-Precedes : Precedes k f (raise c f)
  raise-Precedes = (c, inside, λ i lt. ground arith, ground arith)

  -- A selection after `f` differs from it at `c` at the latest.
  differs_early :
      (g : ℕ → ℕ) (d : ℕ)
      → ((i : ℕ) → c < i → i < k → f i + (k - i) ≡ n)
      → Ascends n k g
      → d < k
      → f d < g d
      → d ≤ c
  differs_early g d full ascends' lt less = elim (Bool-cases (leb d c)) [
    | inl e ↦ ground arith
    | inr e ↦ ground (arith, full d (ground arith) lt, Ascends-room n k d g ascends' lt)
  ]

  raised_at_most :
      (g : ℕ → ℕ) (d : ℕ)
      → d ≤ c
      → f d < g d
      → ((d == c) ≡ true) ⊎ ((d == c) ≡ false)
      → raise c f d ≤ g d
  raised_at_most g d le less (inl h) = let same : d ≡ c = ground arith in ground (arith, ap f same)
  raised_at_most g d le less (inr h) = ground arith

  -- No selection comes between.
  pub raise-least :
      (g : ℕ → ℕ)
      → ((i : ℕ) → c < i → i < k → f i + (k - i) ≡ n)
      → Ascends n k g
      → Precedes k f g
      → ¬ Precedes k g (raise c f)
  raise-least g full ascends' (d, ltd, same, less) (e, lte, same', less') =
      meets e lte same' less' (differs_early g d full ascends' ltd less) (Bool-cases (ltb e d))
        (Bool-cases (e == d))
    where
      meets :
          (e : ℕ)
          → e < k
          → ((i : ℕ) → i < e → g i ≡ raise c f i)
          → g e < raise c f e
          → d ≤ c
          → (ltb e d ≡ true) ⊎ (ltb e d ≡ false)
          → ((e == d) ≡ true) ⊎ ((e == d) ≡ false)
          → ⊥
      meets e lte same' less' le (inl lt) eq = ground (arith, same e (ground arith))
      meets e lte same' less' le (inr ge) (inl eq) =
          let at_d : e ≡ d = ground arith in
          ground (arith, ap f at_d, ap g at_d, raised_at_most g d le less (Bool-cases (d == c)))
      meets zero lte same' less' le (inr ge) (inr ne) = ground arith
      meets (suc p) lte same' less' le (inr ge) (inr ne) =
          ground (arith, same' d (ground arith), same' p (omega arith), ascends'.0 p lte)
