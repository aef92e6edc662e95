-- ===== src/Trie/Combinations/Vectors.antt =====
-- What a vector reads as after its loops, each value by its index.
use dlcdevkit.Base.{
  ℕ, zero, suc, ◌+◌, ◌-◌, ◌<◌, ◌≤◌, ◌≡◌, ◌≢◌, ◌⊎◌, ◌∙◌, refl, ap, inl, inr, some, List, [], ◌∷◌,
  length, get_elem?, ltb, ◌==◌, if◌then◌else◌, Bool-cases, true, false, arith,
}
use dlcdevkit.Base.Outcome.{ok}
use dlcdevkit.Trie.Combinations.{set, fill, range, raised_index}

-- The values of a vector of a length.
abbrev pub Reads : ℕ → List ℕ → (ℕ → ℕ) → Type 0
Reads k xs f = (length xs ≡ k) × ((i : ℕ) → i < k → get_elem? xs i ≡ some (f i))

pub Reads-ext :
    (k : ℕ) (xs : List ℕ) (f g : ℕ → ℕ)
    → ((i : ℕ) → i < k → f i ≡ g i)
    → Reads k xs f
    → Reads k xs g
Reads-ext k xs f g e (len, reads) = (len, λ i lt. reads i lt ∙ ap some (e i lt))

pub range-Reads : (start k : ℕ) → Reads k (range start k) (λ i. start + i)
unfolding range
range-Reads start zero = (refl, λ i lt. ground arith)
range-Reads start (suc k) =
    let (len, reads) = range-Reads (suc start) k in (omega (arith, len), read reads)
  where
    read :
        ((i : ℕ) → i < k → get_elem? (range (suc start) k) i ≡ some (suc start + i))
        → (i : ℕ) → i < suc k
        → get_elem? (start ∷ range (suc start) k) i ≡ some (start + i)
    read reads zero lt = ap some (omega arith)
    read reads (suc i) lt = reads i (omega arith) ∙ ap some (omega arith)

set_found :
    (k i a : ℕ) (xs : List ℕ)
    → length xs ≡ k
    → i < k
    → (ys : List ℕ) × (set xs i a ≡ ok ys)
      × (length ys ≡ k)
      × (get_elem? ys i ≡ some a)
      × ((j : ℕ) → j ≢ i → get_elem? ys j ≡ get_elem? xs j)
unfolding set
set_found k i a [] len lt = ground arith
set_found k zero a (x ∷ xs) len lt = (a ∷ xs, refl, len, refl, others)
  where
    others : (j : ℕ) → j ≢ 0 → get_elem? (a ∷ xs) j ≡ get_elem? (x ∷ xs) j
    others zero ne = elim (ne refl) [ ]
    others (suc j) ne = refl
set_found zero (suc i) a (x ∷ xs) len lt = ground arith
set_found (suc k) (suc i) a (x ∷ xs) len lt =
    let (ys, e, len', here, there) = set_found k i a xs (omega (arith, len)) (omega (arith, lt)) in
    (x ∷ ys, rw e refl, omega (arith, len'), here, others ys there)
  where
    others :
        (ys : List ℕ)
        → ((j : ℕ) → j ≢ i → get_elem? ys j ≡ get_elem? xs j)
        → (j : ℕ) → j ≢ suc i
        → get_elem? (x ∷ ys) j ≡ get_elem? (x ∷ xs) j
    others ys there zero ne = refl
    others ys there (suc j) ne = there j (λ e. ne (ap suc e))

-- A write is read at its index.
pub set-Reads :
    (k i a : ℕ) (xs : List ℕ) (f : ℕ → ℕ)
    → Reads k xs f
    → i < k
    → (ys : List ℕ) × (set xs i a ≡ ok ys) × Reads k ys (λ j. if j == i then a else f j)
set-Reads k i a xs f (len, reads) lt =
    let (ys, e, len', here, there) = set_found k i a xs len lt in
    (ys, e, (len', λ j lt'. read ys here there j lt' (Bool-cases (j == i))))
  where
    read :
        (ys : List ℕ)
        → get_elem? ys i ≡ some a
        → ((j : ℕ) → j ≢ i → get_elem? ys j ≡ get_elem? xs j)
        → (j : ℕ) → j < k
        → ((j == i) ≡ true) ⊎ ((j == i) ≡ false)
        → get_elem? ys j ≡ some (if j == i then a else f j)
    read ys here there j lt' (inl e) = rw e (ap (get_elem? ys) (ground arith) ∙ here)
    read ys here there j lt' (inr e) = rw e (there j (ground arith) ∙ reads j lt')

-- The second loop counts up from the value before its start.
pub fill-Reads :
    (left k cur : ℕ) (xs : List ℕ) (f : ℕ → ℕ)
    → Reads k xs f
    → suc cur + left ≡ k
    → (ys : List ℕ) × (fill left (suc cur) xs ≡ ok ys)
      × Reads k ys (λ i. if ltb i (suc cur) then f i else f cur + (i - cur))
unfolding fill
fill-Reads zero k cur xs f reads e = (xs, refl, Reads-ext k xs f _ (λ i lt. ground arith) reads)
fill-Reads (suc left) k cur xs f reads e =
    let (ys, e1, reads1) = set-Reads k (suc cur) (f cur + 1) xs f reads (omega arith) in
    let (zs, e2, reads2) = fill-Reads left k (suc cur) ys _ reads1 (omega arith) in
    (zs, rw (before, e1) e2, Reads-ext k zs _ _ (λ i lt. ground arith) reads2)
  where
    before : get_elem? xs (suc cur - 1) ≡ some (f cur)
    before = ap (get_elem? xs) (omega arith) ∙ reads.1 cur (omega arith)

-- The first loop stops at a place below its maximum, or at 0; after that place all is at its maximum.
pub raised_index-stops :
    (n last cur : ℕ) (xs : List ℕ) (f : ℕ → ℕ)
    → Reads (suc last) xs f
    → last < n
    → cur ≤ last
    → ((i : ℕ) → cur < i → i ≤ last → f i + (suc last - i) ≡ n)
    → (c : ℕ) × (raised_index xs n last cur ≡ ok c)
      × (c ≤ cur)
      × ((i : ℕ) → c < i → i ≤ last → f i + (suc last - i) ≡ n)
      × ((c ≡ 0) ⊎ (f c + (suc last - c) ≢ n))
unfolding raised_index
raised_index-stops n last zero xs f reads room le full = (0, refl, omega arith, full, inl refl)
raised_index-stops n last (suc cur) xs f reads room le full =
    elim (Bool-cases (f (suc cur) == (n - 1 - (last - suc cur)))) [
      | inl e ↦
          let (c, e', le', full', stop) =
            raised_index-stops n last cur xs f reads room (omega arith)
              (λ i lt le''. reached e i lt le'' (Bool-cases (i == suc cur))) in
          (c, rw (read, e) e', omega (arith, le'), full', stop)
      | inr e ↦ (suc cur, rw (read, e) refl, omega arith, full, inr (λ h. ground arith))
    ]
  where
    read : get_elem? xs (suc cur) ≡ some (f (suc cur))
    read = reads.1 (suc cur) (omega arith)

    reached :
        (f (suc cur) == (n - 1 - (last - suc cur))) ≡ true
        → (i : ℕ) → cur < i
        → i ≤ last
        → ((i == suc cur) ≡ true) ⊎ ((i == suc cur) ≡ false)
        → f i + (suc last - i) ≡ n
    reached e i lt le'' (inl h) = let same : i ≡ suc cur = ground arith in rw same (ground arith)
    reached e i lt le'' (inr h) = full i (ground arith) le''
