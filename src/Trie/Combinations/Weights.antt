-- ===== src/Trie/Combinations/Weights.antt =====
-- A selection as a number in the base of the elements: the number grows in lexicographic order.
use dlcdevkit.Base.{
  ℕ, zero, suc, ◌+◌, ◌*◌, ◌^◌, ◌<◌, ◌≡◌, ◌⊎◌, refl, inl, inr, true, false, List, [], ◌∷◌, length,
  ltb, Bool-cases, ltb→lt, arith,
}
use dlcdevkit.Base.Arith.{mul-le}
use dlcdevkit.Trie.Combinations.Steps.{value_at, Before}
use native.Mathlib.Nat.{pow-suc, pow-zero}

abbrev pub weight : ℕ → List ℕ → ℕ
weight n [] = 0
weight n (x ∷ xs) = x * n ^ length xs + weight n xs

weight_step : (x y n p w : ℕ) → x < y → w < p → x * p + w < y * p
weight_step x y n p w lt below = omega (arith, mul-le (suc x) y p lt)

pub weight_bound :
    (n : ℕ) (xs : List ℕ)
    → ((i : ℕ) → i < length xs → value_at xs i < n)
    → weight n xs < n ^ length xs
weight_bound n [] below = omega (arith, pow-zero n)
weight_bound n (x ∷ xs) below = omega (
  arith,
  weight_step x n n (n ^ length xs) (weight n xs) (below 0 (omega arith))
      (weight_bound n xs (λ i lt. below (suc i) (omega arith))),
  pow-suc n (length xs),
)

pub Before-weight :
    (n : ℕ) (xs ys : List ℕ)
    → length ys ≡ length xs
    → ((i : ℕ) → i < length xs → value_at xs i < n)
    → Before (length xs) xs ys
    → weight n xs < weight n ys
Before-weight n [] ys len below (c, lt, same, less) = ground arith
Before-weight n (x ∷ xs) [] len below before = ground arith
Before-weight n (x ∷ xs) (y ∷ ys) len below (zero, lt, same, less) =
    let tail : length ys ≡ length xs = omega (arith, len) in
    rw tail (
      omega (
        arith,
        weight_step x y n (n ^ length xs) (weight n xs) less
            (weight_bound n xs (λ i lt. below (suc i) (omega arith))),
      ))
Before-weight n (x ∷ xs) (y ∷ ys) len below (suc c, lt, same, less) =
    let tail : length ys ≡ length xs = omega (arith, len) in
    let head : x ≡ y = same 0 (omega arith) in
    rw (tail, head)
      (omega (
        arith,
        Before-weight n xs ys tail (λ i lt. below (suc i) (omega arith))
            (c, omega arith, λ i lt. same (suc i) (omega arith), less),
      ))

later : (k x y : ℕ) (xs ys : List ℕ) → x ≡ y → Before k xs ys → Before (suc k) (x ∷ xs) (y ∷ ys)
later k x y xs ys e (c, lt, same, less) = (suc c, omega arith, heads, less)
  where
    heads : (i : ℕ) → i < suc c → value_at (x ∷ xs) i ≡ value_at (y ∷ ys) i
    heads zero lt = e
    heads (suc i) lt = same i (omega arith)

-- Of two lists of a length one is first, or they are the same.
pub Before-cases :
    (k : ℕ) (xs ys : List ℕ)
    → length xs ≡ k
    → length ys ≡ k
    → Before k xs ys ⊎ (xs ≡ ys) ⊎ Before k ys xs
Before-cases k [] [] len len' = inr (inl refl)
Before-cases k [] (y ∷ ys) len len' = ground arith
Before-cases k (x ∷ xs) [] len len' = ground arith
Before-cases zero (x ∷ xs) (y ∷ ys) len len' = ground arith
Before-cases (suc k) (x ∷ xs) (y ∷ ys) len len' =
    by_heads (Bool-cases (ltb x y)) (Bool-cases (ltb y x))
      (Before-cases k xs ys (omega (arith, len)) (omega (arith, len')))
  where
    by_heads :
        (ltb x y ≡ true) ⊎ (ltb x y ≡ false)
        → (ltb y x ≡ true) ⊎ (ltb y x ≡ false)
        → Before k xs ys ⊎ (xs ≡ ys) ⊎ Before k ys xs
        → Before (suc k) (x ∷ xs) (y ∷ ys)
          ⊎ (Path (List ℕ) (x ∷ xs) (y ∷ ys))
          ⊎ Before (suc k) (y ∷ ys) (x ∷ xs)
    by_heads (inl h) h' tails = inl (0, omega arith, λ i lt. ground arith, ltb→lt x y h)
    by_heads (inr h) (inl h') tails =
        inr (inr (0, omega arith, λ i lt. ground arith, ltb→lt y x h'))
    by_heads (inr h) (inr h') (inl b) = inl (later k x y xs ys (ground arith) b)
    by_heads (inr h) (inr h') (inr (inl e)) =
        let head : x ≡ y = ground arith in inr (inl (rw (head, e) refl))
    by_heads (inr h) (inr h') (inr (inr b)) = inr (inr (later k y x ys xs (ground arith) b))
