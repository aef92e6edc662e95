-- ===== src/Trie/Digits/RoundTrip.antt =====
-- Decomposition and composition of a number undo one another.
use native.Mathlib.Nat.{pow-suc, pow-zero, div-add-mod}
use dlcdevkit.Base.{
  ℕ, zero, suc, ◌+◌, ◌-◌, ◌*◌, ◌/◌, ◌%◌, ◌^◌, ◌≤◌, ◌<◌, ◌≡◌, refl, ap, ◌∙◌, arith, List, [], ◌∷◌,
  length, All,
}
use dlcdevkit.Base.Arith.{div-lt, mul-le}
use dlcdevkit.Base.Outcome.{ok}
use dlcdevkit.Base.Float.Exact.{to_f64_exact, div_floor_exact}
use dlcdevkit.Base.Word.{u64_mod}
use dlcdevkit.Trie.Digits.{push_digits, push_zeros, decompose_value, compose_from, compose_value}

-- The number that a list of digits stands for.
abbrev pub value : ℕ → List ℕ → ℕ
value base [] = 0
value base (x ∷ xs) = x * base ^ length xs + value base xs

-- The last n digits of v, in front of `res`.
unfoldable pub digits : ℕ → ℕ → ℕ → List ℕ → List ℕ
digits zero v base res = res
digits (suc n) v base res = digits n (v / base) base ((v % base) ∷ res)

push_zeros-digits : (n base : ℕ) (res : List ℕ) → 0 < base → push_zeros n res ≡ digits n 0 base res
unfolding push_zeros digits
push_zeros-digits zero base res pos = refl
push_zeros-digits (suc n) base res pos =
    let q : 0 / base ≡ 0 = omega arith in
    let r : 0 % base ≡ 0 = omega arith in rw (q, r) (push_zeros-digits n base (0 ∷ res) pos)

pub length-digits : (n v base : ℕ) (res : List ℕ) → length (digits n v base res) ≡ n + length res
unfolding digits
length-digits zero v base res = omega arith
length-digits (suc n) v base res = omega (arith, length-digits n (v / base) base ((v % base) ∷ res))

digits_below :
    (n v base : ℕ) (res : List ℕ)
    → 0 < base
    → All (λ d. d < base) res
    → All (λ d. d < base) (digits n v base res)
unfolding digits
digits_below zero v base res pos h = h
digits_below (suc n) v base res pos h =
    digits_below n (v / base) base ((v % base) ∷ res) pos (omega arith, h)

zero_of : (v base : ℕ) → v < base ^ 0 → v ≡ 0
zero_of v base h = omega (arith, pow-zero base)

pub quotient_below : (n v base : ℕ) → 0 < base → v < base ^ suc n → v / base < base ^ n
quotient_below n v base pos h = div-lt (base ^ n) v base pos (omega (arith, pow-suc base n))

pub value-digits :
    (n v base : ℕ) (res : List ℕ)
    → 0 < base
    → v < base ^ n
    → value base (digits n v base res) ≡ v * base ^ length res + value base res
unfolding digits
value-digits zero v base res pos h = rw (zero_of v base h) (omega arith)
value-digits (suc n) v base res pos h = omega (
  arith,
  value-digits n (v / base) base ((v % base) ∷ res) pos (quotient_below n v base pos h),
  pow-suc base (length res),
  ap (λ (t : ℕ). t * base ^ length res) (div-add-mod v base),
  ap (λ (t : ℕ). v / base * t) (pow-suc base (length res)),
)

push_step :
    (f v base : ℕ) (res : List ℕ)
    → 2 ≤ base
    → base < 2 ^ 53
    → 0 < v
    → v < 2 ^ 53
    → push_digits (suc f) v base res ≡ push_digits f (v / base) base ((v % base) ∷ res)
unfolding push_digits
push_step f v base res two small pos h53 =
    rw
      (
        to_f64_exact v h53,
        to_f64_exact base small,
        div_floor_exact v base h53 (omega arith) (omega arith),
      )
      (ground arith)

halved : (v base k : ℕ) → 2 ≤ base → v < 2 ^ suc k → v / base < 2 ^ k
halved v base k two h =
    div-lt (2 ^ k) v base (omega arith) (omega (arith, mul-le 2 base (2 ^ k) two, pow-suc 2 k))

quotient-le : (v base : ℕ) → v / base ≤ v
quotient-le v base = omega arith

digits-suc :
    (n v base : ℕ) (res : List ℕ)
    → digits (suc n) v base res ≡ digits n (v / base) base ((v % base) ∷ res)
unfolding digits
digits-suc n v base res = refl

-- The two loops of `decompose_value` write the last n digits of v.
pushed :
    (k n v base : ℕ) (res : List ℕ)
    → 2 ≤ base
    → base < 2 ^ 53
    → v < 2 ^ k
    → v < 2 ^ 53
    → v < base ^ n
    → (r : List ℕ) × (push_digits (suc k) v base res ≡ ok r)
      × (length r ≤ n + length res)
      × (push_zeros (n + length res - length r) r ≡ digits n v base res)
pushed k n zero base res two small hk h53 hn =
    let e : n + length res - length res ≡ n = omega arith in
    (
      res,
      unfold push_digits in refl,
      omega arith,
      rw e (push_zeros-digits n base res (omega arith)),
    )
pushed k zero (suc v) base res two small hk h53 hn = absurd (omega (arith, zero_of (suc v) base hn))
pushed zero (suc n) (suc v) base res two small hk h53 hn = absurd (omega arith)
pushed (suc k) (suc n) (suc v) base res two small hk h53 hn =
    let d = suc v % base in
    let (r, e, len, z) =
      pushed k n (suc v / base) base (d ∷ res) two small (halved (suc v) base k two hk)
        (omega (arith, quotient-le (suc v) base))
        (quotient_below n (suc v) base (omega arith) hn) in
    let ez : suc n + length res - length r ≡ n + length (d ∷ res) - length r = omega arith in
    (
      r,
      push_step (suc k) (suc v) base res two small (omega arith) h53 ∙ e,
      omega (arith, len),
      rw (ez, digits-suc) z,
    )

-- A number of at most 53 bits that fits n digits is decomposed into its n digits.
pub decompose_value-digits :
    (v base n : ℕ)
    → 2 ≤ base
    → base < 2 ^ 53
    → v < 2 ^ 53
    → v < base ^ n
    → decompose_value v base n ≡ ok (digits n v base [])
unfolding decompose_value
decompose_value-digits v base n two small h53 hn =
    let (r, e, len, z) = pushed 65 n v base [] two small (omega arith) h53 hn in
    let ez : n + 0 - length r ≡ n - length r = omega arith in
    let zz = rw ez at z in rw (e, zz) (ground (arith, length-digits n v base []))

-- The wrapping sum of `compose_value` does not wrap on a number of 64 bits.
wraps_not :
    (c x p rest : ℕ)
    → c + (x * p + rest) < u64_mod
    → (c + x * (p % u64_mod) % u64_mod) % u64_mod ≡ c + x * p
wraps_not c zero p rest h = omega arith
wraps_not c (suc x) p rest h = let e : p % u64_mod ≡ p = omega arith in rw e (omega arith)

compose_from-value :
    (xs : List ℕ) (c base : ℕ)
    → c + value base xs < u64_mod
    → compose_from c xs base ≡ c + value base xs
unfolding compose_from
compose_from-value [] c base h = omega arith
compose_from-value (x ∷ xs) c base h =
    rw (wraps_not c x (base ^ length xs) (value base xs) h)
      (compose_from-value xs (c + x * base ^ length xs) base (omega arith) ∙ omega arith)

pub compose_value-value :
    (xs : List ℕ) (base : ℕ) → value base xs < u64_mod → compose_value xs base ≡ value base xs
unfolding compose_value
compose_value-value xs base h = compose_from-value xs 0 base (omega arith) ∙ omega arith

-- What a decomposition gives: n digits below the base that stand for the number.
pub decomposed :
    (v base n : ℕ)
    → 2 ≤ base
    → base < 2 ^ 53
    → v < 2 ^ 53
    → v < base ^ n
    → (ds : List ℕ) × (decompose_value v base n ≡ ok ds)
      × (length ds ≡ n)
      × All (λ d. d < base) ds
      × (value base ds ≡ v)
decomposed v base n two small h53 hn = (
  digits n v base [],
  decompose_value-digits v base n two small h53 hn,
  omega (arith, length-digits n v base []),
  digits_below n v base [] (omega arith) tt,
  value-digits n v base [] (omega arith) hn ∙ omega (arith, ap (λ (t : ℕ). v * t) (pow-zero base)),
)

-- The digits of a number of at most 53 bits, in a base from 2 up in which it has at most n digits, are
-- n digits below the base, and they compose to the number.
pub compose-decompose :
    (v base n : ℕ)
    → 2 ≤ base
    → base < 2 ^ 53
    → v < 2 ^ 53
    → v < base ^ n
    → (ds : List ℕ) × (decompose_value v base n ≡ ok ds)
      × (length ds ≡ n)
      × All (λ d. d < base) ds
      × (compose_value ds base ≡ v)
compose-decompose v base n two small h53 hn =
    let (ds, runs, len, below, stands) = decomposed v base n two small h53 hn in
    (ds, runs, len, below, compose_value-value ds base (omega (arith, stands)) ∙ stands)
