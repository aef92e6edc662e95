-- ===== src/Trie/Group/Intervals.antt =====
-- Prefixes as intervals: what a list of prefixes covers, end to end.
use native.Mathlib.Nat.{pow-suc, pow-zero}
use mathlib.Core.List.{reverse_aux}
use dlcdevkit.Base.{
  ℕ, ◌+◌, ◌*◌, ◌^◌, ◌≡◌, refl, ap, ◌∙◌, arith, List, [], ◌∷◌, ◌++◌, length, length-append, reverse,
  map,
}
use dlcdevkit.Base.Arith.{pow-add}
use dlcdevkit.Trie.Digits.RoundTrip.{value}

pub value-append :
    (base : ℕ) (xs ys : List ℕ)
    → value base (xs ++ ys) ≡ value base xs * base ^ length ys + value base ys
value-append base [] ys = omega arith
value-append base (x ∷ xs) ys =
    rw (length-append, value-append base xs ys)
      (omega (arith, ap (λ (t : ℕ). x * t) (pow-add base (length xs) (length ys))))

-- The number of a stack, last digit first.
abbrev pub rvalue : ℕ → List ℕ → ℕ
rvalue base [] = 0
rvalue base (x ∷ s) = x + base * rvalue base s

value-reverse_aux :
    (base : ℕ) (s r : List ℕ)
    → value base (reverse_aux s r) ≡ rvalue base s * base ^ length r + value base r
value-reverse_aux base [] r = omega arith
value-reverse_aux base (x ∷ s) r =
    value-reverse_aux base s (x ∷ r)
    ∙ omega (arith, ap (λ (t : ℕ). rvalue base s * t) (pow-suc base (length r)))

pub value-reverse : (base : ℕ) (s : List ℕ) → value base (reverse s) ≡ rvalue base s
value-reverse base s =
    value-reverse_aux base s [] ∙ omega (arith, ap (λ (t : ℕ). rvalue base s * t) (pow-zero base))

length-reverse_aux : (s r : List ℕ) → length (reverse_aux s r) ≡ length s + length r
length-reverse_aux [] r = omega arith
length-reverse_aux (x ∷ s) r = omega (arith, length-reverse_aux s (x ∷ r))

pub length-reverse : (s : List ℕ) → length (reverse s) ≡ length s
length-reverse s = omega (arith, length-reverse_aux s [])

-- A prefix p of numbers of n digits stands for the base ^ k numbers from value p * base ^ k on, where k
-- digits are open. The prefixes cover the numbers from `a` to before `b`, each once and in order.
abbrev pub Chain : (base n a : ℕ) → List (List ℕ) → ℕ → Type 0
Chain base n a [] b = a ≡ b
Chain base n a (p ∷ ps) b =
    (k : ℕ) × (length p + k ≡ n)
    × (a ≡ value base p * base ^ k)
    × Chain base n ((value base p + 1) * base ^ k) ps b

pub Chain-append :
    (base n a b c : ℕ) (ps qs : List (List ℕ))
    → Chain base n a ps b
    → Chain base n b qs c
    → Chain base n a (ps ++ qs) c
Chain-append base n a b c [] qs e h = rw e h
Chain-append base n a b c (p ∷ ps) qs (k, len, lo, rest) h =
    (k, len, lo, Chain-append base n ((value base p + 1) * base ^ k) b c ps qs rest h)

pub Chain-cast :
    (base n a n' a' : ℕ) (ps : List (List ℕ)) (b : ℕ)
    → n ≡ n'
    → a ≡ a'
    → Chain base n a ps b
    → Chain base n' a' ps b
Chain-cast base n a n' a' ps b en ea h = rw (← en, ← ea) h

-- A common prefix in front of all shifts the numbers.
pub Chain-prefix :
    (base n a b : ℕ) (q : List ℕ) (ps : List (List ℕ))
    → Chain base n a ps b
    → Chain base
        (length q + n)
        (value base q * base ^ n + a)
        (map (λ x. q ++ x) ps)
        (value base q * base ^ n + b)
Chain-prefix base n a b q [] h = rw h
Chain-prefix base n a b q (p ∷ ps) (k, len, lo, rest) = (
  k,
  omega (arith, length-append q p, len),
  omega (arith, lo, joined, shifted),
  Chain-cast base (length q + n) _ (length q + n) _ (map (λ x. q ++ x) ps) _ refl
      (omega (arith, joined, shifted))
      (Chain-prefix base n ((value base p + 1) * base ^ k) b q ps rest),
)
  where
    joined :
        value base (q ++ p) * base ^ k
        ≡ value base q * base ^ length p * base ^ k + value base p * base ^ k
    joined = omega (arith, ap (λ (t : ℕ). t * base ^ k) (value-append base q p))

    shifted : value base q * base ^ n ≡ value base q * base ^ length p * base ^ k
    shifted =
        rw (← len) (omega (arith, ap (λ (t : ℕ). value base q * t) (pow-add base (length p) k)))
