-- ===== src/Trie/Group/Parting.antt =====
-- Numbers of as many digits compare by their first digits that differ: the common prefix of start and
-- end, and what each has behind it.
use native.Mathlib.Nat.{pow-suc, pow-zero}
use dlcdevkit.Base.{
  ℕ, suc, ◌*◌, ◌^◌, ◌<◌, ◌≡◌, refl, ap, sym, ◌⊎◌, inl, inr, true, false, arith, List, [], ◌∷◌, ◌++◌,
  length, All, some, Bool-cases, ◌==◌, leb,
}
use dlcdevkit.Base.Arith.{mul-le}
use dlcdevkit.Trie.Digits.RoundTrip.{value}
use dlcdevkit.Trie.Group.{take_prefix}

value-lt : (base : ℕ) (xs : List ℕ) → All (λ d. d < base) xs → value base xs < base ^ length xs
value-lt base [] h = omega (arith, pow-zero base)
value-lt base (x ∷ xs) (hx, hxs) = omega (
  arith,
  value-lt base xs hxs,
  mul-le (suc x) base (base ^ length xs) hx,
  pow-suc base (length xs),
)

-- Numbers of as many digits compare by the first digit, and below it by the rest.
rests_lt :
    (base x y : ℕ) (xs ys : List ℕ)
    → x ≡ y
    → length xs ≡ length ys
    → value base (x ∷ xs) < value base (y ∷ ys)
    → value base xs < value base ys
rests_lt base x y xs ys e len lt =
    omega (arith, ap (λ (t : ℕ). x * base ^ t) len, ap (λ (t : ℕ). t * base ^ length ys) e)

firsts_decide :
    (base x y : ℕ) (xs ys : List ℕ)
    → length xs ≡ length ys
    → All (λ d. d < base) xs
    → x < y
    → value base (x ∷ xs) < value base (y ∷ ys)
firsts_decide base x y xs ys len hxs lt = omega (
  arith,
  value-lt base xs hxs,
  ap (λ (t : ℕ). y * base ^ t) len,
  mul-le (suc x) y (base ^ length xs) lt,
)

apart_cases : (x y : ℕ) → (x == y) ≡ false → (x < y) ⊎ (y < x)
apart_cases x y differs = elim (Bool-cases (leb y x)) [
  | inl h ↦ inr (ground arith)
  | inr h ↦ inl (ground arith)
]

firsts_lt :
    (base x y : ℕ) (xs ys : List ℕ)
    → (x == y) ≡ false
    → length xs ≡ length ys
    → All (λ d. d < base) ys
    → value base (x ∷ xs) < value base (y ∷ ys)
    → x < y
firsts_lt base x y xs ys differs len hys lt = elim (apart_cases x y differs) [
  | inl below ↦ below
  | inr above ↦ absurd (omega (arith, firsts_decide base y x ys xs (sym len) hys above))
]

pub value-injective :
    (base : ℕ) (xs ys : List ℕ)
    → All (λ d. d < base) xs
    → All (λ d. d < base) ys
    → length xs ≡ length ys
    → value base xs ≡ value base ys
    → xs ≡ ys
value-injective base [] [] hxs hys len e = refl
value-injective base [] (y ∷ ys) hxs hys len e = absurd (omega (arith, len))
value-injective base (x ∷ xs) [] hxs hys len e = absurd (omega (arith, len))
value-injective base (x ∷ xs) (y ∷ ys) (hx, hxs) (hy, hys) len e =
    let ls : length xs ≡ length ys = omega (arith, len) in
    elim (Bool-cases (x == y)) [
      | inl same ↦
          let h : x ≡ y = ground arith in
          let rest : value base xs ≡ value base ys =
            omega
              (arith, ap (λ (t : ℕ). x * base ^ t) ls, ap (λ (t : ℕ). t * base ^ length ys) h) in
          cc (h, value-injective base xs ys hxs hys ls rest)
      | inr differs ↦ elim (apart_cases x y differs) [
        | inl below ↦ absurd (omega (arith, firsts_decide base x y xs ys ls hxs below))
        | inr above ↦ absurd (omega (arith, firsts_decide base y x ys xs (sym ls) hys above))
      ]
    ]

-- Two numbers with the common prefix off: the first digits left differ.
pub record Parted (base : ℕ) (ds de : List ℕ) : Type 0 where
  pub prefix : List ℕ
  pub x : ℕ
  pub xs : List ℕ
  pub y : ℕ
  pub ys : List ℕ
  pub taken : take_prefix ds de ≡ some (prefix, x ∷ xs, y ∷ ys)
  pub start : ds ≡ prefix ++ (x ∷ xs)
  pub end : de ≡ prefix ++ (y ∷ ys)
  pub less : x < y
  pub lens : length xs ≡ length ys
  pub xs_below : All (λ d. d < base) xs
  pub y_below : y < base
  pub ys_below : All (λ d. d < base) ys
  pub short : length ys < length de

part_further :
    (base x y : ℕ) (xs ys : List ℕ)
    → (x == y) ≡ true
    → x ≡ y
    → Parted base xs ys
    → Parted base (x ∷ xs) (y ∷ ys)
part_further base x y xs ys same e t = record {
  prefix = x ∷ t.prefix;
  x = t.x;
  xs = t.xs;
  y = t.y;
  ys = t.ys;
  taken = unfold take_prefix in rw (same, t.taken);
  start = ap (λ (l : List ℕ). x ∷ l) t.start;
  end = cc (e, t.end);
  less = t.less;
  lens = t.lens;
  xs_below = t.xs_below;
  y_below = t.y_below;
  ys_below = t.ys_below;
  short = omega (arith, t.short);
}

pub part :
    (base : ℕ) (ds de : List ℕ)
    → All (λ d. d < base) ds
    → All (λ d. d < base) de
    → length ds ≡ length de
    → value base ds < value base de
    → Parted base ds de
part base [] [] hs he len lt = absurd (omega arith)
part base [] (y ∷ ys) hs he len lt = absurd (omega (arith, len))
part base (x ∷ xs) [] hs he len lt = absurd (omega (arith, len))
part base (x ∷ xs) (y ∷ ys) (hx, hxs) (hy, hys) len lt = elim (Bool-cases (x == y)) [
  | inl same ↦
      let e : x ≡ y = ground arith in
      let t =
        part base xs ys hxs hys (omega (arith, len))
          (rests_lt base x y xs ys e (omega (arith, len)) lt) in
      part_further base x y xs ys same e t
  | inr differs ↦ record {
    prefix = [];
    x = x;
    xs = xs;
    y = y;
    ys = ys;
    taken = unfold take_prefix in rw differs;
    start = refl;
    end = refl;
    less = firsts_lt base x y xs ys differs (omega (arith, len)) hys lt;
    lens = omega (arith, len);
    xs_below = hxs;
    y_below = hy;
    ys_below = hys;
    short = omega arith;
  }
]
