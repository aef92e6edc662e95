-- ===== src/Trie/Group/Apart.antt =====
-- The three loops together, for a start and an end that differ in their first digit.
use native.Mathlib.Nat.{pow-zero}
use mathlib.Core.List.{reverse_aux, reverse-reverse}
use dlcdevkit.Base.{
  ℕ, suc, ◌+◌, ◌-◌, ◌*◌, ◌^◌, ◌≤◌, ◌<◌, ◌≡◌, ◌≢◌, refl, ap, sym, ◌∙◌, arith, List, [], ◌∷◌, ◌++◌,
  length, reverse, total, All, get_elem?,
}
use dlcdevkit.Base.Arith.{mul-le}
use dlcdevkit.Base.Outcome.{ok, unwrap, ◌>>=◌}
use dlcdevkit.Trie.Digits.RoundTrip.{value}
use dlcdevkit.Trie.Group.{cross, descend, group_apart, group_rounds}
use dlcdevkit.Trie.Group.Intervals.{
  rvalue, value-reverse, length-reverse, Chain, Chain-append, Chain-cast,
}
use dlcdevkit.Trie.Group.Trim.{IsStack, bottom, Trimmed, remove_tail-Trimmed}
use dlcdevkit.Trie.Group.Climb.{Climbed, climb_lem, IsStack-IsTop}
use dlcdevkit.Trie.Group.Descend.{cross_lem, Descended, descend_lem}

IsStack-reverse_aux :
    (base e : ℕ) (s r : List ℕ)
    → All (λ d. d < base) s
    → r ≢ []
    → IsStack base e r
    → IsStack base e (reverse_aux s r)
IsStack-reverse_aux base e [] r hs ne h = h
IsStack-reverse_aux base e (x ∷ s) [] (hx, hs) ne h = absurd (ne refl)
IsStack-reverse_aux base e (x ∷ s) (y ∷ r) (hx, hs) ne h =
    IsStack-reverse_aux base e s (x ∷ y ∷ r) hs (λ p. cc p) (hx, h)

-- The number behind a stack begins with the stack's bottom.
first_digit :
    (x : ℕ) (s r : List ℕ)
    → (more : List ℕ) × (reverse_aux (x ∷ s) r ≡ bottom (x ∷ s) ∷ more)
      × (length more ≡ length s + length r)
      × (total suc more + suc (bottom (x ∷ s)) ≡ total suc (x ∷ s) + total suc r)
first_digit x [] r = (r, refl, omega arith, omega arith)
first_digit x (y ∷ s) r =
    let (more, e, len, sum) = first_digit y s (x ∷ r) in
    (more, e, omega (arith, len), omega (arith, sum))

bottom-reverse_aux : (x : ℕ) (s r : List ℕ) → bottom (reverse_aux s (x ∷ r)) ≡ bottom (x ∷ r)
bottom-reverse_aux x [] r = refl
bottom-reverse_aux x (y ∷ s) r = bottom-reverse_aux y s (x ∷ r)

digits_sum : (base : ℕ) (s : List ℕ) → IsStack base base s → total suc s ≤ base * length s
digits_sum base [] h = elim h [ ]
digits_sum base (x ∷ []) h = omega arith
digits_sum base (x ∷ y ∷ s) (hx, hs) = omega (arith, digits_sum base (y ∷ s) hs)

-- A list of digits, read from the end, is a stack over its first digit.
reverse-IsStack :
    (base e x : ℕ) (xs : List ℕ)
    → x < e
    → All (λ d. d < base) xs
    → IsStack base e (reverse (x ∷ xs))
reverse-IsStack base e x xs hx h = IsStack-reverse_aux base e xs (x ∷ []) h (λ p. cc p) hx

-- The same with the stack written out.
record Opened (base e x : ℕ) (xs : List ℕ) : Type 0 where
  y : ℕ
  s : List ℕ
  shape : reverse (x ∷ xs) ≡ y ∷ s
  stack : IsStack base e (y ∷ s)
  len : length s ≡ length xs
  first : bottom (y ∷ s) ≡ x
  number : rvalue base (y ∷ s) ≡ value base (x ∷ xs)

open_stack :
    (base e x : ℕ) (xs t : List ℕ)
    → reverse (x ∷ xs) ≡ t
    → x < e
    → All (λ d. d < base) xs
    → Opened base e x xs
open_stack base e x xs [] shape hx h = absurd (nonempty (ap length shape))
  where
    nonempty : length (reverse (x ∷ xs)) ≡ 0 → ⊥
    nonempty p = omega (arith, length-reverse (x ∷ xs))
open_stack base e x xs (y ∷ s) shape hx h = record {
  y = y;
  s = s;
  shape = shape;
  stack = rw shape at (reverse-IsStack base e x xs hx h);
  len = omega (arith, length-reverse (x ∷ xs), ap length shape);
  first = rw shape at (bottom-reverse_aux x xs []);
  number =
      sym (value-reverse base (y ∷ s))
      ∙ ap (value base) (ap reverse (sym shape) ∙ reverse-reverse (x ∷ xs));
}

no_power : (base v : ℕ) → v * base ^ 0 ≡ v
no_power base v = omega (arith, ap (λ (t : ℕ). v * t) (pow-zero base))

module _ (base nb x : ℕ) (xs : List ℕ) (y : ℕ) (ys : List ℕ) (two : 2 ≤ base)
    (hxs : All (λ d. d < base) xs) (hy : y < base) (hys : All (λ d. d < base) ys) (less : x < y)
    (len : length xs ≡ length ys) (fits : length ys < nb) where
  -- The start, without its zeros at the end, and the end, without its highest digits.
  start_stack : Opened base y x xs
  start_stack = open_stack base y x xs (reverse (x ∷ xs)) refl less hxs

  end_stack : Opened base base y ys
  end_stack = open_stack base base y ys (reverse (y ∷ ys)) refl hy hys

  start_trim : Trimmed base y 0 (start_stack.y ∷ start_stack.s) 0
  start_trim = remove_tail-Trimmed base y 0 start_stack.y start_stack.s 0 start_stack.stack

  end_trim : Trimmed base base (base - 1) (end_stack.y ∷ end_stack.s) 0
  end_trim = remove_tail-Trimmed base base (base - 1) end_stack.y end_stack.s 0 end_stack.stack

  unfoldable fuel : ℕ
  fuel = group_rounds base nb

  enough : (m : ℕ) → m ≤ length ys → m * (base + 1) + base < fuel
  unfolding fuel
  enough m h = omega (arith, mul-le (suc m) nb (base + 1) (omega arith))

  climbed : Climbed fuel base y start_trim.k' (start_trim.z ∷ start_trim.s')
  climbed =
      climb_lem fuel base y start_trim.k' start_trim.z start_trim.s' two hy
        (IsStack-IsTop base y start_trim.z start_trim.s' start_trim.stack)
        (omega
          (arith, enough (length start_trim.s') (omega (arith, start_trim.fewer, start_stack.len))))

  end_digits : List ℕ
  end_digits = reverse (end_trim.z ∷ end_trim.s')

  end_split :
      (more : List ℕ) × (end_digits ≡ y ∷ more)
      × (length more ≡ length end_trim.s')
      × (total suc more < fuel)
  unfolding end_digits
  end_split =
      let (more, e, len, sum) = first_digit end_trim.z end_trim.s' [] in
      let b : bottom (end_trim.z ∷ end_trim.s') ≡ y = end_trim.base_kept ∙ end_stack.first in
      (more, rw b at e, omega (arith, len), small more sum)
    where
      small :
          (more : List ℕ)
          → total suc more + suc (bottom (end_trim.z ∷ end_trim.s'))
            ≡ total suc (end_trim.z ∷ end_trim.s') + 0
          → total suc more < fuel
      small more sum = omega (
        arith,
        digits_sum base (end_trim.z ∷ end_trim.s') end_trim.stack,
        enough (length end_trim.s') (omega (arith, end_trim.fewer, end_stack.len)),
      )

  -- The numbers of open digits agree: below the first digit are those of `ys`.
  open_start : climbed.k' ≡ length ys
  open_start = omega (arith, climbed.lens, start_trim.lens, start_stack.len)

  crossed :
      (list : List (List ℕ)) × (cross fuel climbed.top y ≡ ok list)
      × Chain base (1 + climbed.k') (climbed.top * base ^ climbed.k') list (y * base ^ climbed.k')
  crossed =
      cross_lem fuel base climbed.k' climbed.top y climbed.at_most
        (omega (arith, enough 0 (omega arith)))

  descended : Descended fuel base end_trim.k' y [] y end_split.0
  descended =
      descend_lem fuel base end_trim.k' y [] y end_split.0 (omega arith)
        (omega (arith, end_split.3))

  end_len : length end_digits + end_trim.k' ≡ suc (length ys)
  unfolding end_digits
  end_len = omega (arith, length-reverse (end_trim.z ∷ end_trim.s'), end_trim.lens, end_stack.len)

  -- The end's last prefix closes the range.
  end_value : (value base end_digits + 1) * base ^ end_trim.k' ≡ value base (y ∷ ys) + 1
  unfolding end_digits
  end_value =
      ap (λ (v : ℕ). (v + 1) * base ^ end_trim.k') (value-reverse base (end_trim.z ∷ end_trim.s'))
      ∙ sym (end_trim.nines (omega arith))
      ∙ no_power base (rvalue base (end_stack.y ∷ end_stack.s) + 1)
      ∙ ap (λ (v : ℕ). v + 1) end_stack.number

  start_value :
      rvalue base (start_trim.z ∷ start_trim.s') * base ^ start_trim.k' ≡ value base (x ∷ xs)
  start_value =
      sym (start_trim.zeros refl)
      ∙ no_power base (rvalue base (start_stack.y ∷ start_stack.s))
      ∙ start_stack.number

  open_end : length end_split.0 + end_trim.k' ≡ climbed.k'
  open_end = omega (arith, open_start, end_split.2, end_trim.lens, end_stack.len)

  first_value :
      rvalue base (y ∷ []) * base ^ (length end_split.0 + end_trim.k') ≡ y * base ^ climbed.k'
  first_value = rw open_end (omega arith)

  -- The last two loops, from where the climb ended.
  finish :
      (de : List ℕ)
      → de ≡ y ∷ end_split.0
      → (do
        first ← unwrap (get_elem? de 0)
        between ← cross fuel climbed.top first
        above ← descend fuel (first ∷ []) de
        ok (climbed.list ++ (between ++ (above ++ (de ∷ [])))))
        ≡ ok (climbed.list ++ (crossed.0 ++ (descended.list ++ (de ∷ []))))
  finish de e = rw (e, crossed.1, descended.runs) refl

  runs :
      group_apart fuel base (x ∷ xs) (y ∷ ys)
      ≡ ok (climbed.list ++ (crossed.0 ++ (descended.list ++ (end_digits ∷ []))))
  runs =
      unfold group_apart end_digits in
      rw (start_stack.shape, start_trim.left, climbed.runs, end_stack.shape, end_trim.left)
        (finish end_digits end_split.1)

  pub group_apart_covers :
      (list : List (List ℕ)) × (group_apart (group_rounds base nb) base (x ∷ xs) (y ∷ ys) ≡ ok list)
      × Chain base (suc (length ys)) (value base (x ∷ xs)) list (value base (y ∷ ys) + 1)
  unfolding fuel
  group_apart_covers = (
    climbed.list ++ (crossed.0 ++ (descended.list ++ (end_digits ∷ []))),
    runs,
    Chain-append base (suc (length ys)) _ _ _ climbed.list _
        (Chain-cast base _ _ _ _ climbed.list _ (omega (arith, start_trim.lens, start_stack.len))
          start_value climbed.covers)
        (Chain-append base (suc (length ys)) _ _ _ crossed.0 _
          (Chain-cast base _ _ _ _ crossed.0 _ (omega (arith, open_start)) refl crossed.2)
          (Chain-append base (suc (length ys)) _ _ _ descended.list _
            (Chain-cast base _ _ _ _ descended.list _ (omega (arith, open_end, open_start))
              first_value descended.covers)
            (
              end_trim.k',
              end_len,
              ap (λ (ds : List ℕ). value base ds * base ^ end_trim.k') (sym end_split.1),
              end_value,
            ))),
  )
