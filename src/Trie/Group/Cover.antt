-- ===== src/Trie/Group/Cover.antt =====
-- The whole of `group_by_ignoring_digits`.
use native.Mathlib.Nat.{pow-suc, pow-zero}
use dlcdevkit.Base.{
  ℕ, suc, ◌+◌, ◌-◌, ◌*◌, ◌^◌, ◌≤◌, ◌<◌, ◌≡◌, refl, ap, sym, ◌∙◌, inl, inr, Bool, true, false, arith,
  List, [], ◌∷◌, ◌++◌, length, length-append, map, all, All, Bool-cases, ◌&&◌, ◌==◌, leb, le→leb,
  list_eqb, list_eqb→eq, list_eqb_refl,
}
use dlcdevkit.Base.Outcome.{ok, Partial}
use dlcdevkit.Trie.Digits.RoundTrip.{value, decomposed}
use dlcdevkit.Trie.Group.{group_rounds, group_rests, group_digits, group_by_ignoring_digits}
use dlcdevkit.Trie.Group.Intervals.{value-append, Chain, Chain-prefix, Chain-cast}
use dlcdevkit.Trie.Group.Apart.{group_apart_covers}
use dlcdevkit.Trie.Group.Parting.{value-injective, Parted, part}

-- A block: from all zeros to all highest digits.
all_zeros : (base : ℕ) (ds : List ℕ) → all (λ x. x == 0) ds ≡ true → value base ds ≡ 0
unfolding all
all_zeros base [] h = refl
all_zeros base (x ∷ ds) h = elim (Bool-cases (x == 0)) [
  | inl z ↦
      let e : x ≡ 0 = ground arith in
      omega (arith, ap (λ (t : ℕ). t * base ^ length ds) e, all_zeros base ds (rw z at h))
  | inr n ↦ absurd (ground (arith, rw n at h))
]

all_highest :
    (base : ℕ) (de : List ℕ)
    → 0 < base
    → all (λ x. x == base - 1) de ≡ true
    → value base de + 1 ≡ base ^ length de
unfolding all
all_highest base [] pos h = omega (arith, pow-zero base)
all_highest base (x ∷ de) pos h = elim (Bool-cases (x == base - 1)) [
  | inl z ↦
      let e : suc x ≡ base = ground arith in
      omega (
        arith,
        all_highest base de pos (rw z at h),
        pow-suc base (length de),
        ap (λ (t : ℕ). t * base ^ length de) e,
      )
  | inr n ↦ absurd (ground (arith, rw n at h))
]

-- What a call gives: prefixes that cover the numbers from `start` to `end`.
pub Covers : (base nb start end : ℕ) → Partial (List (List ℕ)) → Type 0
Covers base nb start end call =
    (list : List (List ℕ)) × (call ≡ ok list) × Chain base nb start list (end + 1)

-- A common prefix in front of a cover.
join :
    (base nb n : ℕ) (q s e ds de : List ℕ) (list : List (List ℕ))
    → ds ≡ q ++ s
    → de ≡ q ++ e
    → length s ≡ n
    → length e ≡ n
    → length de ≡ nb
    → Chain base n (value base s) list (value base e + 1)
    → Chain base nb (value base ds) (map (λ x. q ++ x) list) (value base de + 1)
join base nb n q s e ds de list start end ls le len chain =
    rw (← before, ← after)
      (Chain-cast base _ _ _ _ (map (λ x. q ++ x) list) _
        (omega (arith, length-append q e, ap length end)) refl
        (Chain-prefix base n (value base s) (value base e + 1) q list chain))
  where
    before : value base q * base ^ n + value base s ≡ value base ds
    before = rw (start, value-append base q s, ls) refl

    after : value base q * base ^ n + (value base e + 1) ≡ value base de + 1
    after = rw (end, value-append base q e, le) (omega arith)

block_covers :
    (base nb : ℕ) (q s e ds de : List ℕ)
    → ds ≡ q ++ s
    → de ≡ q ++ e
    → length s ≡ length e
    → length de ≡ nb
    → value base s ≡ 0
    → value base e + 1 ≡ base ^ length e
    → Chain base nb (value base ds) (q ∷ []) (value base de + 1)
block_covers base nb q s e ds de start end ls len low high = (
  length e,
  omega (arith, length-append q e, ap length end),
  rw (start, value-append base q s, ls) (omega (arith, low)),
  rw (end, value-append base q e) (omega (arith, high)),
)

rests_cover :
    (base nb : ℕ) (ds de : List ℕ)
    → 2 ≤ base
    → length de ≡ nb
    → (t : Parted base ds de)
    → Covers base nb
        (value base ds)
        (value base de)
        (group_rests (group_rounds base nb) base (t.prefix, t.x ∷ t.xs, t.y ∷ t.ys))
unfolding Covers
rests_cover base nb ds de two len t =
    elim (Bool-cases (all (λ x. x == 0) (t.x ∷ t.xs) && all (λ x. x == base - 1) (t.y ∷ t.ys))) [
      | inl block ↦ (
        t.prefix ∷ [],
        unfold group_rests in rw block,
        block_covers base nb t.prefix (t.x ∷ t.xs) (t.y ∷ t.ys) ds de t.start t.end
            (omega (arith, t.lens)) len (all_zeros base (t.x ∷ t.xs) (and_left _ _ block))
            (all_highest base (t.y ∷ t.ys) (omega arith) (and_right _ _ block)),
      )
      | inr apart ↦
          let (list, runs, chain) =
            group_apart_covers base nb t.x t.xs t.y t.ys two t.xs_below t.y_below t.ys_below t.less
              t.lens (omega (arith, t.short, len)) in
          (
            map (λ x. t.prefix ++ x) list,
            unfold group_rests in rw (apart, runs),
            join base nb (suc (length t.ys)) t.prefix (t.x ∷ t.xs) (t.y ∷ t.ys) ds de list t.start
                t.end (omega (arith, t.lens)) refl len chain,
          )
    ]
  where
    and_left : (a b : Bool) → a && b ≡ true → a ≡ true
    and_left a b h = ground (arith, h)

    and_right : (a b : Bool) → a && b ≡ true → b ≡ true
    and_right a b h = ground (arith, h)

digits_cover :
    (base nb : ℕ) (ds de : List ℕ)
    → 2 ≤ base
    → All (λ d. d < base) ds
    → All (λ d. d < base) de
    → length ds ≡ nb
    → length de ≡ nb
    → value base ds ≤ value base de
    → Covers base nb
        (value base ds)
        (value base de)
        (group_digits (group_rounds base nb) base ds de)
unfolding Covers
digits_cover base nb ds de two hs he ls le h = elim (Bool-cases (list_eqb ds de)) [
  | inl same ↦
      let e : ds ≡ de = list_eqb→eq ds de same in
      (
        ds ∷ [],
        unfold group_digits in rw same,
        (
          0,
          omega (arith, ls),
          sym (no_power (value base ds)),
          no_power (value base ds + 1) ∙ ap (λ (l : List ℕ). value base l + 1) e,
        ),
      )
  | inr differs ↦
      let t = part base ds de hs he (omega (arith, ls, le)) (strict differs) in
      let (list, runs, chain) = rests_cover base nb ds de two le t in
      (list, unfold group_digits in rw (differs, t.taken) runs, chain)
]
  where
    unequal : list_eqb de de ≡ false → ⊥
    unequal p = cc (p, list_eqb_refl de)

    strict : list_eqb ds de ≡ false → value base ds < value base de
    strict differs = elim (Bool-cases (leb (value base de) (value base ds))) [
      | inl over ↦
          let e : ds ≡ de =
            value-injective base ds de hs he (omega (arith, ls, le)) (ground arith) in
          absurd (unequal (rw e at differs))
      | inr under ↦ ground arith
    ]

    no_power : (v : ℕ) → v * base ^ 0 ≡ v
    no_power v = omega (arith, ap (λ (t : ℕ). v * t) (pow-zero base))

-- For a start and an end that fit into the given number of digits, and into the 53 bits that the decomposition
-- is exact for, in a base from 2 up, `group_by_ignoring_digits` returns, and what it returns covers
-- every number from `start` to `end` once, and no other: the first prefix begins at `start`, each further one begins where
-- the one before it ends, and the last one ends with `end`.
pub group_by_ignoring_digits-Covers :
    (start end base nb : ℕ)
    → 2 ≤ base
    → base < 2 ^ 53
    → start ≤ end
    → end < 2 ^ 53
    → end < base ^ nb
    → Covers base nb start end (group_by_ignoring_digits start end base nb)
unfolding Covers
group_by_ignoring_digits-Covers start end base nb two small h h53 hn =
    let (ds, runs, ls, hs, vs) = decomposed start base nb two small (omega arith) (omega arith) in
    let (de, rune, le, he, ve) = decomposed end base nb two small h53 hn in
    let (list, e, chain) = digits_cover base nb ds de two hs he ls le (omega (arith, vs, ve)) in
    (list, unfold group_by_ignoring_digits in rw (le→leb _ _ h, runs, rune) e, rw (vs, ve) at chain)
