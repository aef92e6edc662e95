-- ===== src/Trie/Combinations/Search.antt =====
-- The search for a selection through the iterator ends, and finds it.
use dlcdevkit.Base.{
  ℕ, zero, suc, ◌+◌, ◌^◌, ◌<◌, ◌≤◌, ◌≡◌, ◌∙◌, refl, sym, inl, inr, true, false, some, List,
  list_eqb, list_eqb_refl, Bool-cases, arith,
}
use dlcdevkit.Base.Outcome.{ok}
use dlcdevkit.Trie.Combinations.{CombinationIterator, new, next, search, get_index_for_combination}
use dlcdevkit.Trie.Combinations.Steps.{
  IsCombination, IsFirst, Before, running, next-IsSuccessor, new-IsFirst,
}
use dlcdevkit.Trie.Combinations.Weights.{weight, weight_bound, Before-weight, Before-cases}

apart : (xs ys : List ℕ) → xs ≡ ys → list_eqb xs ys ≡ false → ⊥
apart xs ys same differ = let equal : list_eqb xs ys ≡ true = rw same (list_eqb_refl ys) in cc

module _ (n last : ℕ) (ys : List ℕ) (wanted : IsCombination n (suc last) ys) where
  combination_weight : (xs : List ℕ) → IsCombination n (suc last) xs → weight n xs < n ^ suc last
  combination_weight xs combination =
      rw (← combination.0)
        (weight_bound n xs (λ i lt. combination.1.1 i (omega (arith, combination.0, lt))))

  weight_grows :
      (xs zs : List ℕ)
      → IsCombination n (suc last) xs
      → IsCombination n (suc last) zs
      → Before (suc last) xs zs
      → weight n xs < weight n zs
  weight_grows xs zs combination combination' (c, lt, same, less) =
      Before-weight n xs zs (combination'.0 ∙ sym combination.0)
        (λ i lt. combination.1.1 i (omega (arith, combination.0, lt)))
        (c, omega (arith, combination.0, lt), same, less)

  search_found :
      (fuel : ℕ) (i : ℕ) (xs : List ℕ)
      → IsCombination n (suc last) xs
      → Before (suc last) xs ys
      → n ^ suc last ≤ fuel + weight n xs
      → (j : ℕ) × (search fuel ys i (running n (suc last) xs) ≡ ok (some j))
  unfolding search
  search_found zero i xs combination before enough =
      elim (the_end (combination_weight xs combination)) [ ]
    where
      the_end : weight n xs < n ^ suc last → ⊥
      the_end h = omega arith
  search_found (suc fuel) i xs combination before enough =
      elim (next-IsSuccessor n last xs combination) [
        | inr (zs, e, none_after) ↦ absurd (none_after (ys, wanted, before))
        | inl (zs, e, (combination', after, gap)) ↦ elim (Bool-cases (list_eqb ys zs)) [
          | inl h ↦ (i, rw (e, h) refl)
          | inr h ↦ elim (Before-cases (suc last) ys zs wanted.0 combination'.0) [
            | inl between ↦ absurd (gap (ys, wanted, before, between))
            | inr (inl same) ↦ absurd (apart ys zs same h)
            | inr (inr before') ↦
                let (j, found) =
                  search_found fuel (suc i) zs combination' before'
                    (omega (arith, enough, weight_grows xs zs combination combination' after)) in
                (j, rw (e, h) found)
          ]
        ]
      ]

  -- What is done with the first selection, and with the rest.
  search_starts :
      (it : CombinationIterator) (xs : List ℕ)
      → next it ≡ ok (running n (suc last) xs, some xs)
      → IsFirst n (suc last) xs
      → (j : ℕ) × (search (suc (n ^ suc last)) ys 0 it ≡ ok (some j))
  unfolding search
  search_starts it xs e (combination, none_before) = elim (Bool-cases (list_eqb ys xs)) [
    | inl h ↦ (0, rw (e, h) refl)
    | inr h ↦ elim (Before-cases (suc last) ys xs wanted.0 combination.0) [
      | inl before ↦ absurd (none_before (ys, wanted, before))
      | inr (inl same) ↦ absurd (apart ys xs same h)
      | inr (inr before) ↦
          let (j, found) = search_found (n ^ suc last) 1 xs combination before (omega arith) in
          (j, rw (e, h) found)
    ]
  ]

-- Over no fewer elements than are selected, at least one, a new iterator finds the index of every
-- selection: the search ends with one.
pub get_index_for_combination_found :
    (n last : ℕ) (ys : List ℕ)
    → suc last ≤ n
    → IsCombination n (suc last) ys
    → (it : CombinationIterator) × (j : ℕ) × (new n (suc last) ≡ ok it)
      × (get_index_for_combination it ys ≡ ok (some j))
unfolding get_index_for_combination
get_index_for_combination_found n last ys le wanted =
    let (it, xs, made, size, first, e) = new-IsFirst n last le in
    let (j, found) = search_starts n last ys wanted it xs first e in
    (it, j, made, rw (size.0, size.1) found)
