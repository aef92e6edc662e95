-- ===== src/Trie/Tests.antt =====
-- The theorems on digits and ranges at concrete numbers.
use dlcdevkit.Base.{
  zero, suc, none, some, [], ◌∷◌, ◌⊎◌, refl, ◌≡◌, ◌<◌, arith, List, ℕ, length, All,
}
use dlcdevkit.Base.Outcome.{ok}
use dlcdevkit.Trie.Digits.{decompose_value, compose_value}
use dlcdevkit.Trie.Digits.RoundTrip.{compose-decompose}
use dlcdevkit.Trie.Combinations.{
  CombinationIterator, get_index_for_combination, new, next, advance, raised_index, set, fill,
  selected,
}
use dlcdevkit.Trie.Combinations.Search.{get_index_for_combination_found}
use dlcdevkit.Trie.Combinations.Steps.{
  IsCombination, IsSuccessor, IsLast, running, value_at, next-IsSuccessor,
}
use dlcdevkit.Trie.Group.{group_by_ignoring_digits}
use dlcdevkit.Trie.Group.Cover.{Covers, group_by_ignoring_digits-Covers}

compose-decompose_example :
    (ds : List ℕ) × (decompose_value 4321 2 13 ≡ ok ds)
    × (length ds ≡ 13)
    × All (λ d. d < 2) ds
    × (compose_value ds 2 ≡ 4321)
compose-decompose_example =
    compose-decompose 4321 2 13 (omega arith) (omega arith) (omega arith) (omega arith)

group_by_ignoring_digits-Covers_example :
    Covers 2 13 1234 4321 (group_by_ignoring_digits 1234 4321 2 13)
group_by_ignoring_digits-Covers_example =
    group_by_ignoring_digits-Covers 1234 4321 2 13 (omega arith) (omega arith) (omega arith)
      (omega arith) (omega arith)

-- From [0, 3, 4] of 5 elements: the first value is raised.
from_0_3_4 :
    next (running 5 3 (0 ∷ 3 ∷ 4 ∷ [])) ≡ ok (running 5 3 (1 ∷ 2 ∷ 3 ∷ []), some (1 ∷ 2 ∷ 3 ∷ []))
unfolding next advance raised_index set fill selected
from_0_3_4 = refl

abbrev three_of_five : List ℕ
three_of_five = 0 ∷ 3 ∷ 4 ∷ []

three_of_five-IsCombination : IsCombination 5 3 three_of_five
three_of_five-IsCombination = (refl, (rises, below))
  where
    rises : (i : ℕ) → suc i < 3 → value_at three_of_five i < value_at three_of_five (suc i)
    rises zero lt = omega arith
    rises (suc zero) lt = omega arith
    rises (suc (suc i)) lt = ground arith

    below : (i : ℕ) → i < 3 → value_at three_of_five i < 5
    below zero lt = omega arith
    below (suc zero) lt = omega arith
    below (suc (suc zero)) lt = omega arith
    below (suc (suc (suc i))) lt = ground arith

next-IsSuccessor_example :
    ((zs : List ℕ) × (next (running 5 3 three_of_five) ≡ ok (running 5 3 zs, some zs))
      × IsSuccessor 5 3 three_of_five zs)
    ⊎ ((zs : List ℕ) × (next (running 5 3 three_of_five) ≡ ok (running 5 3 zs, none))
        × IsLast 5 3 three_of_five)
next-IsSuccessor_example = next-IsSuccessor 5 2 three_of_five three_of_five-IsCombination

get_index_for_combination_found_example :
    (it : CombinationIterator) × (j : ℕ) × (new 5 3 ≡ ok it)
    × (get_index_for_combination it three_of_five ≡ ok (some j))
get_index_for_combination_found_example =
    get_index_for_combination_found 5 2 three_of_five (omega arith) three_of_five-IsCombination
