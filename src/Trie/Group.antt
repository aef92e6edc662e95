-- ===== src/Trie/Group.antt =====
-- dlc-trie/src/digit_decomposition.rs, `group_by_ignoring_digits`: the digit prefixes that cover a
-- range. A vector that the code uses as a stack is held last element first; each loop returns what
-- it pushes onto `list`.
mod Tests
pub mod Intervals
pub mod Trim
pub mod Climb
pub mod Descend
pub mod Apart
pub mod Parting
pub mod Cover
use dlcdevkit.Base.{
  ℕ, zero, suc, ◌+◌, ◌-◌, ◌*◌, Bool, true, false, ◌&&◌, Option, none, some, List, [], ◌∷◌, ◌++◌,
  length, get_elem?, all, reverse, map, list_eqb, ltb, leb, ◌==◌, if◌then◌else◌,
}
use dlcdevkit.Base.Outcome.{
  Outcome, ok, err, panicked, Partial, out_of_fuel, assert, unwrap, ◌>>=◌, ◌>>◌,
}
use dlcdevkit.Trie.Digits.{decompose_value}

-- `take_prefix` at different digits: the common prefix, and what each number has behind it. Running
-- off the end of either is an index out of bounds.
unfoldable pub take_prefix : List ℕ → List ℕ → Option (List ℕ × List ℕ × List ℕ)
take_prefix [] end = none
take_prefix (x ∷ xs) [] = none
take_prefix (x ∷ xs) (y ∷ ys) =
    if x == y
    then elim (take_prefix xs ys) [ none ↦ none | some (p, s, e) ↦ some (x ∷ p, s, e) ]
    else some ([], x ∷ xs, y ∷ ys)

unfoldable pub remove_tail : List ℕ → ℕ → List ℕ
remove_tail [] to_remove = []
remove_tail (x ∷ []) to_remove = x ∷ []
remove_tail (x ∷ y ∷ s) to_remove =
    let shorter = remove_tail (y ∷ s) to_remove in if x == to_remove then shorter else x ∷ y ∷ s

-- `stack[j] += 1` at the last element.
unfoldable pub increment : List ℕ → List ℕ
increment [] = []
increment (x ∷ s) = (x + 1) ∷ s

-- The prefixes from the start to the next multiple of its first digit's weight. The loop ends at a
-- stack of one digit, which is returned.
unfoldable pub climb : ℕ → ℕ → List ℕ → Partial (List (List ℕ) × ℕ)
climb zero base stack = err out_of_fuel
climb (suc fuel) base [] = panicked
climb (suc fuel) base (x ∷ []) = ok ([], x)
climb (suc fuel) base (x ∷ y ∷ s) =
    let carried = increment (remove_tail (y ∷ s) (base - 1)) in
    let after_carry = climb fuel base carried in
    let after_trim = climb fuel base (remove_tail (x ∷ y ∷ s) 0) in
    let after_step = climb fuel base ((x + 1) ∷ y ∷ s) in
    if x == base - 1
    then (do
      assert (all (λ d. ltb d base) carried)
      (list, top) ← after_carry
      ok (reverse (x ∷ y ∷ s) ∷ list, top))
    else if x == 0
    then (do assert (all (λ d. ltb d base) (remove_tail (x ∷ y ∷ s) 0)); after_trim)
    else (do
      assert (all (λ d. ltb d base) ((x + 1) ∷ y ∷ s))
      (list, top) ← after_step
      ok (reverse (x ∷ y ∷ s) ∷ list, top))

-- The single digits between the first digits of start and end.
unfoldable pub cross : ℕ → ℕ → ℕ → Partial (List (List ℕ))
cross zero top target = err out_of_fuel
cross (suc fuel) top target =
    let rest = cross fuel (top + 1) target in
    if top == target then ok [] else (do list ← rest; ok ((top ∷ []) ∷ list))

-- The prefixes below the end. `de` is held first element first.
unfoldable pub descend : ℕ → List ℕ → List ℕ → Partial (List (List ℕ))
descend zero stack de = err out_of_fuel
descend (suc fuel) [] de = if list_eqb [] de then ok [] else panicked
descend (suc fuel) (x ∷ s) de =
    let deeper = descend fuel (0 ∷ x ∷ s) de in
    let further = descend fuel ((x + 1) ∷ s) de in
    if list_eqb (reverse (x ∷ s)) de then ok [] else (do
      e ← unwrap (get_elem? de (length s))
      if x == e then deeper else (do list ← further; ok (reverse (x ∷ s) ∷ list)))

-- A stack loses a digit, or its last digit grows, in every round: this many rounds are enough.
abbrev pub group_rounds : ℕ → ℕ → ℕ
group_rounds base nb_digits = (base + 1) * (nb_digits + 1)

-- What follows once the common prefix is off, and neither number is a whole block.
unfoldable pub group_apart : ℕ → ℕ → List ℕ → List ℕ → Partial (List (List ℕ))
group_apart fuel base ds de = do
  let de' = reverse (remove_tail (reverse de) (base - 1))
  (below, top) ← climb fuel base (remove_tail (reverse ds) 0)
  first ← unwrap (get_elem? de' 0)
  between ← cross fuel top first
  above ← descend fuel (first ∷ []) de'
  ok (below ++ (between ++ (above ++ (de' ∷ []))))

-- From the common prefix and the rests on.
unfoldable pub group_rests : ℕ → ℕ → List ℕ × List ℕ × List ℕ → Partial (List (List ℕ))
group_rests fuel base (prefix, ds, de) =
    let list = group_apart fuel base ds de in
    if all (λ x. x == 0) ds && all (λ x. x == base - 1) de
    then ok (prefix ∷ [])
    else (do l ← list; ok (map (λ x. prefix ++ x) l))

-- From the two decompositions on.
unfoldable pub group_digits : ℕ → ℕ → List ℕ → List ℕ → Partial (List (List ℕ))
group_digits fuel base ds de =
    if list_eqb ds de
    then ok (ds ∷ [])
    else (do rests ← unwrap (take_prefix ds de); group_rests fuel base rests)

unfoldable pub group_by_ignoring_digits : (start end base nb_digits : ℕ) → Partial (List (List ℕ))
group_by_ignoring_digits start end base nb_digits = do
  assert (leb start end)
  ds ← decompose_value start base nb_digits
  de ← decompose_value end base nb_digits
  group_digits (group_rounds base nb_digits) base ds de
