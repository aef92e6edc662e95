-- ===== src/Trie/Combinations.antt =====
-- dlc-trie/src/combination_iterator.rs: the iterator over the selections of a number of elements.
pub mod Vectors
pub mod Order
pub mod Steps
pub mod Weights
pub mod Search
use dlcdevkit.Base.{
  ℕ, zero, suc, ◌+◌, ◌-◌, Bool, true, false, Option, none, some, List, [], ◌∷◌, get_elem?, list_eqb,
  ◌^◌, ltb, leb, ◌==◌, if◌then◌else◌,
}
use dlcdevkit.Base.Outcome.{
  Outcome, ok, err, panicked, Partial, out_of_fuel, assert, unwrap, ◌>>=◌, ◌>>◌,
}

pub record CombinationIterator : Type 0 where
  selector : List ℕ
  nb_selected : ℕ
  nb_elements : ℕ
  is_init : Bool

-- The numbers from `start` on, as many as asked for.
unfoldable pub range : (start len : ℕ) → List ℕ
range start zero = []
range start (suc len) = start ∷ range (suc start) len

unfoldable pub new : (nb_elements nb_selected : ℕ) → Partial CombinationIterator
new nb_elements nb_selected = do
  assert (leb nb_selected nb_elements)
  ok (record {
    selector = range 0 nb_selected;
    nb_selected = nb_selected;
    nb_elements = nb_elements;
    is_init = false;
  })

-- `selector[i]`
abbrev pub index : List ℕ → ℕ → Partial ℕ
index xs i = unwrap (get_elem? xs i)

-- `selector[i] = a`, which panics out of bounds.
unfoldable pub set : List ℕ → ℕ → ℕ → Partial (List ℕ)
set [] i a = panicked
set (x ∷ xs) zero a = ok (a ∷ xs)
set (x ∷ xs) (suc i) a = do ys ← set xs i a; ok (x ∷ ys)

-- The first loop of `next`: from `cur_index` down to a place that can be raised, or to 0. As `new` asks
-- for as many elements as are selected, the subtractions do not go below 0.
unfoldable pub raised_index : List ℕ → (nb_elements last_index cur_index : ℕ) → Partial ℕ
raised_index selector nb_elements last_index zero = ok 0
raised_index selector nb_elements last_index (suc cur_index) =
    let rest = raised_index selector nb_elements last_index cur_index in
    index selector (suc cur_index) >>= λ v.
    if v == (nb_elements - 1 - (last_index - suc cur_index)) then rest else ok (suc cur_index)

-- The second loop, `left` rounds from `cur_index` on.
unfoldable pub fill : (left cur_index : ℕ) → List ℕ → Partial (List ℕ)
fill zero cur_index selector = ok selector
fill (suc left) cur_index selector = do
  v ← index selector (cur_index - 1)
  filled ← set selector cur_index (v + 1)
  fill left (suc cur_index) filled

-- What `next` does from the second call on. With none selected the index of the last one is below 0,
-- and the access to it panics.
unfoldable pub advance : CombinationIterator → Partial (List ℕ)
advance it = do
  assert (ltb 0 it.nb_selected)
  cur_index ← raised_index it.selector it.nb_elements (it.nb_selected - 1) (it.nb_selected - 1)
  v ← index it.selector cur_index
  raised ← set it.selector cur_index (v + 1)
  fill (it.nb_selected - 1 - cur_index) (suc cur_index) raised

-- The end of `next`.
unfoldable pub selected :
    CombinationIterator → List ℕ → Partial (CombinationIterator × Option (List ℕ))
selected it selector = do
  first ← index selector 0
  ok (
    record it { selector = selector },
    if first == (it.nb_elements - it.nb_selected + 1) then none else some selector,
  )

unfoldable pub next : CombinationIterator → Partial (CombinationIterator × Option (List ℕ))
next it =
    if it.is_init
    then advance it >>= selected it
    else ok (record it { is_init = true }, some it.selector)

-- The loop of `get_index_for_combination` from the `i`-th selection on.
unfoldable pub search : ℕ → List ℕ → ℕ → CombinationIterator → Partial (Option ℕ)
search zero combination i it = err out_of_fuel
search (suc fuel) combination i it =
    let rest = search fuel combination (suc i) in
    next it >>= λ (it', cur). elim cur [
      | none ↦ ok none
      | some selection ↦ if list_eqb combination selection then ok (some i) else rest it'
    ]

-- There are fewer selections than numbers of as many digits in that base.
unfoldable pub get_index_for_combination : CombinationIterator → List ℕ → Partial (Option ℕ)
get_index_for_combination it combination =
    search (suc (it.nb_elements ^ it.nb_selected)) combination 0 it
