-- ===== src/Trie/Combinations/Steps.antt =====
-- The iterator gives the selections in lexicographic order, from the first one on, and none between.
use dlcdevkit.Base.{
  ℕ, zero, suc, ◌+◌, ◌-◌, ◌<◌, ◌≤◌, ◌≡◌, ◌≢◌, ◌⊎◌, ◌∙◌, refl, sym, inl, inr, true, false, none,
  some, List, [], ◌∷◌, length, get_elem?, ltb, ◌==◌, Bool-cases, le→leb, arith,
}
use dlcdevkit.Base.Outcome.{ok}
use dlcdevkit.Trie.Combinations.{
  CombinationIterator, range, new, set, raised_index, fill, advance, selected, next,
}
use dlcdevkit.Trie.Combinations.Vectors.{
  Reads, Reads-ext, range-Reads, set-Reads, fill-Reads, raised_index-stops,
}
use dlcdevkit.Trie.Combinations.Order.{
  Ascends, Precedes, Ascends-room, Ascends-index, raise, full-last, raise-Ascends, raise-Precedes,
  raise-least,
}

abbrev pub value_at : List ℕ → ℕ → ℕ
value_at [] i = 0
value_at (x ∷ xs) zero = x
value_at (x ∷ xs) (suc i) = value_at xs i

-- A selection of `k` of `n` elements: their indices, which rise.
abbrev pub IsCombination : (n k : ℕ) → List ℕ → Type 0
IsCombination n k xs = (length xs ≡ k) × Ascends n k (value_at xs)

-- The lexicographic order.
abbrev pub Before : ℕ → (xs ys : List ℕ) → Type 0
Before k xs ys = Precedes k (value_at xs) (value_at ys)

-- `zs` is the selection after `xs`: none stands between.
abbrev pub IsSuccessor : (n k : ℕ) → (xs zs : List ℕ) → Type 0
IsSuccessor n k xs zs =
    IsCombination n k zs
    × Before k xs zs
    × ¬ ((ys : List ℕ) × IsCombination n k ys × Before k xs ys × Before k ys zs)

abbrev pub IsLast : (n k : ℕ) → List ℕ → Type 0
IsLast n k xs = ¬ ((ys : List ℕ) × IsCombination n k ys × Before k xs ys)

abbrev pub IsFirst : (n k : ℕ) → List ℕ → Type 0
IsFirst n k xs = IsCombination n k xs × ¬ ((ys : List ℕ) × IsCombination n k ys × Before k ys xs)

get_value_at : (xs : List ℕ) (i : ℕ) → i < length xs → get_elem? xs i ≡ some (value_at xs i)
get_value_at [] i lt = ground arith
get_value_at (x ∷ xs) zero lt = refl
get_value_at (x ∷ xs) (suc i) lt = get_value_at xs i (omega (arith, lt))

read_values : (k : ℕ) (xs : List ℕ) → length xs ≡ k → Reads k xs (value_at xs)
read_values k xs len = (len, λ i lt. get_value_at xs i (omega (arith, len, lt)))

Reads-value :
    (k : ℕ) (xs : List ℕ) (f : ℕ → ℕ) → Reads k xs f → (i : ℕ) → i < k → value_at xs i ≡ f i
Reads-value k xs f (len, reads) i lt =
    let same : some (value_at xs i) ≡ some (f i) =
      sym (get_value_at xs i (omega (arith, len, lt))) ∙ reads i lt in
    cc

Ascends-ext :
    (n k : ℕ) (f g : ℕ → ℕ) → ((i : ℕ) → i < k → g i ≡ f i) → Ascends n k f → Ascends n k g
Ascends-ext n k f g e (rises, below) = (
  λ i lt. omega (arith, e i (omega arith), e (suc i) lt, rises i lt),
  λ i lt. omega (arith, e i lt, below i lt),
)

Precedes-left :
    (k : ℕ) (f f' g : ℕ → ℕ) → ((i : ℕ) → i < k → f i ≡ f' i) → Precedes k f g → Precedes k f' g
Precedes-left k f f' g e (c, lt, same, less) =
    (c, lt, λ i lt'. sym (e i (omega arith)) ∙ same i lt', omega (arith, e c lt, less))

Precedes-right :
    (k : ℕ) (f g g' : ℕ → ℕ) → ((i : ℕ) → i < k → g i ≡ g' i) → Precedes k f g → Precedes k f g'
Precedes-right k f g g' e (c, lt, same, less) =
    (c, lt, λ i lt'. same i lt' ∙ e i (omega arith), omega (arith, e c lt, less))

abbrev pub running : (n k : ℕ) → List ℕ → CombinationIterator
running n k xs = record { selector = xs; nb_selected = k; nb_elements = n; is_init = true }

module _ (n last : ℕ) (xs : List ℕ) (combination : IsCombination n (suc last) xs) where
  advance_runs :
      (c : ℕ) (ys zs : List ℕ)
      → raised_index xs n last last ≡ ok c
      → get_elem? xs c ≡ some (value_at xs c)
      → set xs c (value_at xs c + 1) ≡ ok ys
      → fill (last - c) (suc c) ys ≡ ok zs
      → advance (running n (suc last) xs) ≡ ok zs
  unfolding advance
  advance_runs c ys zs e found e1 e2 =
      let last_index : suc last - 1 ≡ last = omega arith in
      let not_empty : ltb 0 (suc last) ≡ true = ground arith in
      rw (not_empty, last_index, e, found, e1) e2

  -- Both loops: all after a place is at its maximum, and the place is raised.
  advance-raise :
      (c : ℕ) × (zs : List ℕ) × (advance (running n (suc last) xs) ≡ ok zs)
      × (c < suc last)
      × ((i : ℕ) → c < i → i < suc last → value_at xs i + (suc last - i) ≡ n)
      × ((c ≡ 0) ⊎ (value_at xs c + (suc last - c) ≢ n))
      × Reads (suc last) zs (raise c (value_at xs))
  advance-raise =
      let reads = read_values (suc last) xs combination.0 in
      let (c, e, le, full, stop) =
        raised_index-stops n last last xs (value_at xs) reads
          (omega (arith, Ascends-room n (suc last) 0 (value_at xs) combination.1 (omega arith)))
          (omega arith) (λ i lt le. ground arith) in
      let (ys, e1, reads1) =
        set-Reads (suc last) c (value_at xs c + 1) xs (value_at xs) reads (omega arith) in
      let (zs, e2, reads2) = fill-Reads (last - c) (suc last) c ys _ reads1 (omega arith) in
      (
        c,
        zs,
        advance_runs c ys zs e (reads.1 c (omega arith)) e1 e2,
        omega arith,
        λ i lt le'. full i lt (omega arith),
        stop,
        Reads-ext (suc last) zs _ _ (λ i lt. ground arith) reads2,
      )

  ends_at :
      (zs : List ℕ) (c : ℕ)
      → advance (running n (suc last) xs) ≡ ok zs
      → Reads (suc last) zs (raise c (value_at xs))
      → (raise c (value_at xs) 0 == (n - suc last + 1)) ≡ true
      → next (running n (suc last) xs) ≡ ok (running n (suc last) zs, none)
  unfolding next selected
  ends_at zs c e reads h = rw (e, reads.1 0 (omega arith), h) refl

  goes_on :
      (zs : List ℕ) (c : ℕ)
      → advance (running n (suc last) xs) ≡ ok zs
      → Reads (suc last) zs (raise c (value_at xs))
      → (raise c (value_at xs) 0 == (n - suc last + 1)) ≡ false
      → next (running n (suc last) xs) ≡ ok (running n (suc last) zs, some zs)
  unfolding next selected
  goes_on zs c e reads h = rw (e, reads.1 0 (omega arith), h) refl

  first_room : value_at xs 0 + suc last ≤ n
  first_room = omega (arith, Ascends-room n (suc last) 0 (value_at xs) combination.1 (omega arith))

  all_full :
      (c : ℕ)
      → ((i : ℕ) → c < i → i < suc last → value_at xs i + (suc last - i) ≡ n)
      → (raise c (value_at xs) 0 == (n - suc last + 1)) ≡ true
      → (i : ℕ) → i < suc last
      → value_at xs i + (suc last - i) ≡ n
  all_full zero full h zero lt = ground (arith, first_room)
  all_full zero full h (suc i) lt = full (suc i) (omega arith) lt
  all_full (suc c) full h i lt = ground (arith, first_room)

  free_at :
      (c : ℕ)
      → c < suc last
      → ((c ≡ 0) ⊎ (value_at xs c + (suc last - c) ≢ n))
      → (raise c (value_at xs) 0 == (n - suc last + 1)) ≡ false
      → value_at xs c + (suc last - c) < n
  free_at zero inside stop h = ground (arith, first_room)
  free_at (suc c) inside (inl e) h = ground arith
  free_at (suc c) inside (inr ne) h =
      ground (arith, Ascends-room n (suc last) (suc c) (value_at xs) combination.1 inside)

  raised_after :
      (c : ℕ) (zs : List ℕ)
      → c < suc last
      → ((i : ℕ) → c < i → i < suc last → value_at xs i + (suc last - i) ≡ n)
      → value_at xs c + (suc last - c) < n
      → Reads (suc last) zs (raise c (value_at xs))
      → IsSuccessor n (suc last) xs zs
  raised_after c zs inside full free reads =
      let same = Reads-value (suc last) zs (raise c (value_at xs)) reads in
      let f = value_at xs in
      let up = combination.1 in
      (
        (
          reads.0,
          Ascends-ext n (suc last) (raise c f) _ same
              (raise-Ascends n (suc last) c f up inside free),
        ),
        Precedes-right (suc last) f (raise c f) _ (λ i lt. sym (same i lt))
            (raise-Precedes n (suc last) c f up inside),
        λ (ys, combination', before, before').
            raise-least n (suc last) c f up inside (value_at ys) full combination'.1 before
              (Precedes-right (suc last) (value_at ys) _ (raise c f) same before'),
      )

  -- The iterator in the middle of its run, with a selection, gives the selection after its own, or ends after the last one.
  pub next-IsSuccessor :
      ((zs : List ℕ) × (next (running n (suc last) xs) ≡ ok (running n (suc last) zs, some zs))
        × IsSuccessor n (suc last) xs zs)
      ⊎ ((zs : List ℕ) × (next (running n (suc last) xs) ≡ ok (running n (suc last) zs, none))
          × IsLast n (suc last) xs)
  next-IsSuccessor =
      let (c, zs, e, inside, full, stop, reads) = advance-raise in
      elim (Bool-cases (raise c (value_at xs) 0 == (n - suc last + 1))) [
        | inl h ↦ inr (
          zs,
          ends_at zs c e reads h,
          λ (ys, combination', before).
              full-last n (suc last) c (value_at xs) combination.1 inside (value_at ys)
                (all_full c full h) combination'.1 before,
        )
        | inr h ↦ inl (
          zs,
          goes_on zs c e reads h,
          raised_after c zs inside full (free_at c inside stop h) reads,
        )
      ]

-- A new iterator over no fewer elements than are selected, at least one, first gives the selection that none stands before, and is then in the middle of its run.
pub new-IsFirst :
    (n last : ℕ)
    → suc last ≤ n
    → (it : CombinationIterator) × (xs : List ℕ) × (new n (suc last) ≡ ok it)
      × ((it.nb_elements ≡ n) × (it.nb_selected ≡ suc last))
      × (next it ≡ ok (running n (suc last) xs, some xs))
      × IsFirst n (suc last) xs
unfolding new next
new-IsFirst n last le =
    let k = suc last in
    let xs = range 0 k in
    let reads = range-Reads 0 k in
    let same = Reads-value k xs (λ i. 0 + i) reads in
    (
      record { selector = xs; nb_selected = k; nb_elements = n; is_init = false },
      xs,
      rw (le→leb k n le) refl,
      (refl, refl),
      refl,
      (
        (reads.0, Ascends-ext n k (λ i. 0 + i) _ same (λ i lt. omega arith, λ i lt. omega arith)),
        λ (ys, combination, (c, lt, before, less)).
            omega (arith, Ascends-index n k c (value_at ys) combination.1 lt, same c lt),
      ),
    )
