-- ===== src/Trie/Group/Trim.antt =====
-- `remove_tail`: dropping zeros from the end of a start, and highest digits from the end of an end,
-- keeps the number that the prefix begins or ends with.
use native.Mathlib.Nat.{pow-suc}
use dlcdevkit.Base.{
  ℕ, suc, ◌+◌, ◌*◌, ◌^◌, ◌≤◌, ◌<◌, ◌≡◌, ◌≢◌, refl, ap, ◌∙◌, ◌⊎◌, inl, inr, arith, List, [], ◌∷◌,
  length, ◌==◌, Bool-cases,
}
use dlcdevkit.Trie.Group.{remove_tail}
use dlcdevkit.Trie.Group.Intervals.{rvalue}

-- A stack of digits whose first digit, at the bottom, lies below the first digit e of the end.
abbrev pub IsStack : ℕ → ℕ → List ℕ → Type 0
IsStack base e [] = ⊥
IsStack base e (x ∷ []) = x < e
IsStack base e (x ∷ y ∷ s) = (x < base) × IsStack base e (y ∷ s)

-- The same, but a lone digit may have reached e.
abbrev pub IsTop : ℕ → ℕ → List ℕ → Type 0
IsTop base e [] = ⊥
IsTop base e (x ∷ []) = x ≤ e
IsTop base e (x ∷ y ∷ s) = (x < base) × IsStack base e (y ∷ s)

-- The first digit of the number.
abbrev pub bottom : List ℕ → ℕ
bottom [] = 0
bottom (x ∷ []) = x
bottom (x ∷ y ∷ s) = bottom (y ∷ s)

-- What `remove_tail` leaves of a stack at k open digits: z ∷ s', at k' open digits, whose last digit is not the one
-- removed unless it is the first.
pub record Trimmed (base e r : ℕ) (s : List ℕ) (k : ℕ) : Type 0 where
  pub z : ℕ
  pub s' : List ℕ
  pub k' : ℕ
  pub left : remove_tail s r ≡ z ∷ s'
  pub stack : IsStack base e (z ∷ s')
  pub other : (s' ≡ []) ⊎ (z ≢ r)
  pub lens : length (z ∷ s') + k' ≡ length s + k
  pub fewer : length (z ∷ s') ≤ length s
  pub base_kept : bottom (z ∷ s') ≡ bottom s
  pub zeros : r ≡ 0 → rvalue base s * base ^ k ≡ rvalue base (z ∷ s') * base ^ k'
  pub nines : r + 1 ≡ base → (rvalue base s + 1) * base ^ k ≡ (rvalue base (z ∷ s') + 1) * base ^ k'

-- One more than a number that ends in the last digit of the base.
pub carry :
    (base x rest k : ℕ)
    → suc x ≡ base
    → (x + base * rest + 1) * base ^ k ≡ (rest + 1) * base ^ suc k
carry base x rest k h =
    let e : x + base * rest + 1 ≡ base * (rest + 1) = omega arith in
    rw (e, pow-suc base k) (omega arith)

pub remove_tail-Trimmed :
    (base e r : ℕ) (y : ℕ) (s : List ℕ) (k : ℕ)
    → IsStack base e (y ∷ s)
    → Trimmed base e r (y ∷ s) k
unfolding remove_tail
remove_tail-Trimmed base e r y [] k h = record {
  z = y;
  s' = [];
  k' = k;
  left = refl;
  stack = h;
  other = inl refl;
  lens = refl;
  fewer = omega arith;
  base_kept = refl;
  zeros = λ _. refl;
  nines = λ _. refl;
}
remove_tail-Trimmed base e r y (w ∷ s) k h = elim (Bool-cases (y == r)) [
  | inl same ↦
      let t = remove_tail-Trimmed base e r w s (suc k) h.1 in
      let y-is-r : y ≡ r = ground arith in
      record {
        z = t.z;
        s' = t.s';
        k' = t.k';
        left = rw same t.left;
        stack = t.stack;
        other = t.other;
        lens = omega (arith, t.lens);
        fewer = omega (arith, t.fewer);
        base_kept = t.base_kept;
        zeros = λ r0. omega (
          arith,
          t.zeros r0,
          ap (λ (t : ℕ). (w + base * rvalue base s) * t) (pow-suc base k),
          ap (λ (t : ℕ). t * base ^ k) (y-is-r ∙ r0),
        );
        nines = λ r9.
            carry base y (w + base * rvalue base s) k (ap suc y-is-r ∙ omega (arith, r9))
            ∙ t.nines r9;
      }
  | inr differs ↦ record {
    z = y;
    s' = w ∷ s;
    k' = k;
    left = rw differs;
    stack = h;
    other = inr (ground arith);
    lens = refl;
    fewer = omega arith;
    base_kept = refl;
    zeros = λ _. refl;
    nines = λ _. refl;
  }
]
