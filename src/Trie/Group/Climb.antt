-- ===== src/Trie/Group/Climb.antt =====
-- The first loop of `group_by_ignoring_digits`: from the start up to a multiple of its first digit's
-- weight. It ends, nothing panics, and what it pushes covers the numbers on the way.
use native.Mathlib.Nat.{pow-suc}
use dlcdevkit.Base.{
  ℕ, zero, suc, ◌+◌, ◌-◌, ◌*◌, ◌^◌, ◌≤◌, ◌<◌, ◌≡◌, ◌≢◌, refl, ap, sym, ◌∙◌, ◌⊎◌, inl, inr, true,
  false, arith, List, [], ◌∷◌, length, reverse, all, ltb, ◌==◌, Bool-cases,
}
use dlcdevkit.Base.Arith.{mul-le}
use dlcdevkit.Base.Outcome.{ok}
use dlcdevkit.Trie.Group.{remove_tail, increment, climb}
use dlcdevkit.Trie.Group.Trim.{IsStack, IsTop, Trimmed, remove_tail-Trimmed, carry}
use dlcdevkit.Trie.Group.Intervals.{rvalue, value-reverse, length-reverse, Chain, Chain-cast}

-- A run of `climb` from a stack at k open digits.
pub record Climbed (fuel base e k : ℕ) (stack : List ℕ) : Type 0 where
  pub list : List (List ℕ)
  pub top : ℕ
  pub k' : ℕ
  pub runs : climb fuel base stack ≡ ok (list, top)
  pub at_most : top ≤ e
  pub lens : 1 + k' ≡ length stack + k
  pub covers : Chain base (length stack + k) (rvalue base stack * base ^ k) list (top * base ^ k')

IsStack-below :
    (base e : ℕ) (s : List ℕ) → e < base → IsStack base e s → all (λ d. ltb d base) s ≡ true
unfolding all
IsStack-below base e [] he h = elim h [ ]
IsStack-below base e (x ∷ []) he h = ground arith
IsStack-below base e (x ∷ y ∷ s) he (hx, hs) = ground (arith, IsStack-below base e (y ∷ s) he hs)

-- One more at the end of a trimmed stack.
increment-IsTop :
    (base e z : ℕ) (s : List ℕ)
    → e < base
    → IsStack base e (z ∷ s)
    → (s ≡ []) ⊎ (z ≢ base - 1)
    → IsTop base e ((z + 1) ∷ s)
increment-IsTop base e z [] he h other = omega arith
increment-IsTop base e z (y ∷ s) he (hz, hs) other = (ground arith, hs)

IsTop-below :
    (base e x : ℕ) (s : List ℕ)
    → e < base
    → IsTop base e (x ∷ s)
    → all (λ d. ltb d base) (x ∷ s) ≡ true
unfolding all
IsTop-below base e x [] he h = ground arith
IsTop-below base e x (y ∷ s) he (hx, hs) = ground (arith, IsStack-below base e (y ∷ s) he hs)

pub IsStack-IsTop : (base e x : ℕ) (s : List ℕ) → IsStack base e (x ∷ s) → IsTop base e (x ∷ s)
IsStack-IsTop base e x [] h = omega arith
IsStack-IsTop base e x (y ∷ s) h = h

-- A round that pushes the stack, after which the climb goes on from one more than the stack.
push_round :
    (fuel f base e k m x : ℕ) (s t : List ℕ) (c : Climbed f base e m t)
    → climb fuel base (x ∷ s) ≡ ok (reverse (x ∷ s) ∷ c.list, c.top)
    → length t + m ≡ length (x ∷ s) + k
    → rvalue base t * base ^ m ≡ (rvalue base (x ∷ s) + 1) * base ^ k
    → Climbed fuel base e k (x ∷ s)
push_round fuel f base e k m x s t c runs lens next = record {
  list = reverse (x ∷ s) ∷ c.list;
  top = c.top;
  k' = c.k';
  runs = runs;
  at_most = c.at_most;
  lens = c.lens ∙ lens;
  covers = (
    k,
    ap (λ (n : ℕ). n + k) (length-reverse (x ∷ s)),
    ap (λ (v : ℕ). v * base ^ k) (sym (value-reverse base (x ∷ s))),
    Chain-cast base _ _ _ _ c.list _ lens
        (next ∙ ap (λ (v : ℕ). (v + 1) * base ^ k) (sym (value-reverse base (x ∷ s)))) c.covers,
  );
}

climb_digit :
    (f base e k x y : ℕ) (s : List ℕ)
    → e < base
    → IsTop base e (x ∷ y ∷ s)
    → (x == base - 1) ≡ false
    → (x == 0) ≡ false
    → Climbed f base e k ((x + 1) ∷ y ∷ s)
    → Climbed (suc f) base e k (x ∷ y ∷ s)
climb_digit f base e k x y s he (hx, hs) below above c =
    push_round (suc f) f base e k k x (y ∷ s) ((x + 1) ∷ y ∷ s) c
      (unfold climb in
        rw (below, above, IsTop-below base e (x + 1) (y ∷ s) he (ground arith, hs), c.runs))
      refl (omega arith)

climb_carry :
    (f base e k x y : ℕ) (s : List ℕ)
    → 2 ≤ base
    → e < base
    → (x == base - 1) ≡ true
    → (t : Trimmed base e (base - 1) (y ∷ s) (suc k)) → Climbed f base e t.k' ((t.z + 1) ∷ t.s')
    → Climbed (suc f) base e k (x ∷ y ∷ s)
climb_carry f base e k x y s two he last t c =
    push_round (suc f) f base e k t.k' x (y ∷ s) ((t.z + 1) ∷ t.s') c
      (unfold climb increment in
        rw (
          last,
          t.left,
          IsTop-below base e (t.z + 1) t.s' he (increment-IsTop base e t.z t.s' he t.stack t.other),
          c.runs,
        ))
      (omega (arith, t.lens))
      (omega
        (arith, t.nines (omega arith), carry base x (y + base * rvalue base s) k (ground arith)))

climb_trim :
    (f base e k y : ℕ) (s : List ℕ)
    → 2 ≤ base
    → e < base
    → (t : Trimmed base e 0 (y ∷ s) (suc k)) → Climbed f base e t.k' (t.z ∷ t.s')
    → Climbed (suc f) base e k (0 ∷ y ∷ s)
climb_trim f base e k y s two he t c = record {
  list = c.list;
  top = c.top;
  k' = c.k';
  runs =
      unfold climb remove_tail in
      rw (short, t.left, IsStack-below base e (t.z ∷ t.s') he t.stack, c.runs);
  at_most = c.at_most;
  lens = c.lens ∙ omega (arith, t.lens);
  covers =
      Chain-cast base _ _ _ _ c.list _ (omega (arith, t.lens))
        (sym (t.zeros refl)
          ∙ omega (arith, ap (λ (p : ℕ). (y + base * rvalue base s) * p) (pow-suc base k)))
        c.covers;
}
  where
    short : (0 == base - 1) ≡ false
    short = ground arith

-- A round takes one off the measure.
room : (x base : ℕ) → (x == base - 1) ≡ false → x < base → base - (x + 1) < base - x
room x base inner h = omega arith

fewer_room :
    (m n base z x f : ℕ)
    → suc m ≤ suc n
    → suc n * (base + 1) + (base - x) < suc f
    → m * (base + 1) + (base - z) < f
fewer_room m n base z x f h fits = omega (arith, mul-le (suc m) (suc n) (base + 1) h)

pub climb_lem :
    (fuel base e k x : ℕ) (s : List ℕ)
    → 2 ≤ base
    → e < base
    → IsTop base e (x ∷ s)
    → length s * (base + 1) + (base - x) < fuel
    → Climbed fuel base e k (x ∷ s)
climb_lem zero base e k x s two he h m = absurd (omega arith)
climb_lem (suc f) base e k x [] two he h m = record {
  list = [];
  top = x;
  k' = k;
  runs = unfold climb in refl;
  at_most = h;
  lens = refl;
  covers = omega arith;
}
climb_lem (suc f) base e k x (y ∷ s) two he (hx, hs) m = elim (Bool-cases (x == base - 1)) [
  | inl last ↦
      let t = remove_tail-Trimmed base e (base - 1) y s (suc k) hs in
      climb_carry f base e k x y s two he last t (
        climb_lem f base e t.k' (t.z + 1) t.s' two he
          (increment-IsTop base e t.z t.s' he t.stack t.other)
          (fewer_room (length t.s') (length s) base (t.z + 1) x f t.fewer m))
  | inr inner ↦ elim (Bool-cases (x == 0)) [
    | inl zero' ↦
        let t = remove_tail-Trimmed base e 0 y s (suc k) hs in
        let e0 : x ≡ 0 = ground arith in
        rw e0 (
          climb_trim f base e k y s two he t (
            climb_lem f base e t.k' t.z t.s' two he (IsStack-IsTop base e t.z t.s' t.stack)
              (fewer_room (length t.s') (length s) base t.z x f t.fewer m)))
    | inr digit ↦
        climb_digit f base e k x y s he (hx, hs) inner digit
          (climb_lem f base e k (x + 1) (y ∷ s) two he (ground arith, hs)
            (omega (arith, room x base inner hx)))
  ]
]
