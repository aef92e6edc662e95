-- ===== src/Trie/Group/Descend.antt =====
-- The second and third loops of `group_by_ignoring_digits`: over the first digits between start and
-- end, and down into the end.
use native.Mathlib.Nat.{pow-suc, pow-zero}
use mathlib.Core.List.{reverse_aux}
use dlcdevkit.Base.{
  ℕ, zero, suc, ◌+◌, ◌-◌, ◌*◌, ◌^◌, ◌≤◌, ◌<◌, ◌≡◌, ◌≢◌, refl, ap, sym, inl, inr, false, arith, some,
  List, [], ◌∷◌, length, get_elem?, reverse, total, list_eqb, list_eqb→eq, list_eqb_refl, ltb,
  ltb→lt, ==_refl, ◌==◌, Bool-cases,
}
use dlcdevkit.Base.Outcome.{ok}
use dlcdevkit.Trie.Digits.RoundTrip.{value}
use dlcdevkit.Trie.Group.{cross, descend}
use dlcdevkit.Trie.Group.Intervals.{rvalue, value-reverse, length-reverse, Chain, Chain-cast}

-- The single digits from `top` to before `target` cover what lies between their blocks.
pub cross_lem :
    (f base k top target : ℕ)
    → top ≤ target
    → target - top < f
    → (list : List (List ℕ)) × (cross f top target ≡ ok list)
      × Chain base (1 + k) (top * base ^ k) list (target * base ^ k)
unfolding cross
cross_lem zero base k top target h m = absurd (omega arith)
cross_lem (suc f) base k top target h m = elim (Bool-cases (top == target)) [
  | inl there ↦ let e : top ≡ target = ground arith in ([], rw there, rw e)
  | inr short ↦
      let (list, runs, chain) = cross_lem f base k (top + 1) target (ground arith) (ground arith) in
      (
        (top ∷ []) ∷ list,
        rw (short, runs),
        (
          k,
          refl,
          one_digit top base k,
          Chain-cast base _ _ _ _ list _ refl
              (ap (λ (v : ℕ). (v + 1) * base ^ k) (one_value top base)) chain,
        ),
      )
]
  where
    one_value : (x base : ℕ) → x ≡ x * base ^ 0 + 0
    one_value x base = omega (arith, ap (λ (p : ℕ). x * p) (pow-zero base))

    one_digit : (x base k : ℕ) → x * base ^ k ≡ (x * base ^ 0 + 0) * base ^ k
    one_digit x base k = ap (λ (v : ℕ). v * base ^ k) (one_value x base)

reverse_aux-injective : (s r r' : List ℕ) → reverse_aux s r ≡ reverse_aux s r' → r ≡ r'
reverse_aux-injective [] r r' h = h
reverse_aux-injective (x ∷ s) r r' h = cc (reverse_aux-injective s (x ∷ r) (x ∷ r') h)

get_elem?-behind :
    (s r : List ℕ) (i j : ℕ) → i ≡ length s + j → get_elem? (reverse_aux s r) i ≡ get_elem? r j
get_elem?-behind [] r i j h = let e : i ≡ j = omega arith in rw e
get_elem?-behind (y ∷ s) r i j h = get_elem?-behind s (y ∷ r) i (suc j) (omega arith)

get_elem?-reverse_aux :
    (s : List ℕ) (e : ℕ) (r : List ℕ) → get_elem? (reverse_aux s (e ∷ r)) (length s) ≡ some e
get_elem?-reverse_aux s e r = get_elem?-behind s (e ∷ r) (length s) 0 (omega arith)

-- What a run of `descend` gives, at kd open digits of the end.
pub record Descended (f base kd x : ℕ) (s : List ℕ) (e : ℕ) (more : List ℕ) : Type 0 where
  pub list : List (List ℕ)
  pub runs : descend f (x ∷ s) (reverse_aux s (e ∷ more)) ≡ ok list
  pub covers :
      Chain base
        (suc (length s) + (length more + kd))
        (rvalue base (x ∷ s) * base ^ (length more + kd))
        list
        (value base (reverse_aux s (e ∷ more)) * base ^ kd)

arrived : (f base kd x : ℕ) (s : List ℕ) → Descended (suc f) base kd x s x []
arrived f base kd x s = record {
  list = [];
  runs = unfold descend in rw (list_eqb_refl (reverse_aux s (x ∷ [])));
  covers =
      let e : 0 + kd ≡ kd = omega arith in
      rw e (ap (λ (v : ℕ). v * base ^ kd) (sym (value-reverse base (x ∷ s))));
}

not_arrived :
    (x e : ℕ) (s more : List ℕ)
    → (x ∷ []) ≢ (e ∷ more)
    → list_eqb (reverse_aux s (x ∷ [])) (reverse_aux s (e ∷ more)) ≡ false
not_arrived x e s more h =
    elim (Bool-cases (list_eqb (reverse_aux s (x ∷ [])) (reverse_aux s (e ∷ more)))) [
      | inl same ↦ absurd (h (reverse_aux-injective s _ _ (list_eqb→eq _ _ same)))
      | inr differs ↦ differs
    ]

push_zero : (base v k k' : ℕ) → k' ≡ suc k → (0 + base * v) * base ^ k ≡ v * base ^ k'
push_zero base v k k' e = rw e (omega (arith, ap (λ (p : ℕ). v * p) (pow-suc base k)))

deeper :
    (f base kd x : ℕ) (s : List ℕ) (d : ℕ) (more : List ℕ)
    → Descended f base kd 0 (x ∷ s) d more
    → Descended (suc f) base kd x s x (d ∷ more)
deeper f base kd x s d more c = record {
  list = c.list;
  runs =
      unfold descend in
      rw (not_arrived x x s (d ∷ more) (λ p. cc p), get_elem?-reverse_aux s x (d ∷ more), ==_refl x)
        c.runs;
  covers =
      Chain-cast base _ _ _ _ c.list _ (omega arith)
        (push_zero base (rvalue base (x ∷ s)) (length more + kd) (length (d ∷ more) + kd)
          (omega arith))
        c.covers;
}

further :
    (f base kd x : ℕ) (s : List ℕ) (e : ℕ) (more : List ℕ)
    → x < e
    → Descended f base kd (x + 1) s e more
    → Descended (suc f) base kd x s e more
further f base kd x s e more h c = record {
  list = reverse (x ∷ s) ∷ c.list;
  runs =
      unfold descend in
      rw (not_arrived x e s more (λ p. differ p), get_elem?-reverse_aux s e more, apart, c.runs);
  covers = (
    length more + kd,
    ap (λ (n : ℕ). n + (length more + kd)) (length-reverse (x ∷ s)),
    ap (λ (v : ℕ). v * base ^ (length more + kd)) (sym (value-reverse base (x ∷ s))),
    Chain-cast base _ _ _ _ c.list _ refl
        (omega
          (arith, ap (λ (v : ℕ). (v + 1) * base ^ (length more + kd)) (value-reverse base (x ∷ s))))
        c.covers,
  );
}
  where
    apart : (x == e) ≡ false
    apart = ground arith

    differ : (x ∷ []) ≡ (e ∷ more) → ⊥
    differ p = ground (arith, p)

level :
    (f base kd x : ℕ) (s more : List ℕ)
    → total suc more < suc f
    → ((d : ℕ) (rest : List ℕ)
        → 0 ≤ d
        → d - 0 + total suc rest < f
        → Descended f base kd 0 (x ∷ s) d rest)
    → Descended (suc f) base kd x s x more
level f base kd x s [] m down = arrived f base kd x s
level f base kd x s (d ∷ rest) m down =
    deeper f base kd x s d rest (down d rest (omega arith) (omega arith))

-- The last digit x of the stack is at most that of the end, whose further digits are `more`.
pub descend_lem :
    (f base kd x : ℕ) (s : List ℕ) (e : ℕ) (more : List ℕ)
    → x ≤ e
    → (e - x) + total suc more < f
    → Descended f base kd x s e more
descend_lem zero base kd x s e more h m = absurd (omega arith)
descend_lem (suc f) base kd x s e more h m = elim (Bool-cases (ltb x e)) [
  | inl below ↦
      further f base kd x s e more (ltb→lt _ _ below)
        (descend_lem f base kd (x + 1) s e more (ground arith) (ground arith))
  | inr not_below ↦
      let same : x ≡ e = ground arith in
      rw (← same) (level f base kd x s more (ground arith) (descend_lem f base kd 0 (x ∷ s)))
]
