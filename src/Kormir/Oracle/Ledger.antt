-- ===== src/Kormir/Oracle/Ledger.antt =====
-- Which nonces are still to be used and which were used: what saving and signing an event keep.
use dlcdevkit.Base.{
  ℕ, zero, suc, ◌+◌, ◌%◌, ◌^◌, ◌≤◌, ◌<◌, ◌≡◌, ◌≢◌, refl, sym, ap, ◌∙◌, inl, inr, arith, ◌⊎◌, false,
  some, List, [], ◌∷◌, ◌++◌, Has, list_eqb, list_eqb→eq, list_eqb_refl, Bool-cases,
}
use dlcdevkit.Kormir.Messages.{Text}
use dlcdevkit.Kormir.Storage.{MemoryStorage, OracleEventData, index_range}
use dlcdevkit.Manager.Monitor.Maps.{lookup, insert, lookup-insert}

-- No number occurs twice.
abbrev pub Distinct : List ℕ → Type 0
Distinct [] = Unit {0}
Distinct (x ∷ xs) = (Has x xs → ⊥) × Distinct xs

-- No number occurs in both.
abbrev pub Apart : List ℕ → List ℕ → Type 0
Apart xs ys = (x : ℕ) → Has x xs → Has x ys → ⊥

Has-append : (x : ℕ) (xs ys : List ℕ) → Has x (xs ++ ys) → Has x xs ⊎ Has x ys
Has-append x [] ys h = inr h
Has-append x (y ∷ xs) ys (inl e) = inl (inl e)
Has-append x (y ∷ xs) ys (inr h) = elim (Has-append x xs ys h) [
  | inl left ↦ inl (inr left)
  | inr right ↦ inr right
]

Distinct-append : (xs ys : List ℕ) → Distinct xs → Distinct ys → Apart xs ys → Distinct (xs ++ ys)
Distinct-append [] ys d d' apart = d'
Distinct-append (x ∷ xs) ys (out, d) d' apart = (
  λ h. elim (Has-append x xs ys h) [ inl left ↦ out left | inr right ↦ apart x (inl refl) right ],
  Distinct-append xs ys d d' (λ y here there. apart y (inr here) there),
)

pub index_range-bounds :
    (c num x : ℕ) → c + num < 2 ^ 32 → Has x (index_range c num) → (c ≤ x) × (x < c + num)
unfolding index_range
index_range-bounds c zero x h m = elim m [ ]
index_range-bounds c (suc num) x h (inl e) = omega (arith, e)
index_range-bounds c (suc num) x h (inr m) =
    let step : (c + 1) % 2 ^ 32 ≡ c + 1 = omega arith in
    omega (arith, index_range-bounds (c + 1) num x (omega arith) (rw step at m))

index_range-Distinct : (c num : ℕ) → c + num < 2 ^ 32 → Distinct (index_range c num)
unfolding index_range
index_range-Distinct c zero h = tt
index_range-Distinct c (suc num) h =
    let step : (c + 1) % 2 ^ 32 ≡ c + 1 = omega arith in
    rw step (
      (λ m. absurd (omega (arith, index_range-bounds (c + 1) num c (omega arith) m))),
      index_range-Distinct (c + 1) num (omega arith),
    )

-- An event that is stored and has no signatures.
pub record IsOpen (s : MemoryStorage) (id : Text) (e : OracleEventData) : Type 0 where
  pub found : lookup list_eqb id s.events ≡ some e
  pub open_still : e.signatures ≡ []

-- The nonces that were used are different from one another, from those of the events still to be signed
-- and from those not handed out; so are those of the events.
pub record IsFresh (s : MemoryStorage) (used : List ℕ) : Type 0 where
  pub used_once : Distinct used
  pub handed_out : (x : ℕ) → Has x used → x < s.current_index
  pub unused : (id : Text) (e : OracleEventData) → IsOpen s id e → Apart used e.indexes
  pub own : (id : Text) (e : OracleEventData) → IsOpen s id e → Distinct e.indexes
  pub below :
      (id : Text) (e : OracleEventData)
      → IsOpen s id e
      → (x : ℕ) → Has x e.indexes
      → x < s.current_index
  pub apart :
      (id id' : Text) (e e' : OracleEventData)
      → IsOpen s id e
      → IsOpen s id' e'
      → id ≢ id'
      → Apart e.indexes e'.indexes

-- The counter may be raised.
pub IsFresh-raise :
    (s : MemoryStorage) (c : ℕ) (used : List ℕ)
    → s.current_index ≤ c
    → IsFresh s used
    → IsFresh (record s { current_index = c }) used
IsFresh-raise s c used h f = record {
  used_once = f.used_once;
  handed_out = λ x m. omega (arith, f.handed_out x m);
  unused = λ id e o. f.unused id e (record { found = o.found; open_still = o.open_still });
  own = λ id e o. f.own id e (record { found = o.found; open_still = o.open_still });
  below = λ id e o x m.
      omega (arith, f.below id e (record { found = o.found; open_still = o.open_still }) x m);
  apart = λ id id' e e' o o' ne.
      f.apart id id' e e' (record { found = o.found; open_still = o.open_still })
        (record { found = o'.found; open_still = o'.open_still }) ne;
}

module _ (s : MemoryStorage) (id0 : Text) (v : OracleEventData) (c : ℕ) where
  -- The storage with an event put at its id.
  abbrev pub stored : MemoryStorage
  stored = record { current_index = c; events = insert list_eqb id0 v s.events }

  -- An open event of it is the one that was put there, or another that was open before.
  IsOpen-stored :
      (id : Text) (e : OracleEventData)
      → IsOpen stored id e
      → ((id ≡ id0) × (v ≡ e)) ⊎ ((id ≢ id0) × IsOpen s id e)
  IsOpen-stored id e o =
      let at = sym (lookup-insert list_eqb list_eqb→eq list_eqb_refl id id0 v s.events) ∙ o.found in
      elim (Bool-cases (list_eqb id id0)) [
        | inl same ↦ inl (list_eqb→eq id id0 same, cc (rw same at at))
        | inr differs ↦
            inr (differ id differs, record { found = rw differs at at; open_still = o.open_still })
      ]
    where
      differ : (id : Text) → list_eqb id id0 ≡ false → id ≢ id0
      differ id d e = cc (rw e at d, list_eqb_refl id0)

  module _ (used : List ℕ) (f : IsFresh s used) where
    -- A new event with nonces that were not handed out before.
    pub IsFresh-announce :
        (num : ℕ)
        → v.indexes ≡ index_range s.current_index num
        → s.current_index + num < 2 ^ 32
        → c ≡ s.current_index + num
        → IsFresh stored used
    IsFresh-announce num range fits counter = record {
      used_once = f.used_once;
      handed_out = λ x m. omega (arith, counter, f.handed_out x m);
      unused = λ id e o. elim (IsOpen-stored id e o) [
        | inl (_, new) ↦ λ x m n. absurd (omega (arith, f.handed_out x m, (fresh e new x n).0))
        | inr (_, old) ↦ f.unused id e old
      ];
      own = λ id e o. elim (IsOpen-stored id e o) [
        | inl (_, new) ↦ rw (← new, range) (index_range-Distinct s.current_index num fits)
        | inr (_, old) ↦ f.own id e old
      ];
      below = λ id e o x m. elim (IsOpen-stored id e o) [
        | inl (_, new) ↦ omega (arith, counter, (fresh e new x m).1)
        | inr (_, old) ↦ omega (arith, counter, f.below id e old x m)
      ];
      apart = λ id id' e e' o o' ne. elim (IsOpen-stored id e o) [
        | inl (at, new) ↦ elim (IsOpen-stored id' e' o') [
          | inl (at', _) ↦ absurd (ne (at ∙ sym at'))
          | inr (_, old) ↦
              λ x m n. absurd (omega (arith, (fresh e new x m).0, f.below id' e' old x n))
        ]
        | inr (_, old) ↦ elim (IsOpen-stored id' e' o') [
          | inl (_, new) ↦
              λ x m n. absurd (omega (arith, (fresh e' new x n).0, f.below id e old x m))
          | inr (_, old') ↦ f.apart id id' e e' old old' ne
        ]
      ];
    }
      where
        fresh :
            (e : OracleEventData)
            → v ≡ e
            → (x : ℕ) → Has x e.indexes
            → (s.current_index ≤ x) × (x < s.current_index + num)
        fresh e new x m =
            let at : e.indexes ≡ index_range s.current_index num =
              sym (ap (λ (d : OracleEventData). d.indexes) new) ∙ range in
            index_range-bounds s.current_index num x fits (rw at at m)

    -- An open event that is given signatures: its nonces are used.
    pub IsFresh-sign :
        (e0 : OracleEventData)
        → IsOpen s id0 e0
        → v.signatures ≢ []
        → c ≡ s.current_index
        → IsFresh stored (used ++ e0.indexes)
    IsFresh-sign e0 was signed counter = record {
      used_once =
          Distinct-append used e0.indexes f.used_once (f.own id0 e0 was) (f.unused id0 e0 was);
      handed_out = λ x m. elim (Has-append x used e0.indexes m) [
        | inl before ↦ omega (arith, counter, f.handed_out x before)
        | inr now ↦ omega (arith, counter, f.below id0 e0 was x now)
      ];
      unused = λ id e o x m n. elim (Has-append x used e0.indexes m) [
        | inl before ↦ f.unused id e (older id e o).1 x before n
        | inr now ↦ f.apart id id0 e e0 (older id e o).1 was (older id e o).0 x n now
      ];
      own = λ id e o. f.own id e (older id e o).1;
      below = λ id e o x m. omega (arith, counter, f.below id e (older id e o).1 x m);
      apart = λ id id' e e' o o' ne. f.apart id id' e e' (older id e o).1 (older id' e' o').1 ne;
    }
      where
        older : (id : Text) (e : OracleEventData) → IsOpen stored id e → (id ≢ id0) × IsOpen s id e
        older id e o = elim (IsOpen-stored id e o) [
          | inl (_, new) ↦
              absurd (signed (ap (λ (d : OracleEventData). d.signatures) new ∙ o.open_still))
          | inr old ↦ old
        ]
