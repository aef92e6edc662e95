-- ===== src/Dlc/Util/Order.antt =====
-- Ordering by serial ids and the removal of dust: what they keep.
use dlcdevkit.Base.{
  ℕ, ◌+◌, ◌≤◌, ◌≡◌, refl, ◌∙◌, inl, inr, arith, leb, le→leb, Bool-cases, List, [], ◌∷◌, length,
  total, All, Has, Has-retain, retain,
}
use dlcdevkit.Dlc.Types.{TxOut}
use dlcdevkit.Dlc.Util.{
  insert_by_id, sort_by_id, zip_ids, values, order_by_serial_ids, discard_dust,
}

module _ {ℓ} {A : Type ℓ} (f : A → ℕ) where
  total-insert :
      (i : ℕ) (a : A) (l : List (ℕ × A))
      → total f (values (insert_by_id i a l)) ≡ f a + total f (values l)
  unfolding insert_by_id
  total-insert i a [] = refl
  total-insert i a ((j, c) ∷ l) = ground (arith, total-insert i a l)

  total-sort : (l : List (ℕ × A)) → total f (values (sort_by_id l)) ≡ total f (values l)
  unfolding sort_by_id
  total-sort [] = refl
  total-sort ((i, a) ∷ l) = omega (arith, total-insert i a (sort_by_id l), total-sort l)

  total-zip_ids :
      (ids : List ℕ) (as' : List A)
      → length ids ≡ length as'
      → total f (values (zip_ids ids as')) ≡ total f as'
  unfolding zip_ids
  total-zip_ids [] [] h = refl
  total-zip_ids [] (a ∷ as') h = absurd (omega arith)
  total-zip_ids (i ∷ ids) [] h = absurd (omega arith)
  total-zip_ids (i ∷ ids) (a ∷ as') h = omega (arith, total-zip_ids ids as' (omega arith))

  pub total-order_by_serial_ids :
      (inputs : List A) (ids : List ℕ)
      → length ids ≡ length inputs
      → total f (order_by_serial_ids inputs ids) ≡ total f inputs
  unfolding order_by_serial_ids
  total-order_by_serial_ids inputs ids h = total-sort _ ∙ total-zip_ids ids inputs h

module _ {ℓ} {A : Type ℓ} where
  Has-insert_self : (i : ℕ) (a : A) (l : List (ℕ × A)) → Has a (values (insert_by_id i a l))
  unfolding insert_by_id
  Has-insert_self i a [] = inl refl
  Has-insert_self i a ((j, c) ∷ l) = elim (Bool-cases (leb i j)) [
    | inl le ↦ rw le (inl refl)
    | inr gt ↦ rw gt (inr (Has-insert_self i a l))
  ]

  Has-insert_other :
      (i : ℕ) (a b : A) (l : List (ℕ × A)) → Has b (values l) → Has b (values (insert_by_id i a l))
  unfolding insert_by_id
  Has-insert_other i a b [] h = inr h
  Has-insert_other i a b ((j, c) ∷ l) h = elim (Bool-cases (leb i j)) [
    | inl le ↦ rw le (inr h)
    | inr gt ↦ rw gt (elim h [ inl e ↦ inl e | inr t ↦ inr (Has-insert_other i a b l t) ])
  ]

  Has-sort : (b : A) (l : List (ℕ × A)) → Has b (values l) → Has b (values (sort_by_id l))
  unfolding sort_by_id
  Has-sort b [] h = h
  Has-sort b ((i, a) ∷ l) (inl e) = rw e (Has-insert_self i a (sort_by_id l))
  Has-sort b ((i, a) ∷ l) (inr h) = Has-insert_other i a b (sort_by_id l) (Has-sort b l h)

  Has-zip_ids :
      (b : A) (ids : List ℕ) (as' : List A)
      → length ids ≡ length as'
      → Has b as'
      → Has b (values (zip_ids ids as'))
  unfolding zip_ids
  Has-zip_ids b [] [] e h = h
  Has-zip_ids b [] (a ∷ as') e h = absurd (omega arith)
  Has-zip_ids b (i ∷ ids) [] e h = absurd (omega arith)
  Has-zip_ids b (i ∷ ids) (a ∷ as') e (inl p) = inl p
  Has-zip_ids b (i ∷ ids) (a ∷ as') e (inr h) = inr (Has-zip_ids b ids as' (omega arith) h)

  -- Every element is still there.
  pub Has-order_by_serial_ids :
      (b : A) (inputs : List A) (ids : List ℕ)
      → length ids ≡ length inputs
      → Has b inputs
      → Has b (order_by_serial_ids inputs ids)
  unfolding order_by_serial_ids
  Has-order_by_serial_ids b inputs ids e h = Has-sort b _ (Has-zip_ids b ids inputs e h)

  -- Ids in ascending order.
  abbrev pub IsOrdered : List (ℕ × A) → Type 0
  IsOrdered [] = Unit
  IsOrdered ((i, a) ∷ rest) = All (λ (p : ℕ × A). i ≤ p.0) rest × IsOrdered rest

  All-insert :
      (m i : ℕ) (a : A) (l : List (ℕ × A))
      → m ≤ i
      → All (λ (p : ℕ × A). m ≤ p.0) l
      → All (λ (p : ℕ × A). m ≤ p.0) (insert_by_id i a l)
  unfolding insert_by_id
  All-insert m i a [] le h = (le, h)
  All-insert m i a ((j, c) ∷ l) le (hj, hl) = elim (Bool-cases (leb i j)) [
    | inl first ↦ rw first (le, (hj, hl))
    | inr later ↦ rw later (hj, All-insert m i a l le hl)
  ]

  All-weaken :
      (m n : ℕ) (l : List (ℕ × A))
      → m ≤ n
      → All (λ (p : ℕ × A). n ≤ p.0) l
      → All (λ (p : ℕ × A). m ≤ p.0) l
  All-weaken m n [] le h = h
  All-weaken m n ((j, c) ∷ l) le (hj, hl) = (omega arith, All-weaken m n l le hl)

  IsOrdered-insert :
      (i : ℕ) (a : A) (l : List (ℕ × A)) → IsOrdered l → IsOrdered (insert_by_id i a l)
  unfolding insert_by_id
  IsOrdered-insert i a [] h = (tt, tt)
  IsOrdered-insert i a ((j, c) ∷ l) (hj, hl) = elim (Bool-cases (leb i j)) [
    | inl first ↦ rw first ((ground arith, All-weaken i j l (ground arith) hj), (hj, hl))
    | inr later ↦ rw later (All-insert j i a l (ground arith) hj, IsOrdered-insert i a l hl)
  ]

  pub IsOrdered-sort : (l : List (ℕ × A)) → IsOrdered (sort_by_id l)
  unfolding sort_by_id
  IsOrdered-sort [] = tt
  IsOrdered-sort ((i, a) ∷ l) = IsOrdered-insert i a (sort_by_id l) (IsOrdered-sort l)

-- What the outputs that are dropped were worth is less than the limit for each.
pub total-discard_dust :
    (limit : ℕ) (os : List TxOut)
    → (total (λ (o : TxOut). o.value) (discard_dust os limit) ≤ total (λ (o : TxOut). o.value) os)
      × (total (λ (o : TxOut). o.value) os
          ≤ total (λ (o : TxOut). o.value) (discard_dust os limit)
            + total (λ (o : TxOut). limit) os)
unfolding discard_dust retain
total-discard_dust limit [] = omega arith
total-discard_dust limit (o ∷ os) = ground (arith, total-discard_dust limit os)

pub Has-discard_dust :
    (limit : ℕ) (o : TxOut) (os : List TxOut)
    → limit ≤ o.value
    → Has o os
    → Has o (discard_dust os limit)
unfolding discard_dust
Has-discard_dust limit o os h = Has-retain _ o os (le→leb limit o.value h)
