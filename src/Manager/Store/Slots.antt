-- ===== src/Manager/Store/Slots.antt =====
-- What stands under an id after the operations of the store.
use dlcdevkit.Base.{
  ◌≡◌, ◌≢◌, refl, sym, ap, ◌∙◌, inl, inr, true, false, none, some, [], ◌∷◌, list_eqb, list_eqb→eq,
  list_eqb_refl, Bool-cases, if◌then◌else◌,
}
use dlcdevkit.Manager.Contract.{ContractId, Hashes, Contract, get_id}
use dlcdevkit.Manager.Monitor.Maps.{lookup, insert, lookup-insert}
use dlcdevkit.Manager.Store.{Contracts, delete_contract}

pub apart_eqb : (a b : ContractId) → a ≢ b → list_eqb a b ≡ false
apart_eqb a b ne = elim (Bool-cases (list_eqb a b)) [
  | inl same ↦ absurd (ne (list_eqb→eq a b same))
  | inr differs ↦ differs
]

pub lookup-delete :
    (k j : ContractId) (m : Contracts)
    → lookup list_eqb k (delete_contract m j) ≡ (if list_eqb k j then none else lookup list_eqb k m)
unfolding delete_contract
lookup-delete k j [] = elim (Bool-cases (list_eqb k j)) [ inl e ↦ rw e refl | inr e ↦ rw e refl ]
lookup-delete k j ((i, c) ∷ m) = elim (Bool-cases (list_eqb j i)) [
  | inl at ↦
      let e : list_eqb k j ≡ list_eqb k i = ap (list_eqb k) (list_eqb→eq j i at) in
      elim (Bool-cases (list_eqb k i)) [
        | inl here ↦ rw (at, here) (lookup-delete k j m ∙ rw (e, here) refl)
        | inr past ↦ rw (at, past) (lookup-delete k j m ∙ rw (e, past) refl)
      ]
  | inr other ↦ elim (Bool-cases (list_eqb k i)) [
    | inl here ↦
        let apart : list_eqb k j ≡ false = differs k i j here other in rw (other, here, apart) refl
    | inr past ↦ rw (other, past) (lookup-delete k j m)
  ]
]
  where
    differs :
        (k i j : ContractId) → list_eqb k i ≡ true → list_eqb j i ≡ false → list_eqb k j ≡ false
    differs k i j here other =
        apart_eqb k j λ e. cc (rw (← list_eqb→eq k i here, e) at other, list_eqb_refl j)

module _ (h : Hashes) where
  -- Each contract stands under its id, once.
  abbrev pub IsKeyed : Contracts → Type 0
  IsKeyed [] = Unit {0}
  IsKeyed ((k, c) ∷ m) = (get_id h c ≡ k) × (lookup list_eqb k m ≡ none) × IsKeyed m

  pub insert-IsKeyed :
      (c : Contract) (m : Contracts) → IsKeyed m → IsKeyed (insert list_eqb (get_id h c) c m)
  unfolding insert
  insert-IsKeyed c [] keyed = (refl, refl, tt)
  insert-IsKeyed c ((k, d) ∷ m) (own, once, keyed) = elim (Bool-cases (list_eqb (get_id h c) k)) [
    | inl same ↦ rw same (list_eqb→eq _ _ same, once, keyed)
    | inr differs ↦ rw differs (
      own,
      lookup-insert list_eqb list_eqb→eq list_eqb_refl k (get_id h c) c m
          ∙ rw (apart_eqb k (get_id h c) (λ e. cc (rw e at differs, list_eqb_refl (get_id h c))))
              once,
      insert-IsKeyed c m keyed,
    )
  ]

  pub delete-IsKeyed :
      (id : ContractId) (m : Contracts) → IsKeyed m → IsKeyed (delete_contract m id)
  unfolding delete_contract
  delete-IsKeyed id [] keyed = tt
  delete-IsKeyed id ((k, d) ∷ m) (own, once, keyed) = elim (Bool-cases (list_eqb id k)) [
    | inl same ↦ rw same (delete-IsKeyed id m keyed)
    | inr differs ↦ rw differs (own, gone k id m once, delete-IsKeyed id m keyed)
  ]
    where
      gone :
          (k id : ContractId) (m : Contracts)
          → lookup list_eqb k m ≡ none
          → lookup list_eqb k (delete_contract m id) ≡ none
      gone k id m once =
          lookup-delete k id m
          ∙ (elim (Bool-cases (list_eqb k id)) [ inl e ↦ rw e refl | inr e ↦ rw (e, once) refl ])

  -- What is found under an id has that id.
  pub found-IsKeyed :
      (id : ContractId) (c : Contract) (m : Contracts)
      → IsKeyed m
      → lookup list_eqb id m ≡ some c
      → get_id h c ≡ id
  found-IsKeyed id c [] keyed found = cc
  found-IsKeyed id c ((k, d) ∷ m) (own, once, keyed) found = elim (Bool-cases (list_eqb id k)) [
    | inl same ↦
        let e : d ≡ c = cc (rw same at found) in rw (← e) (own ∙ sym (list_eqb→eq id k same))
    | inr differs ↦ found-IsKeyed id c m keyed (rw differs at found)
  ]
