-- ===== src/Manager/Diagram/Checked.antt =====
-- The whole check of a confirmed contract, and the closing that the application asks for.
use dlcdevkit.Base.{◌≡◌, ◌⊎◌, some, List, Has}
use dlcdevkit.Dlc.Types.{Transaction}
use dlcdevkit.Manager.Contract.{ContractId, SignedContract, confirmed}
use dlcdevkit.Manager.Store.{get_contract}
use dlcdevkit.Manager.Store.Slots.{IsKeyed}
use dlcdevkit.Manager.Environment.{Environment, State, ◌>>=◌, ◌>>◌}
use dlcdevkit.Manager.Closing.{refund_of}
use dlcdevkit.Manager.Diagram.{IsMined, Follows}

module _ (env : Environment) (s : State) (keyed : IsKeyed env.hashes s.contracts) (id : ContractId)
    (c : SignedContract) (found : get_contract s.contracts id ≡ some (confirmed c)) where
  -- What the loop over the closing transactions does: steps, and none unless one of them is mined.
  abbrev IsChecked : List Transaction → State → Type 0
  IsChecked txs t =
      Follows env s t
      × ((t.contracts ≡ s.contracts) ⊎ ((tx : Transaction) × Has tx txs × IsMined env tx))

  abbrev pending : List Transaction
  pending = c.accepted_contract.dlc_transactions.pending_close_txs

  -- A refund and a closing transaction spend the same output: not both are in blocks.
  abbrev pub IsExclusive : Type 0
  IsExclusive =
      (tx : Transaction)
      → Has tx c.accepted_contract.dlc_transactions.pending_close_txs
      → IsMined env tx
      → IsMined env (refund_of c)
      → ⊥
