-- ===== src/Manager/Monitor/Blocks.antt =====
-- What a block does to the transactions and outputs that are watched for.
use dlcdevkit.Base.Word.{u64_mod}
use dlcdevkit.Base.{
  ◌%◌, ℕ, ◌+◌, ◌≡◌, ◌≢◌, refl, ap, ◌∙◌, ◌⊎◌, inl, inr, arith, Bool, true, false, ◌||◌, Option, none,
  some, List, [], ◌∷◌, ◌==◌, Bool-cases, if◌then◌else◌,
}
use dlcdevkit.Base.Outcome.{ok, panicked}
use dlcdevkit.Dlc.Types.{Txid, OutPoint, TxIn, Transaction, Bitcoin}
use dlcdevkit.Manager.Monitor.Maps.{lookup, adjust, map_option, lookup-adjust}
use dlcdevkit.Manager.Monitor.{
  WatchState, registered, confirmed, ChainMonitor, out_point_eqb, confirm, confirm_inputs,
  confirm_txs, confirm_txos, process_block,
}

-- The first transaction that a test holds of.
abbrev pub find : (Transaction → Bool) → List Transaction → Option Transaction
find p [] = none
find p (tx ∷ txs) = let rest = find p txs in if p tx then some tx else rest

-- Whether a transaction spends an output.
abbrev pub spends : OutPoint → List TxIn → Bool
spends o [] = false
spends o (i ∷ is) = out_point_eqb o i.previous_output || spends o is

-- The state of what was looked for, once it is seen.
abbrev pub seen : Option Transaction → Option WatchState → Option WatchState
seen none s = s
seen (some tx) s = map_option (confirm tx) s

-- What is confirmed stays with the transaction that confirmed it first.
seen_once :
    (tx : Transaction) (next : Option Transaction) (s : Option WatchState)
    → seen next (map_option (confirm tx) s) ≡ map_option (confirm tx) s
unfolding confirm
seen_once tx none s = refl
seen_once tx (some t) none = refl
seen_once tx (some t) (some (registered i)) = refl
seen_once tx (some t) (some (confirmed i u)) = refl

pub same_txid : (a b : ℕ) → (a == b) ≡ true → a ≡ b
same_txid a b h = ground arith

pub same_out_point : (a b : OutPoint) → out_point_eqb a b ≡ true → a ≡ b
same_out_point a b h = cc (both.0, both.1)
  where
    both : (a.txid ≡ b.txid) × (a.vout ≡ b.vout)
    both = ground (arith, h)

-- The state of a transaction once a step has been taken before the rest.
seen_step :
    (here : Bool) (tx : Transaction) (next : Option Transaction) (s : Option WatchState)
    → seen next (if here then map_option (confirm tx) s else s)
      ≡ seen (if here then some tx else next) s
seen_step true tx next s = seen_once tx next s
seen_step false tx next s = refl

lookup-confirm_txs :
    (b : Bitcoin) (t : ℕ) (block : List Transaction) (m : List (Txid × WatchState))
    → lookup ◌==◌ t (confirm_txs b block m)
      ≡ seen (find (λ tx. t == b.compute_txid tx) block) (lookup ◌==◌ t m)
unfolding confirm_txs
lookup-confirm_txs b t [] m = refl
lookup-confirm_txs b t (tx ∷ txs) m =
    lookup-confirm_txs b t txs (adjust ◌==◌ (b.compute_txid tx) (confirm tx) m)
    ∙ ap (seen (find (λ tx. t == b.compute_txid tx) txs))
        (lookup-adjust ◌==◌ same_txid t (b.compute_txid tx) (confirm tx) m)
    ∙ seen_step (t == b.compute_txid tx) tx (find (λ tx. t == b.compute_txid tx) txs)
        (lookup ◌==◌ t m)

again :
    (here later : Bool) (tx : Transaction) (s : Option WatchState)
    → (if later
        then map_option (confirm tx) (if here then map_option (confirm tx) s else s)
        else (if here then map_option (confirm tx) s else s))
      ≡ (if here || later then map_option (confirm tx) s else s)
again true true tx s = seen_once tx (some tx) s
again true false tx s = refl
again false true tx s = refl
again false false tx s = refl

lookup-confirm_inputs :
    (o : OutPoint) (tx : Transaction) (is : List TxIn) (m : List (OutPoint × WatchState))
    → lookup out_point_eqb o (confirm_inputs tx is m) ≡ (
        if spends o is
        then map_option (confirm tx) (lookup out_point_eqb o m)
        else lookup out_point_eqb o m)
unfolding confirm_inputs
lookup-confirm_inputs o tx [] m = refl
lookup-confirm_inputs o tx (i ∷ is) m =
    lookup-confirm_inputs o tx is (adjust out_point_eqb i.previous_output (confirm tx) m)
    ∙ ap (λ (s : Option WatchState). if spends o is then map_option (confirm tx) s else s)
        (lookup-adjust out_point_eqb same_out_point o i.previous_output (confirm tx) m)
    ∙ again (out_point_eqb o i.previous_output) (spends o is) tx (lookup out_point_eqb o m)

lookup-confirm_txos :
    (o : OutPoint) (block : List Transaction) (m : List (OutPoint × WatchState))
    → lookup out_point_eqb o (confirm_txos block m)
      ≡ seen (find (λ tx. spends o tx.input) block) (lookup out_point_eqb o m)
unfolding confirm_txos
lookup-confirm_txos o [] m = refl
lookup-confirm_txos o (tx ∷ txs) m =
    lookup-confirm_txos o txs (confirm_inputs tx tx.input m)
    ∙ ap (seen (find (λ tx. spends o tx.input) txs)) (lookup-confirm_inputs o tx tx.input m)
    ∙ seen_step (spends o tx.input) tx (find (λ tx. spends o tx.input) txs)
        (lookup out_point_eqb o m)

-- The next block is always taken in: a watched transaction is then confirmed by the first transaction of
-- the block with its id, a watched output by the first one that spends it, unless a transaction confirmed
-- it before; what is not in the block does not change, and the height is that of the block. A block at any
-- other height panics. Heights wrap at 64 bits.
pub process_block-confirms :
    (b : Bitcoin) (m : ChainMonitor) (block : List Transaction) (height : ℕ) (t : Txid)
    (o : OutPoint)
    → ((height ≢ (m.last_height + 1) % u64_mod) × (process_block b m block height ≡ panicked))
      ⊎ ((m' : ChainMonitor) × (process_block b m block height ≡ ok m')
          × (height ≡ m'.last_height)
          × (lookup ◌==◌ t m'.watched_tx
              ≡ seen (find (λ tx. t == b.compute_txid tx) block) (lookup ◌==◌ t m.watched_tx))
          × (lookup out_point_eqb o m'.watched_txo
              ≡ seen (find (λ tx. spends o tx.input) block) (lookup out_point_eqb o m.watched_txo)))
unfolding process_block
process_block-confirms b m block height t o =
    elim (Bool-cases (((m.last_height + 1) % u64_mod) == height)) [
      | inl next ↦ inr (
        record {
          watched_tx = confirm_txs b block m.watched_tx;
          watched_txo = confirm_txos block m.watched_txo;
          last_height = (m.last_height + 1) % u64_mod;
        },
        rw next,
        ground arith,
        lookup-confirm_txs b t block m.watched_tx,
        lookup-confirm_txos o block m.watched_txo,
      )
      | inr other ↦ inl (ground arith, rw other)
    ]
