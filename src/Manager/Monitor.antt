-- ===== src/Manager/Monitor.antt =====
-- ddk-manager/src/chain_monitor.rs: the transactions and outputs that are watched for. A hash map is a
-- list of keys and values with each key once; what comes out of it in order comes in an order that the
-- code does not rely on.
pub mod Maps
pub mod Blocks
use dlcdevkit.Base.Word.{u64_mod}
use dlcdevkit.Base.{
  ◌%◌, ℕ, ◌+◌, Bool, true, false, not, ◌&&◌, Option, none, some, List, [], ◌∷◌, ◌++◌, ◌==◌,
  if◌then◌else◌, list_eqb,
}
use dlcdevkit.Base.Outcome.{Partial, ok, panicked, assert, ◌>>=◌, ◌>>◌}
use dlcdevkit.Dlc.Types.{Txid, OutPoint, TxIn, Transaction, Bitcoin}
use dlcdevkit.Manager.Monitor.Maps.{insert, remove, adjust, retain_values, values}

pub data RevokedTxType : Type 0 where
  buffer settle : RevokedTxType

pub record Revoked : Type 0 where
  pub update_idx : ℕ
  pub own_adaptor_signature : List ℕ
  pub is_offer : Bool
  pub revoked_tx_type : RevokedTxType

pub data TxType : Type 0 where
  revoked : Revoked → TxType
  buffer_tx collaborative_close settle_tx cet : TxType

pub record ChannelInfo : Type 0 where
  pub channel_id : List ℕ
  pub tx_type : TxType

pub data WatchState : Type 0 where
  registered : ChannelInfo → WatchState
  confirmed : ChannelInfo → Transaction → WatchState

pub record ChainMonitor : Type 0 where
  pub watched_tx : List (Txid × WatchState)
  pub watched_txo : List (OutPoint × WatchState)
  pub last_height : ℕ

abbrev pub out_point_eqb : OutPoint → OutPoint → Bool
out_point_eqb a b = (a.txid == b.txid) && (a.vout == b.vout)

unfoldable pub confirm : Transaction → WatchState → WatchState
confirm tx (registered info) = confirmed info tx
confirm tx (confirmed info first) = confirmed info first

unfoldable pub channel_info : WatchState → ChannelInfo
channel_info (registered info) = info
channel_info (confirmed info tx) = info

abbrev pub state_channel_id : WatchState → List ℕ
state_channel_id s = (channel_info s).channel_id

unfoldable pub new_monitor : ℕ → ChainMonitor
new_monitor init_height = record { watched_tx = []; watched_txo = []; last_height = init_height }

unfoldable pub is_empty : ChainMonitor → Bool
is_empty m = elim m.watched_tx [ [] ↦ true | x ∷ xs ↦ false ]

unfoldable pub add_txo : ChainMonitor → OutPoint → ChannelInfo → ChainMonitor
add_txo m outpoint info = record m {
  watched_txo = insert out_point_eqb outpoint (registered info) m.watched_txo;
}

unfoldable pub watch_tx : ChainMonitor → Txid → ChannelInfo → ChainMonitor
watch_tx m txid info = record m { watched_tx = insert ◌==◌ txid (registered info) m.watched_tx }

-- With a buffer transaction its output is watched, for the CET that spends it.
abbrev pub watch_output : ChainMonitor → Txid → List ℕ → TxType → ChainMonitor
watch_output m txid channel_id buffer_tx =
    add_txo m (record { txid = txid; vout = 0 }) (record { channel_id = channel_id; tx_type = cet })
watch_output m txid channel_id (revoked r) = m
watch_output m txid channel_id collaborative_close = m
watch_output m txid channel_id settle_tx = m
watch_output m txid channel_id cet = m

unfoldable pub add_tx : ChainMonitor → Txid → ChannelInfo → ChainMonitor
add_tx m txid info = watch_output (watch_tx m txid info) txid info.channel_id info.tx_type

unfoldable pub cleanup_channel : ChainMonitor → List ℕ → ChainMonitor
cleanup_channel m channel_id = record m {
  watched_tx = retain_values (λ s. not (list_eqb (state_channel_id s) channel_id)) m.watched_tx;
  watched_txo = retain_values (λ s. not (list_eqb (state_channel_id s) channel_id)) m.watched_txo;
}

unfoldable pub remove_tx : ChainMonitor → Txid → ChainMonitor
remove_tx m txid = record m { watched_tx = remove ◌==◌ txid m.watched_tx }

-- The loop over the inputs of a transaction.
unfoldable pub confirm_inputs :
    Transaction → List TxIn → List (OutPoint × WatchState) → List (OutPoint × WatchState)
confirm_inputs tx [] txo = txo
confirm_inputs tx (i ∷ is) txo =
    confirm_inputs tx is (adjust out_point_eqb i.previous_output (confirm tx) txo)

-- The loop over the transactions of a block: what it does to each of the two maps.
unfoldable pub confirm_txs :
    Bitcoin → List Transaction → List (Txid × WatchState) → List (Txid × WatchState)
confirm_txs b [] watched = watched
confirm_txs b (tx ∷ txs) watched =
    confirm_txs b txs (adjust ◌==◌ (b.compute_txid tx) (confirm tx) watched)

unfoldable pub confirm_txos :
    List Transaction → List (OutPoint × WatchState) → List (OutPoint × WatchState)
confirm_txos [] watched = watched
confirm_txos (tx ∷ txs) watched = confirm_txos txs (confirm_inputs tx tx.input watched)

-- The height is one of 64 bits, which wraps in a release build.
unfoldable pub process_block : Bitcoin → ChainMonitor → List Transaction → ℕ → Partial ChainMonitor
process_block b m block height = do
  assert (((m.last_height + 1) % u64_mod) == height)
  ok (record {
    watched_tx = confirm_txs b block m.watched_tx;
    watched_txo = confirm_txos block m.watched_txo;
    last_height = (m.last_height + 1) % u64_mod;
  })

abbrev pub confirmed_in : List WatchState → List (Transaction × ChannelInfo)
confirmed_in [] = []
confirmed_in (registered info ∷ states) = confirmed_in states
confirmed_in (confirmed info tx ∷ states) = (tx, info) ∷ confirmed_in states

unfoldable pub confirmed_txs : ChainMonitor → List (Transaction × ChannelInfo)
confirmed_txs m = confirmed_in (values m.watched_tx ++ values m.watched_txo)
