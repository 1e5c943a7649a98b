-- ===== src/Ledger.antt =====
-- The chain state that blocks and transactions change: the indexes of the database that
-- blockchain/blockchain.go and blockchain/staking.go read and write, and the statistics, which a call
-- is given by pointer. An index holds its values decoded. An error leaves what was written before it:
-- undoing that is the database transaction's work, in the caller.
pub mod Stakes
pub mod Rewards
pub mod Outputs
pub mod Apply
pub mod Remove
pub mod Coins
pub mod Backing
pub mod Frame
pub mod Blocks
pub mod Supply
use virel_blockchain.Base.{
  ℕ, ◌+◌, ◌*◌, ◌^◌, ◌≡◌, Bool, true, false, Option, none, some, List, [], ◌∷◌, Result, ok, err,
  panic, Action, ◌>>=◌, ◌>>◌, pure, fail, crash, modify, gets, fail_if, or_fail, or_crash, lift,
}
use virel_blockchain.Base.Dict.{Dict, lookup, insert, erase}
use virel_blockchain.Uint128.{Uint128}
use virel_blockchain.Transaction.{Transaction}
use virel_blockchain.Block.{Block}
use virel_blockchain.Chaintype.{State, empty_state, Delegate}
use virel_blockchain.Stats
use virel_blockchain.Stats.{Stats, Mempool}

-- What the index Tx holds: the height of the block that includes the transaction, or zero, and the
-- transaction, decoded. The bytes of an entry, and the form in which GetTx decodes them for a height, are
-- Transaction/Codec/Store; what is proved of this ledger is for any transactions in the entries.
pub record TxEntry : Type 0 where
  pub height : ℕ
  pub tx : Transaction

pub record Ledger : Type 0 where
  pub states : Dict State
  pub delegates : Dict Delegate
  pub delegate_history : Dict Delegate
  pub txs : Dict TxEntry
  pub blocks : Dict Block
  pub topo : Dict ℕ
  pub in_txs : Dict ℕ
  pub out_txs : Dict ℕ
  pub mempool : Mempool
  pub stats : Stats
  pub sync_height : ℕ
  pub sync_diff : Uint128

-- The errors, one for each message.
pub data Error : Type 0 where
  unknown_state unknown_delegate unknown_transaction : Error
  bad_nonce zero_nonce zero_delegate_id delegate_mismatch : Error
  bad_prev_unlock amount_overflow stats_overflow stats_underflow : Error
  funds_locked unstake_exceeds_fund nothing_to_unstake : Error
  delegate_registered bad_previous_delegate funds_not_unstaked delegate_not_found : Error
  spends_too_much balance_overflow balance_too_small no_incoming : Error
  no_funds no_stake added_too_much staking_mismatch history_mismatch unknown_history : Error
  has_active_funds bad_current_delegate : Error
  bad_next_delegate no_staker fee_overflow reward_overflow : Error
  no_difficulty bad_difficulty bad_height bad_timestamp bad_cumulative_diff : Error
  bad_subsequent_block no_common_block side_block_included : Error
  bad_delegate nothing_at_stake bad_stake_signature : Error
  unknown_block duplicate_block orphan_block out_of_fuel : Error

abbrev pub Do {ℓ} : Type ℓ → Type ℓ
Do = Action Ledger Error

-- GetState reports an absent address as an error.
unfoldable pub get_state : ℕ → Do State
get_state addr = do or_fail (← gets (λ s. lookup addr s.states)) unknown_state

unfoldable pub set_state : ℕ → State → Do (Unit {0})
set_state addr st = modify (λ s. record s { states = insert addr st s.states })

unfoldable pub get_delegate : ℕ → Do Delegate
get_delegate id = do or_fail (← gets (λ s. lookup id s.delegates)) unknown_delegate

-- SetDelegate writes under the delegate's own identifier. It neither sorts nor checks the funds.
unfoldable pub set_delegate : Delegate → Do (Unit {0})
set_delegate d = modify (λ s. record s { delegates = insert d.id d s.delegates })

unfoldable pub remove_delegate : ℕ → Do (Unit {0})
remove_delegate id = modify (λ s. record s { delegates = erase id s.delegates })

unfoldable pub get_delegate_history : ℕ → Do Delegate
get_delegate_history hash = do
  or_fail (← gets (λ s. lookup hash s.delegate_history)) unknown_history

unfoldable pub set_delegate_history : ℕ → Delegate → Do (Unit {0})
set_delegate_history hash d =
    modify (λ s. record s { delegate_history = insert hash d s.delegate_history })

-- The key is the address followed by the number, which is below 2 ^ 64.
abbrev pub topo_key : ℕ → ℕ → ℕ
topo_key addr n = addr * 2 ^ 64 + n

unfoldable pub set_tx_topo_inc : ℕ → ℕ → ℕ → Do (Unit {0})
set_tx_topo_inc txid addr n =
    modify (λ s. record s { in_txs = insert (topo_key addr n) txid s.in_txs })

unfoldable pub set_tx_topo_out : ℕ → ℕ → ℕ → Do (Unit {0})
set_tx_topo_out txid addr n =
    modify (λ s. record s { out_txs = insert (topo_key addr n) txid s.out_txs })

unfoldable pub get_tx : ℕ → Do Transaction
get_tx txid = do
  e ← (gets (λ s. lookup txid s.txs) >>= λ o. or_fail o unknown_transaction)
  pure (e.tx)

unfoldable pub set_tx_height : ℕ → ℕ → Do (Unit {0})
set_tx_height txid height = do
  e ← (gets (λ s. lookup txid s.txs) >>= λ o. or_fail o unknown_transaction)
  modify (λ s. record s { txs = insert txid (record e { height = height }) s.txs })

-- `stats.Staked` and `stats.Unstaked` on the statistics at hand.
unfoldable pub stats_staked : ℕ → Do (Unit {0})
stats_staked amount = do
  st ← (gets (λ s. Stats.staked s.stats amount) >>= λ o. or_fail o stats_overflow)
  modify (λ s. record s { stats = st })

unfoldable pub stats_unstaked : ℕ → Do (Unit {0})
stats_unstaked amount = do
  st ← (gets (λ s. Stats.unstaked s.stats amount) >>= λ o. or_fail o stats_underflow)
  modify (λ s. record s { stats = st })

-- A call whose error the caller drops; a panic is not dropped.
abbrev dropped : Result Error (Unit {0}) → Result Error (Unit {0})
dropped panic = panic
dropped (ok _) = ok tt
dropped (err _) = ok tt

unfoldable pub drop_error : Do (Unit {0}) → Do (Unit {0})
drop_error m s = let (r, s') = m s in (dropped r, s')

-- Two ledgers with the same account states and the same transactions.
pub record IsSame (s t : Ledger) : Type 0 where
  pub states_same : t.states ≡ s.states
  pub txs_same : t.txs ≡ s.txs
