-- ===== src/Ledger/Blocks.antt =====
-- ApplyBlockToState and RemoveBlockFromState of blockchain/blockchain.go.
use virel_blockchain.Base.{
  ℕ, ◌+◌, Bool, true, false, not, Option, none, some, List, [], ◌∷◌, ◌++◌, Result, ok, err, panic,
  ◌>>=◌, ◌>>◌, lift, modify, fail_if, or_crash, pure, gets, ltb, ◌==◌, if◌then◌else◌, add64,
}
use virel_blockchain.Base.Dict.{Dict, insert}
use virel_blockchain.Uint128
use virel_blockchain.Uint128.{Comparison, less, same, greater}
use virel_blockchain.Chaintype.{Delegate}
use virel_blockchain.Transaction.{Transaction, StateOutput, Output}
use virel_blockchain.Transaction.Amounts.{state_inputs, state_outputs, get_virtual_size}
use virel_blockchain.Block.{Block, prev_hash}
use virel_blockchain.Coinbase.{CoinbaseOutput, coinbase_transaction}
use virel_blockchain.Emission.{reward}
use virel_blockchain.Stats
use virel_blockchain.Stats.{Mempool, MempoolEntry}
use virel_blockchain.Staking.{get_staker}
use virel_blockchain.Ledger.{
  Do, Error, bad_next_delegate, no_staker, fee_overflow, reward_overflow, get_tx,
}
use virel_blockchain.Ledger.Apply.{apply_tx_to_state}
use virel_blockchain.Ledger.Remove.{remove_tx_from_state}
use virel_blockchain.Ledger.Outputs.{apply_tx_outputs_to_state, remove_tx_outputs_from_state}

-- What the code does not compute itself: the hash of a public key, the configured genesis address, the
-- order in which the database lists the delegates, and the clock (in seconds).
pub record Environment : Type 0 where
  pub from_pub_key : ℕ → ℕ
  pub genesis_address : ℕ
  pub list_delegates : Dict Delegate → List Delegate
  pub now : ℕ

abbrev staker_result : Result (Unit {0}) Delegate → Result Error Delegate
staker_result (ok d) = ok d
staker_result (err e) = err no_staker
staker_result panic = panic

unfoldable pub chosen_staker : Environment → Block → Do Delegate
chosen_staker env bl = do
  staker ←
      gets (λ s. get_staker (prev_hash bl) s.stats.staked_amount (env.list_delegates s.delegates))
  lift (staker_result staker)

-- From version 1 on a block names the delegate of the next block.
unfoldable pub check_next_delegate : Environment → Block → Do (Unit {0})
check_next_delegate env bl =
    if ltb 0 bl.version
    then (chosen_staker env bl >>= λ staker.
        fail_if (not (staker.id == bl.next_delegate_id)) bad_next_delegate)
    else pure tt

unfoldable pub delete_entries : List ℕ → Mempool → Mempool
delete_entries [] pool = pool
delete_entries (t ∷ ts) pool = delete_entries ts (Stats.delete_entry t pool)

-- SetMempool writes what has not expired.
unfoldable pub set_mempool : Environment → Mempool → Do (Unit {0})
set_mempool env pool = modify (λ s. record s { mempool = Stats.drop_expired env.now pool })

-- The loop over the transactions; the result is the sum of the fees.
unfoldable pub apply_transactions : Environment → (height blockhash total_fee : ℕ) → List ℕ → Do ℕ
apply_transactions env height blockhash total_fee [] = pure total_fee
apply_transactions env height blockhash total_fee (v ∷ vs) = do
  tx ← get_tx v
  apply_tx_to_state env.from_pub_key tx (env.from_pub_key tx.signer) height blockhash v
  fail_if (ltb (add64 total_fee tx.fee) total_fee) fee_overflow
  apply_transactions env height blockhash (add64 total_fee tx.fee) vs

abbrev pub coinbase_state_output : CoinbaseOutput → StateOutput
coinbase_state_output v = record {
  kind = v.kind;
  amount = v.amount;
  recipient = v.recipient;
  payment_id = 0;
  extra_data = v.delegate_id;
}

unfoldable pub coinbase_state_outputs : List CoinbaseOutput → List StateOutput
coinbase_state_outputs [] = []
coinbase_state_outputs (v ∷ vs) = coinbase_state_output v ∷ coinbase_state_outputs vs

-- The coinbase transaction, which pays the reward of the height and the fees.
unfoldable pub apply_coinbase : Environment → Block → (blockhash total_fee : ℕ) → Do (Unit {0})
apply_coinbase env bl blockhash total_fee = do
  fail_if (ltb (add64 (reward bl.height) total_fee) (reward bl.height)) reward_overflow
  outs ← or_crash (coinbase_transaction env.genesis_address bl (add64 (reward bl.height) total_fee))
  apply_tx_outputs_to_state env.from_pub_key blockhash blockhash (coinbase_state_outputs outs)

abbrev is_less : Comparison → Bool
is_less less = true
is_less same = false
is_less greater = false

unfoldable pub update_sync : Block → Do (Unit {0})
update_sync bl = modify (λ s.
    if is_less (Uint128.cmp s.sync_diff bl.cumulative_diff)
    then record s { sync_height = bl.height; sync_diff = bl.cumulative_diff }
    else s)

unfoldable pub apply_block_to_state : Environment → Block → (blockhash : ℕ) → Do (Unit {0})
apply_block_to_state env bl blockhash = do
  check_next_delegate env bl
  pool ← gets (λ s. delete_entries bl.transactions s.mempool)
  set_mempool env pool
  total_fee ← apply_transactions env bl.height blockhash 0 bl.transactions
  apply_coinbase env bl blockhash total_fee
  update_sync bl

-- insertBlockMain: the block under its hash, and the hash at its height.
unfoldable pub insert_block_main : Block → (hash : ℕ) → Do (Unit {0})
insert_block_main bl hash =
    modify (λ s. record s { blocks = insert hash bl s.blocks; topo = insert bl.height hash s.topo })

-- addMainchainBlock, for a block on top of the main chain.
unfoldable pub add_mainchain_block : Environment → Block → (hash : ℕ) → Do (Unit {0})
add_mainchain_block env bl hash = do
  apply_block_to_state env bl hash
  stats ← gets (λ s. s.stats)
  modify (λ s. record s {
    stats = record stats {
      top_hash = hash;
      top_height = bl.height;
      cumulative_diff = bl.cumulative_diff;
    };
  })
  insert_block_main bl hash

-- A transaction that goes back to the mempool.
abbrev plain_output : StateOutput → Output
plain_output v = record { recipient = v.recipient; payment_id = v.payment_id; amount = v.amount }

plain_outputs : List StateOutput → List Output
plain_outputs [] = []
plain_outputs (v ∷ vs) = plain_output v ∷ plain_outputs vs

-- MEMPOOL_EXPIRATION is two hours.
abbrev mempool_expiration : ℕ
mempool_expiration = 7200

unfoldable pub mempool_entry :
    Environment → Transaction → (txid : ℕ) → List StateOutput → MempoolEntry
unfolding plain_outputs
mempool_entry env tx txid outs = record {
  txid = txid;
  tx_version = tx.version;
  size = get_virtual_size tx;
  fee = tx.fee;
  expires = env.now + mempool_expiration;
  signer = env.from_pub_key tx.signer;
  inputs = state_inputs env.from_pub_key tx.body tx (env.from_pub_key tx.signer);
  outputs = plain_outputs outs;
}

-- An entry for the transaction, unless the pool has one.
unfoldable pub with_entry :
    Environment → (txid : ℕ) → Transaction → Mempool → Option MempoolEntry → Do Mempool
with_entry env txid tx pool (some old) = pure pool
with_entry env txid tx pool none = do
  outs ← or_crash (state_outputs tx.body tx (env.from_pub_key tx.signer))
  pure (pool ++ mempool_entry env tx txid outs ∷ [])

-- The first loop of RemoveBlockFromState: the transactions, the sum of their fees and the new pool.
unfoldable pub collect_transactions :
    Environment → List ℕ → (total_fee : ℕ) → Mempool → Do (List (ℕ × Transaction) × ℕ × Mempool)
collect_transactions env [] total_fee pool = pure ([], total_fee, pool)
collect_transactions env (v ∷ vs) total_fee pool = do
  tx ← get_tx v
  pool' ← with_entry env v tx pool (Stats.get_entry v pool)
  (txs, fee, pool'') ← collect_transactions env vs (add64 total_fee tx.fee) pool'
  pure ((v, tx) ∷ txs, fee, pool'')

-- The transactions are undone last to first.
unfoldable pub remove_transactions :
    Environment → (blockhash : ℕ) → List (ℕ × Transaction) → Do (Unit {0})
remove_transactions env blockhash [] = pure tt
remove_transactions env blockhash ((txid, tx) ∷ txs) = do
  remove_transactions env blockhash txs
  remove_tx_from_state env.from_pub_key tx (env.from_pub_key tx.signer) blockhash txid

unfoldable pub write_pool : Environment → Mempool → (transactions : List ℕ) → Do (Unit {0})
write_pool env pool [] = pure tt
write_pool env pool (v ∷ vs) = set_mempool env pool

-- The mempool is written only if the block has transactions. The coinbase is undone after them.
unfoldable pub remove_block_from_state : Environment → Block → (blockhash : ℕ) → Do (Unit {0})
remove_block_from_state env bl blockhash = do
  pool ← gets (λ s. s.mempool)
  (txs, total_fee, pool') ← collect_transactions env bl.transactions 0 pool
  write_pool env pool' bl.transactions
  remove_transactions env blockhash txs
  fail_if (ltb (add64 (reward bl.height) total_fee) (reward bl.height)) reward_overflow
  outs ← or_crash (coinbase_transaction env.genesis_address bl (add64 (reward bl.height) total_fee))
  remove_tx_outputs_from_state blockhash (coinbase_state_outputs outs)
