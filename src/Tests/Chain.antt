-- ===== src/Tests/Chain.antt =====
-- A chain of two blocks, the second with a transfer.
use virel_blockchain.Base.{
  ℕ, subst, Bool, true, false, ◌+◌, ◌≡◌, ◌≤◌, refl, none, some, ok, arith, ◌==◌, if◌then◌else◌,
}
use virel_blockchain.Config.{max_supply}
use virel_blockchain.Transaction.{Transaction}
use virel_blockchain.Ledger.Blocks.{
  apply_block_to_state, check_next_delegate, set_mempool, delete_entries, apply_transactions,
  apply_coinbase, update_sync, coinbase_state_outputs, add_mainchain_block, insert_block_main,
}
use virel_blockchain.Coinbase.{coinbase_transaction, coinbase_at}
use virel_blockchain.Ledger.Outputs.{apply_tx_outputs_to_state, apply_output}
use virel_blockchain.Ledger.{
  set_tx_topo_inc, set_state, get_state, get_tx, drop_error, set_tx_topo_out, set_tx_height,
}
use virel_blockchain.Base.{safe_add}
use virel_blockchain.Emission.{reward, reduce}
use virel_blockchain.Uint128.{cmp}
use virel_blockchain.Stats.{drop_expired, delete_entry}
use virel_blockchain.Ledger.Apply.{
  apply_tx_to_state, version_steps, stake_at_version, unstake_at_version, register_at_version,
  set_delegate_at_version, finish_tx, apply_inputs, apply_input,
}
use virel_blockchain.Transaction.Amounts.{state_inputs, state_outputs, transfer_outputs, sum_loop}
use virel_blockchain.Ledger.Supply.{
  MainChain, genesis, extend, get_supply, get_supply-get_supply_at_height,
}
use virel_blockchain.Ledger.Coins.{coins}
use virel_blockchain.Ledger.Coins.Stored.{IsPayable, entry_tx}
use virel_blockchain.Ledger.Coins.Blocks.{AllPayable, apply_block_to_state-coins}
use virel_blockchain.Ledger.Coins.Transactions.{apply_tx_to_state-coins}
use virel_blockchain.Emission.{get_supply_at_height}
use virel_blockchain.Transaction.Amounts
use virel_blockchain.Transaction.Balance.{IsWordTransaction}
use virel_blockchain.Tests.Data.{
  env, key_hash, empty_ledger, genesis_block, after_genesis, payment, with_payment, second_block,
  after_second,
}

empty_ledger-AllPayable : AllPayable empty_ledger
empty_ledger-AllPayable k tx e = cc

payment_total : Amounts.total_amount payment ≡ some 6_000_000_000
unfolding Amounts.total_amount Amounts.data_total_amount sum_loop
payment_total = refl

payment_words : IsWordTransaction payment
payment_words = record { body_words = (omega arith, tt); fee_word = omega arith }

payment-IsPayable : IsPayable payment
payment-IsPayable = record {
  words = payment_words;
  total = 6_000_000_000;
  computed = payment_total;
}

payment_stored :
    (k : ℕ) (tx : Transaction) (b : Bool)
    → entry_tx (if b then some (record { height = 0; tx = payment }) else none) ≡ some tx
    → payment ≡ tx
payment_stored k tx true e = cc
payment_stored k tx false e = cc

with_payment-AllPayable : AllPayable with_payment
with_payment-AllPayable k tx e = subst IsPayable (payment_stored k tx (k == 77) e) payment-IsPayable

-- Both blocks are applied, and the payment is.
runs :
    (apply_block_to_state env genesis_block 11 empty_ledger ≡ (ok tt, after_genesis))
    × (add_mainchain_block env second_block 12 with_payment ≡ (ok tt, after_second))
    × ((apply_block_to_state env second_block 12 with_payment).0 ≡ ok tt)
    × ((apply_tx_to_state key_hash payment 1007 1 12 77 with_payment).0 ≡ ok tt)
    × (coins with_payment ≡ 175_000_000_000)
    × (after_second.stats.top_height ≡ 1)
unfolding apply_block_to_state check_next_delegate set_mempool delete_entries apply_transactions
    apply_coinbase update_sync coinbase_state_outputs coinbase_transaction coinbase_at
    apply_tx_outputs_to_state apply_output set_tx_topo_inc set_state get_state safe_add reward
    reduce cmp drop_expired delete_entry get_tx apply_tx_to_state version_steps stake_at_version
    unstake_at_version register_at_version set_delegate_at_version finish_tx apply_inputs
    apply_input state_inputs state_outputs transfer_outputs drop_error set_tx_topo_out set_tx_height
    add_mainchain_block insert_block_main sum_loop
runs = (refl, refl, refl, refl, refl, refl)

chain : MainChain env 1 after_second
chain =
    extend
      (genesis genesis_block 11 0 empty_ledger after_genesis refl empty_ledger-AllPayable refl refl
        runs.0)
      second_block 12 1 with_payment after_second refl with_payment-AllPayable refl refl runs.1

get_supply-get_supply_at_height_example :
    (get_supply after_second ≡ get_supply_at_height 1) × (get_supply after_second ≤ max_supply)
get_supply-get_supply_at_height_example = get_supply-get_supply_at_height chain (omega arith)

apply_block_to_state-coins_example :
    coins (apply_block_to_state env second_block 12 with_payment).1 ≡ coins with_payment + reward 1
apply_block_to_state-coins_example =
    apply_block_to_state-coins env second_block 12 with_payment with_payment-AllPayable
      (unfold reward in omega (arith, runs.4)) runs.2

apply_tx_to_state-coins_example :
    coins (apply_tx_to_state key_hash payment 1007 1 12 77 with_payment).1 + 1_000_000_000
    ≡ coins with_payment
apply_tx_to_state-coins_example =
    apply_tx_to_state-coins key_hash payment 1007 1 12 77 6_000_000_000 payment_words payment_total
      with_payment (omega (arith, runs.4)) runs.3
