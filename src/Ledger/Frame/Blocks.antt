-- ===== src/Ledger/Frame/Blocks.antt =====
-- Applying and undoing a block leaves the chain's view alone.
use virel_blockchain.Base.{ℕ, refl, Option, none, some, List, [], ◌∷◌, arith}
use virel_blockchain.Block.{Block}
use virel_blockchain.Transaction.{Transaction}
use virel_blockchain.Stats.{Mempool, MempoolEntry}
use virel_blockchain.Ledger.Blocks.{
  Environment, chosen_staker, check_next_delegate, set_mempool, apply_transactions, apply_coinbase,
  update_sync, apply_block_to_state, with_entry, write_pool, collect_transactions,
  remove_transactions, remove_block_from_state,
}
use virel_blockchain.Ledger.Frame.{Keeps}
use virel_blockchain.Ledger.Frame.Rules.{keeps_rules, Keeps-pure, Keeps-bind}
use virel_blockchain.Ledger.Frame.Transactions.{
  Keeps-apply_tx_to_state, Keeps-apply_tx_outputs_to_state, Keeps-remove_tx_outputs_from_state,
  Keeps-remove_tx_from_state,
}

Keeps-check_next_delegate : (env : Environment) (bl : Block) → Keeps (check_next_delegate env bl)
unfolding check_next_delegate chosen_staker
Keeps-check_next_delegate env bl = search keeps_rules depth 24

Keeps-set_mempool : (env : Environment) (pool : Mempool) → Keeps (set_mempool env pool)
unfolding set_mempool
Keeps-set_mempool env pool = record { run = λ s. refl }

Keeps-apply_transactions :
    (env : Environment) (height blockhash total_fee : ℕ) (txs : List ℕ)
    → Keeps (apply_transactions env height blockhash total_fee txs)
unfolding apply_transactions
Keeps-apply_transactions env height blockhash total_fee [] = Keeps-pure total_fee
Keeps-apply_transactions env height blockhash total_fee (v ∷ vs) =
    let rest = λ (fee : ℕ). Keeps-apply_transactions env height blockhash fee vs in
    search (keeps_rules, Keeps-apply_tx_to_state, rest) depth 24

Keeps-apply_coinbase :
    (env : Environment) (bl : Block) (blockhash total_fee : ℕ)
    → Keeps (apply_coinbase env bl blockhash total_fee)
unfolding apply_coinbase
Keeps-apply_coinbase env bl blockhash total_fee =
    search (keeps_rules, Keeps-apply_tx_outputs_to_state) depth 24

Keeps-update_sync : (bl : Block) → Keeps (update_sync bl)
unfolding update_sync
Keeps-update_sync bl = record { run = λ s. ground arith }

pub Keeps-apply_block_to_state :
    (env : Environment) (bl : Block) (blockhash : ℕ) → Keeps (apply_block_to_state env bl blockhash)
unfolding apply_block_to_state
Keeps-apply_block_to_state env bl blockhash =
    search
      (
        keeps_rules, Keeps-check_next_delegate, Keeps-set_mempool, Keeps-apply_transactions,
        Keeps-apply_coinbase, Keeps-update_sync,
      )
      depth 24

Keeps-with_entry :
    (env : Environment) (v : ℕ) (tx : Transaction) (pool : Mempool) (found : Option MempoolEntry)
    → Keeps (with_entry env v tx pool found)
unfolding with_entry
Keeps-with_entry env v tx pool none = search keeps_rules depth 24
Keeps-with_entry env v tx pool (some old) = Keeps-pure pool

Keeps-collect_transactions :
    (env : Environment) (txs : List ℕ) (total_fee : ℕ) (pool : Mempool)
    → Keeps (collect_transactions env txs total_fee pool)
unfolding collect_transactions
Keeps-collect_transactions env [] total_fee pool = Keeps-pure _
Keeps-collect_transactions env (v ∷ vs) total_fee pool =
    let rest = λ (fee : ℕ) (p : Mempool). Keeps-collect_transactions env vs fee p in
    search (keeps_rules, Keeps-with_entry, rest) depth 24

Keeps-remove_transactions :
    (env : Environment) (blockhash : ℕ) (txs : List (ℕ × Transaction))
    → Keeps (remove_transactions env blockhash txs)
unfolding remove_transactions
Keeps-remove_transactions env blockhash [] = Keeps-pure tt
Keeps-remove_transactions env blockhash ((v, tx) ∷ txs) =
    Keeps-bind _ _ (Keeps-remove_transactions env blockhash txs)
      (λ _. Keeps-remove_tx_from_state env.from_pub_key tx (env.from_pub_key tx.signer) blockhash v)

Keeps-write_pool :
    (env : Environment) (pool : Mempool) (txs : List ℕ) → Keeps (write_pool env pool txs)
unfolding write_pool
Keeps-write_pool env pool [] = Keeps-pure tt
Keeps-write_pool env pool (v ∷ vs) = Keeps-set_mempool env pool

pub Keeps-remove_block_from_state :
    (env : Environment) (bl : Block) (blockhash : ℕ)
    → Keeps (remove_block_from_state env bl blockhash)
unfolding remove_block_from_state
Keeps-remove_block_from_state env bl blockhash =
    search
      (
        keeps_rules, Keeps-collect_transactions, Keeps-write_pool, Keeps-remove_transactions,
        Keeps-remove_tx_outputs_from_state,
      )
      depth 24
