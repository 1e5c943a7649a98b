-- ===== src/Ledger/Coins/Blocks.antt =====
-- The coins under a whole block.
use virel_blockchain.Base.{
  ℕ, ◌+◌, ◌<◌, ◌^◌, ◌≡◌, refl, sym, ◌∙◌, inl, inr, some, List, [], ◌∷◌, Result, ok, err, panic,
  arith, Option-cases, add64, IsU64,
}
use virel_blockchain.Base.Dict.{lookup}
use virel_blockchain.Transaction.{Transaction}
use virel_blockchain.Transaction.Balance.{sum_outputs}
use virel_blockchain.Block.{Block}
use virel_blockchain.Coinbase.{CoinbaseOutput, coinbase_transaction}
use virel_blockchain.Coinbase.Shares
use virel_blockchain.Coinbase.Shares.{coinbase_transaction_conserves}
use virel_blockchain.Emission.{reward}
use virel_blockchain.Ledger.{Ledger, Error, get_tx}
use virel_blockchain.Ledger.Apply.{apply_tx_to_state}
use virel_blockchain.Ledger.Blocks.{
  Environment, check_next_delegate, chosen_staker, delete_entries, set_mempool, apply_transactions,
  coinbase_state_outputs, apply_coinbase, update_sync, apply_block_to_state,
}
use virel_blockchain.Ledger.Coins.{coins, apply_outputs-coins}
use virel_blockchain.Ledger.Coins.Stored.{stored, IsPayable, apply_tx_to_state-stored}
use virel_blockchain.Ledger.Coins.Transactions.{apply_tx_to_state-coins}

-- Every transaction of the database is payable.
abbrev pub AllPayable : Ledger → Type 0
AllPayable s = (k : ℕ) (tx : Transaction) → stored k s ≡ some tx → IsPayable tx

module _ (env : Environment) (height blockhash : ℕ) where
  abbrev pub after : Transaction → ℕ → Ledger → Ledger
  after tx v s =
      (apply_tx_to_state env.from_pub_key tx (env.from_pub_key tx.signer) height blockhash v s).1

  pub after-AllPayable :
      (tx : Transaction) (v : ℕ) (s : Ledger) → AllPayable s → AllPayable (after tx v s)
  after-AllPayable tx v s all k t e = all k t (
      sym (
        apply_tx_to_state-stored k env.from_pub_key tx (env.from_pub_key tx.signer) height blockhash
          v s)
      ∙ e)

  apply_transactions-coins :
      (vs : List ℕ) (total_fee fee : ℕ) (s : Ledger)
      → AllPayable s
      → coins s < 2 ^ 64
      → IsU64 total_fee
      → (apply_transactions env height blockhash total_fee vs s).0 ≡ ok fee
      → (coins (apply_transactions env height blockhash total_fee vs s).1 + fee
          ≡ coins s + total_fee)
        × IsU64 fee
  unfolding apply_transactions get_tx
  apply_transactions-coins [] total_fee fee s all small word e = ground arith
  apply_transactions-coins (v ∷ vs) total_fee fee s all small word e =
      elim (Option-cases (lookup v s.txs)) [
        | inl absent ↦ ground arith
        | inr (entry, known) ↦
            let tx = entry.tx in
            let pay : IsPayable tx = all v tx (rw known refl) in
            ground (
              arith,
              pay.words.fee_word,
              apply_tx_to_state-coins env.from_pub_key tx (env.from_pub_key tx.signer) height
                  blockhash v pay.total pay.words pay.computed s,
              apply_transactions-coins vs (add64 total_fee tx.fee) fee (after tx v s)
                  (after-AllPayable tx v s all),
            )
      ]

pub sum_coinbase_state_outputs :
    (os : List CoinbaseOutput) → sum_outputs (coinbase_state_outputs os) ≡ Shares.sum_outputs os
unfolding coinbase_state_outputs
sum_coinbase_state_outputs [] = refl
sum_coinbase_state_outputs (o ∷ os) = omega (arith, sum_coinbase_state_outputs os)

apply_coinbase-coins :
    (env : Environment) (bl : Block) (blockhash fee : ℕ) (s : Ledger)
    → coins s + reward bl.height + fee < 2 ^ 64
    → (apply_coinbase env bl blockhash fee s).0 ≡ ok tt
    → coins (apply_coinbase env bl blockhash fee s).1 ≡ coins s + reward bl.height + fee
unfolding apply_coinbase
apply_coinbase-coins env bl blockhash fee s room e =
    elim (Option-cases
      (coinbase_transaction env.genesis_address bl (add64 (reward bl.height) fee))) [
        | inl bad ↦ ground arith
        | inr (outs, computed) ↦ ground (
          arith,
          coinbase_transaction_conserves env.genesis_address bl (add64 (reward bl.height) fee)
              {outs = outs} (omega arith) computed,
          sum_coinbase_state_outputs outs,
          apply_outputs-coins env.from_pub_key blockhash blockhash (coinbase_state_outputs outs) s,
        )
      ]

pub check_next_delegate-same :
    (env : Environment) (bl : Block) (s : Ledger) → (check_next_delegate env bl s).1 ≡ s
unfolding check_next_delegate chosen_staker
check_next_delegate-same env bl s = ground arith

-- A block that is applied without an error adds its reward to the account states, and nothing else: its
-- fees come out of them and go back to them. This supposes that every stored transaction is payable and
-- that the coins with the reward fit a word.
pub apply_block_to_state-coins :
    (env : Environment) (bl : Block) (blockhash : ℕ) (s : Ledger)
    → AllPayable s
    → coins s + reward bl.height < 2 ^ 64
    → (apply_block_to_state env bl blockhash s).0 ≡ ok tt
    → coins (apply_block_to_state env bl blockhash s).1 ≡ coins s + reward bl.height
unfolding apply_block_to_state set_mempool update_sync
apply_block_to_state-coins env bl blockhash s all room e =
    go (apply_transactions env bl.height blockhash 0 bl.transactions s1).0 refl
  where
    s1 : Ledger
    s1 = (set_mempool env (delete_entries bl.transactions s.mempool) s).1

    s2 : Ledger
    s2 = (apply_transactions env bl.height blockhash 0 bl.transactions s1).1

    go :
        (r : Result Error ℕ)
        → (apply_transactions env bl.height blockhash 0 bl.transactions s1).0 ≡ r
        → coins (apply_block_to_state env bl blockhash s).1 ≡ coins s + reward bl.height
    go (ok fee) d = ground (
      arith,
      d,
      check_next_delegate-same env bl s,
      apply_transactions-coins env bl.height blockhash bl.transactions 0 fee s1 all (omega arith)
          (omega arith) d,
      apply_coinbase-coins env bl blockhash fee s2,
    )
    go (err x) d = ground (arith, d, check_next_delegate-same env bl s)
    go panic d = ground (arith, d, check_next_delegate-same env bl s)
