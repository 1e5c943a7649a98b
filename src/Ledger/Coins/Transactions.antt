-- ===== src/Ledger/Coins/Transactions.antt =====
-- The coins under a whole transaction.
use virel_blockchain.Base.{
  ℕ, ◌+◌, ◌<◌, ◌^◌, ◌≡◌, inl, inr, some, List, [], ◌∷◌, ok, arith, add64, Option-cases, All,
}
use virel_blockchain.Base.Dict.{lookup, insert, sum_by-insert}
use virel_blockchain.Chaintype.{State}
use virel_blockchain.Transaction.{
  Output, StateOutput, TransactionData, transfer, register_delegate, stake, unstake, set_delegate,
  Transaction,
}
use virel_blockchain.Transaction.Amounts.{
  total_amount, state_inputs, state_outputs, transfer_outputs,
}
use virel_blockchain.Transaction.Balance.{sum_outputs, IsWordTransaction, total_amount-IsBalanced}
use virel_blockchain.Ledger.{
  Ledger, get_state, set_state, set_tx_topo_out, set_tx_height, drop_error,
}
use virel_blockchain.Ledger.Apply.{apply_inputs, finish_tx, apply_tx_to_state}
use virel_blockchain.Ledger.Outputs.{apply_tx_outputs_to_state}
use virel_blockchain.Ledger.Coins.{
  coins, apply_inputs-coins, apply_outputs-coins, apply_outputs_plain, IsPlain,
}
use virel_blockchain.Ledger.Coins.Versions.{version_steps-IsSame}

transfer_outputs-IsPlain : (os : List Output) → All IsPlain (transfer_outputs os)
unfolding transfer_outputs
transfer_outputs-IsPlain [] = tt
transfer_outputs-IsPlain (o ∷ os) = ((λ e. cc), transfer_outputs-IsPlain os)

-- No transaction has a staking reward among its outputs.
pub state_outputs-IsPlain :
    (d : TransactionData) (t : Transaction) (sender : ℕ) (outs : List StateOutput)
    → state_outputs d t sender ≡ some outs
    → All IsPlain outs
unfolding state_outputs
state_outputs-IsPlain (transfer os) t sender outs e = ground (arith, transfer_outputs-IsPlain os)
state_outputs-IsPlain (register_delegate name id) t sender outs e = ground arith
state_outputs-IsPlain (set_delegate i p) t sender outs e = ground arith
state_outputs-IsPlain (stake a i p) t sender outs e = ground arith
state_outputs-IsPlain (unstake a i) t sender outs e = ground arith

-- The outputs of a transaction once its inputs are taken.
drop_error-coins :
    (key : ℕ → ℕ) (blockhash txid : ℕ) (outs : List StateOutput) (s : Ledger)
    → coins s + sum_outputs outs < 2 ^ 64
    → All IsPlain outs
    → coins (drop_error (apply_tx_outputs_to_state key blockhash txid outs) s).1
      ≡ coins s + sum_outputs outs
unfolding drop_error
drop_error-coins key blockhash txid outs s room plain =
    apply_outputs-coins key blockhash txid outs s room
      (apply_outputs_plain key blockhash txid outs s room plain)

module _ (key : ℕ → ℕ) (tx : Transaction) (signer height blockhash txid n : ℕ)
    (words : IsWordTransaction tx) (total : total_amount tx ≡ some n) where
  finish_tx-coins :
      (st : State) (delegate_id : ℕ) (s : Ledger)
      → lookup signer s.states ≡ some st
      → coins s < 2 ^ 64
      → (finish_tx key tx signer height blockhash txid st delegate_id s).0 ≡ ok tt
      → coins (finish_tx key tx signer height blockhash txid st delegate_id s).1 + tx.fee ≡ coins s
  unfolding finish_tx set_state set_tx_topo_out set_tx_height
  finish_tx-coins st delegate_id s known small e =
      let (outs, computed, balanced) = total_amount-IsBalanced key tx signer n words total in
      let st' : State = record st {
        last_nonce = add64 st.last_nonce 1;
        delegate_id = delegate_id;
      } in
      let s1 : Ledger = record s { states = insert signer st' s.states } in
      let s2 : Ledger = (apply_inputs (state_inputs key tx.body tx signer) s1).1 in
      let same : coins s1 ≡ coins s =
        omega (arith, sum_by-insert (λ (v : State). v.balance) signer st' st s.states known) in
      ground (
        arith,
        computed,
        same,
        balanced.inputs_total,
        balanced.outputs_total,
        apply_inputs-coins (state_inputs key tx.body tx signer) s1,
        λ (room : coins s2 + sum_outputs outs < 2 ^ 64).
            drop_error-coins key blockhash txid outs s2 room
              (state_outputs-IsPlain tx.body tx signer outs computed),
      )

  -- A transaction of words with a total amount takes exactly its fee out of the account states, where it
  -- is applied without an error and the coins before it fit a word; no output of it is dropped.
  pub apply_tx_to_state-coins :
      (s : Ledger)
      → coins s < 2 ^ 64
      → (apply_tx_to_state key tx signer height blockhash txid s).0 ≡ ok tt
      → coins (apply_tx_to_state key tx signer height blockhash txid s).1 + tx.fee ≡ coins s
  unfolding apply_tx_to_state get_state
  apply_tx_to_state-coins s small e = elim (Option-cases (lookup signer s.states)) [
    | inl absent ↦ ground arith
    | inr (st, known) ↦ grind (arith, version_steps-IsSame, finish_tx-coins)
  ]
