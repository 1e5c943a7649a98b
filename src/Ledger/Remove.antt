-- ===== src/Ledger/Remove.antt =====
-- RemoveTxFromState of blockchain/bc-staterm.go, which a reorganisation runs on the transactions of
-- the blocks that leave the main chain.
use virel_blockchain.Base.{
  ℕ, ◌-◌, true, not, List, [], ◌∷◌, ◌>>=◌, ◌>>◌, fail_if, or_crash, or_fail, pure, crash, ◌==◌,
  if◌then◌else◌, safe_add,
}
use virel_blockchain.Chaintype.{State}
use virel_blockchain.Transaction
use virel_blockchain.Transaction.{
  StateInput, TransactionData, register_delegate, stake, unstake, Transaction,
  tx_version_register_delegate, tx_version_set_delegate, tx_version_stake, tx_version_unstake,
}
use virel_blockchain.Transaction.Amounts.{state_inputs, state_outputs}
use virel_blockchain.Ledger.{
  Do, bad_nonce, zero_nonce, zero_delegate_id, delegate_mismatch, has_active_funds,
  bad_current_delegate, balance_overflow, get_state, set_state, get_delegate, remove_delegate,
  set_tx_height, drop_error,
}
use virel_blockchain.Ledger.Stakes.{apply_stake, apply_unstake}
use virel_blockchain.Ledger.Rewards.{is_empty}
use virel_blockchain.Ledger.Outputs.{remove_tx_outputs_from_state}

unfoldable pub return_input : StateInput → Do (Unit {0})
return_input inp = do
  st ← get_state inp.sender
  balance ← or_fail (safe_add st.balance inp.amount) balance_overflow
  set_state inp.sender (record st { balance = balance })

unfoldable pub return_inputs : List StateInput → Do (Unit {0})
return_inputs [] = pure tt
return_inputs (inp ∷ inps) = do return_input inp; return_inputs inps

unfoldable pub undo_stake : TransactionData → (signer : ℕ) → State → Do (Unit {0})
undo_stake (stake amount delegate_id prev_unlock) signer st = do
  fail_if (delegate_id == 0) zero_delegate_id
  fail_if (not (st.delegate_id == delegate_id)) delegate_mismatch
  apply_unstake amount delegate_id signer true prev_unlock
undo_stake _ signer st = crash

unfoldable pub undo_unstake : TransactionData → (signer txid : ℕ) → State → Do (Unit {0})
undo_unstake (unstake amount delegate_id) signer txid st = do
  fail_if (delegate_id == 0) zero_delegate_id
  fail_if (not (st.delegate_id == delegate_id)) delegate_mismatch
  apply_stake amount delegate_id 0 signer txid true
undo_unstake _ signer txid st = crash

unfoldable pub undo_register : TransactionData → Do (Unit {0})
undo_register (register_delegate name id) = do
  delegate ← get_delegate id
  fail_if (not (is_empty delegate.funds)) has_active_funds
  remove_delegate id
undo_register _ = crash

unfoldable pub undo_set_delegate : TransactionData → State → Do ℕ
undo_set_delegate (Transaction.set_delegate delegate_id previous_delegate) st = do
  fail_if (not (delegate_id == st.delegate_id)) bad_current_delegate
  known ← get_delegate delegate_id
  pure previous_delegate
undo_set_delegate _ st = crash

-- The steps of each version, undone; the result is the signer's delegate.
unfoldable pub undo_steps : Transaction → (signer txid : ℕ) → State → Do ℕ
undo_steps tx signer txid st = do
  if tx.version == tx_version_stake then undo_stake tx.body signer st else pure tt
  if tx.version == tx_version_unstake then undo_unstake tx.body signer txid st else pure tt
  if tx.version == tx_version_register_delegate then undo_register tx.body else pure tt
  if tx.version == tx_version_set_delegate
      then undo_set_delegate tx.body st
      else pure (st.delegate_id)

-- The error of RemoveTxOutputsFromState is not looked at.
unfoldable pub remove_tx_from_state :
    (from_pub_key : ℕ → ℕ) → Transaction → (signer blockhash txid : ℕ) → Do (Unit {0})
remove_tx_from_state from_pub_key tx signer blockhash txid = do
  set_tx_height txid 0
  outs ← or_crash (state_outputs tx.body tx signer)
  drop_error (remove_tx_outputs_from_state blockhash outs)
  return_inputs (state_inputs from_pub_key tx.body tx signer)
  st ← get_state signer
  fail_if (st.last_nonce == 0) zero_nonce
  fail_if (not (st.last_nonce == tx.nonce)) bad_nonce
  delegate_id ← undo_steps tx signer txid (record st { last_nonce = st.last_nonce - 1 })
  set_state signer (record st { last_nonce = st.last_nonce - 1; delegate_id = delegate_id })
