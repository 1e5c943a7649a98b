-- ===== src/Ledger/Apply.antt =====
-- ApplyTxToState of blockchain/bc-stateadd.go. A type assertion on the transaction's data that does
-- not fit its version is a panic.
use virel_blockchain.Base.{
  ℕ, ◌-◌, Bool, true, false, not, Option, none, some, List, [], ◌∷◌, ◌>>=◌, ◌>>◌, fail_if, or_crash,
  pure, crash, gets, ltb, ◌==◌, if◌then◌else◌, add64,
}
use virel_blockchain.Base.Dict.{lookup}
use virel_blockchain.Chaintype.{State, Delegate, DelegatedFund}
use virel_blockchain.Transaction.{
  StateInput, TransactionData, transfer, register_delegate, stake, unstake, Transaction,
  tx_version_register_delegate, tx_version_set_delegate, tx_version_stake, tx_version_unstake,
}
use virel_blockchain.Transaction
use virel_blockchain.Transaction.Amounts.{state_inputs, state_outputs}
use virel_blockchain.Ledger.{
  Do, bad_nonce, zero_delegate_id, delegate_mismatch, delegate_registered, bad_previous_delegate,
  funds_not_unstaked, delegate_not_found, spends_too_much, get_state, set_state, set_delegate,
  set_tx_topo_out, set_tx_height, drop_error,
}
use virel_blockchain.Ledger.Stakes.{apply_stake, apply_unstake}
use virel_blockchain.Ledger.Outputs.{apply_tx_outputs_to_state}

unfoldable pub stake_step : TransactionData → (signer txid : ℕ) → State → Do (Unit {0})
stake_step (stake amount delegate_id prev_unlock) signer txid st = do
  fail_if (delegate_id == 0) zero_delegate_id
  fail_if (not (st.delegate_id == delegate_id)) delegate_mismatch
  apply_stake amount delegate_id prev_unlock signer txid false
stake_step _ signer txid st = crash

unfoldable pub unstake_step : TransactionData → (signer : ℕ) → State → Do (Unit {0})
unstake_step (unstake amount delegate_id) signer st = do
  fail_if (delegate_id == 0) zero_delegate_id
  fail_if (not (st.delegate_id == delegate_id)) delegate_mismatch
  apply_unstake amount delegate_id signer false 0
unstake_step _ signer st = crash

abbrev is_known : Option Delegate → Bool
is_known none = false
is_known (some d) = true

unfoldable pub register_step : TransactionData → (owner_key : ℕ) → Do (Unit {0})
register_step (register_delegate name id) owner_key = do
  registered ← gets (λ s. is_known (lookup id s.delegates))
  fail_if registered delegate_registered
  set_delegate (record { id = id; owner = owner_key; name = name; funds = [] })
register_step _ owner_key = crash

unfoldable pub owns_fund : ℕ → List DelegatedFund → Bool
owns_fund owner [] = false
owns_fund owner (f ∷ fs) = if f.owner == owner then true else owns_fund owner fs

abbrev funds_of : Option Delegate → List DelegatedFund
funds_of none = []
funds_of (some d) = d.funds

-- The signer's delegate after the transaction.
unfoldable pub set_delegate_step : TransactionData → (signer : ℕ) → State → Do ℕ
unfolding owns_fund
set_delegate_step (Transaction.set_delegate delegate_id previous_delegate) signer st = do
  fail_if (not (previous_delegate == st.delegate_id)) bad_previous_delegate
  funds ← gets (λ s. funds_of (lookup previous_delegate s.delegates))
  fail_if (owns_fund signer funds) funds_not_unstaked
  known ← gets (λ s. is_known (lookup delegate_id s.delegates))
  fail_if (not known) delegate_not_found
  pure delegate_id
set_delegate_step _ signer st = crash

-- Each kind of step at the version that it belongs to.
unfoldable pub stake_at_version : Transaction → (signer txid : ℕ) → State → Do (Unit {0})
stake_at_version tx signer txid st =
    if tx.version == tx_version_stake then stake_step tx.body signer txid st else pure tt

unfoldable pub unstake_at_version : Transaction → (signer : ℕ) → State → Do (Unit {0})
unstake_at_version tx signer st =
    if tx.version == tx_version_unstake then unstake_step tx.body signer st else pure tt

unfoldable pub register_at_version : Transaction → Do (Unit {0})
register_at_version tx =
    if tx.version == tx_version_register_delegate then register_step tx.body tx.signer else pure tt

unfoldable pub set_delegate_at_version : Transaction → (signer : ℕ) → State → Do ℕ
set_delegate_at_version tx signer st =
    if tx.version == tx_version_set_delegate
    then set_delegate_step tx.body signer st
    else pure (st.delegate_id)

-- What is done before the inputs are taken; the result is the signer's delegate.
unfoldable pub version_steps : Transaction → (signer txid : ℕ) → State → Do ℕ
version_steps tx signer txid st = do
  stake_at_version tx signer txid st
  unstake_at_version tx signer st
  register_at_version tx
  set_delegate_at_version tx signer st

unfoldable pub apply_input : StateInput → Do (Unit {0})
apply_input inp = do
  st ← get_state inp.sender
  fail_if (ltb st.balance inp.amount) spends_too_much
  set_state inp.sender (record st { balance = st.balance - inp.amount })

unfoldable pub apply_inputs : List StateInput → Do (Unit {0})
apply_inputs [] = pure tt
apply_inputs (inp ∷ inps) = do apply_input inp; apply_inputs inps

-- From the signer's nonce on. The error of ApplyTxOutputsToState is not looked at.
unfoldable pub finish_tx :
    (from_pub_key : ℕ → ℕ)
    → Transaction
    → (signer height blockhash txid : ℕ) → State
    → ℕ
    → Do (Unit {0})
finish_tx from_pub_key tx signer height blockhash txid st delegate_id = do
  set_state signer (record st { last_nonce = add64 st.last_nonce 1; delegate_id = delegate_id })
  apply_inputs (state_inputs from_pub_key tx.body tx signer)
  outs ← or_crash (state_outputs tx.body tx signer)
  drop_error (apply_tx_outputs_to_state from_pub_key blockhash txid outs)
  set_tx_topo_out txid signer (add64 st.last_nonce 1)
  set_tx_height txid height

unfoldable pub apply_tx_to_state :
    (from_pub_key : ℕ → ℕ) → Transaction → (signer height blockhash txid : ℕ) → Do (Unit {0})
apply_tx_to_state from_pub_key tx signer height blockhash txid = do
  st ← get_state signer
  fail_if (not (tx.nonce == add64 st.last_nonce 1)) bad_nonce
  delegate_id ← version_steps tx signer txid st
  finish_tx from_pub_key tx signer height blockhash txid st delegate_id
