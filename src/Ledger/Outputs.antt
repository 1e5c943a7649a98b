-- ===== src/Ledger/Outputs.antt =====
-- ApplyTxOutputsToState of blockchain/bc-stateadd.go and RemoveTxOutputsFromState of
-- blockchain/bc-staterm.go.
use virel_blockchain.Base.{
  ℕ, ◌-◌, Option, none, some, List, [], ◌∷◌, ◌>>=◌, ◌>>◌, fail_if, or_fail, pure, gets, ltb, ◌==◌,
  add64, safe_add,
}
use virel_blockchain.Base.Dict.{lookup}
use virel_blockchain.Chaintype.{State, empty_state}
use virel_blockchain.Transaction.{StateOutput, StateOutputType, out_coinbase_pos}
use virel_blockchain.Ledger.{
  Do, balance_overflow, balance_too_small, no_incoming, get_state, set_state, set_tx_topo_inc,
}
use virel_blockchain.Ledger.Rewards.{apply_pos_reward, remove_pos_reward}

-- An unknown recipient starts from the empty state.
abbrev pub state_or_empty : Option State → State
state_or_empty none = empty_state
state_or_empty (some st) = st

abbrev pub when_pos : StateOutputType → Do (Unit {0}) → Do (Unit {0})
when_pos out_coinbase_pos m = m
when_pos _ m = pure tt

unfoldable pub apply_output :
    (from_pub_key : ℕ → ℕ) (blockhash txid : ℕ) → StateOutput → Do (Unit {0})
apply_output from_pub_key blockhash txid out = do
  rec ← gets (λ s. state_or_empty (lookup out.recipient s.states))
  balance ← or_fail (safe_add rec.balance out.amount) balance_overflow
  let incoming = add64 rec.last_incoming 1
  set_tx_topo_inc txid out.recipient incoming
  set_state out.recipient (record rec { balance = balance; last_incoming = incoming })
  when_pos out.kind (apply_pos_reward from_pub_key blockhash out)

unfoldable pub apply_tx_outputs_to_state :
    (from_pub_key : ℕ → ℕ) (blockhash txid : ℕ) → List StateOutput → Do (Unit {0})
apply_tx_outputs_to_state from_pub_key blockhash txid [] = pure tt
apply_tx_outputs_to_state from_pub_key blockhash txid (out ∷ outs) = do
  apply_output from_pub_key blockhash txid out
  apply_tx_outputs_to_state from_pub_key blockhash txid outs

unfoldable pub remove_output : (blockhash : ℕ) → StateOutput → Do (Unit {0})
remove_output blockhash out = do
  rec ← get_state out.recipient
  fail_if (ltb rec.balance out.amount) balance_too_small
  fail_if (rec.last_incoming == 0) no_incoming
  set_state out.recipient
      (record rec { balance = rec.balance - out.amount; last_incoming = rec.last_incoming - 1 })
  when_pos out.kind (remove_pos_reward blockhash out)

unfoldable pub remove_tx_outputs_from_state : (blockhash : ℕ) → List StateOutput → Do (Unit {0})
remove_tx_outputs_from_state blockhash [] = pure tt
remove_tx_outputs_from_state blockhash (out ∷ outs) = do
  remove_output blockhash out
  remove_tx_outputs_from_state blockhash outs
