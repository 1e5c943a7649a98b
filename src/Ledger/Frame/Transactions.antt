-- ===== src/Ledger/Frame/Transactions.antt =====
-- Applying and undoing transactions and outputs leaves the chain's view alone.
use virel_blockchain.Base.{ℕ, Bool, List, [], ◌∷◌}
use virel_blockchain.Transaction.{
  StateInput, StateOutput, StateOutputType, out_normal, out_coinbase_dev, out_coinbase_pow,
  out_coinbase_pos, out_coinbase_burn, out_stake, TransactionData, transfer, register_delegate,
  set_delegate, stake, unstake, Transaction,
}
use virel_blockchain.Chaintype.{State}
use virel_blockchain.Ledger.{Do}
use virel_blockchain.Ledger.Stakes.{apply_stake, apply_unstake}
use virel_blockchain.Ledger.Rewards.{apply_pos_reward, remove_pos_reward}
use virel_blockchain.Ledger.Outputs.{
  when_pos, apply_output, apply_tx_outputs_to_state, remove_output, remove_tx_outputs_from_state,
}
use virel_blockchain.Ledger.Apply.{
  stake_step, unstake_step, register_step, set_delegate_step, stake_at_version, unstake_at_version,
  register_at_version, set_delegate_at_version, version_steps, apply_input, apply_inputs, finish_tx,
  apply_tx_to_state,
}
use virel_blockchain.Ledger.Remove.{
  return_input, return_inputs, undo_stake, undo_unstake, undo_register, undo_set_delegate,
  undo_steps, remove_tx_from_state,
}
use virel_blockchain.Ledger.Frame.{Keeps}
use virel_blockchain.Ledger.Frame.Rules.{keeps_rules, Keeps-pure, Keeps-bind, Keeps-crash}

Keeps-apply_stake :
    (amount delegate_id prev_unlock signer txid : ℕ) (reverse : Bool)
    → Keeps (apply_stake amount delegate_id prev_unlock signer txid reverse)
unfolding apply_stake
Keeps-apply_stake amount delegate_id prev_unlock signer txid reverse = search keeps_rules depth 24

Keeps-apply_unstake :
    (amount delegate_id signer : ℕ) (reverse : Bool) (prev_unlock : ℕ)
    → Keeps (apply_unstake amount delegate_id signer reverse prev_unlock)
unfolding apply_unstake
Keeps-apply_unstake amount delegate_id signer reverse prev_unlock = search keeps_rules depth 24

Keeps-apply_pos_reward :
    (key : ℕ → ℕ) (blockhash : ℕ) (out : StateOutput) → Keeps (apply_pos_reward key blockhash out)
unfolding apply_pos_reward
Keeps-apply_pos_reward key blockhash out = search keeps_rules depth 24

Keeps-remove_pos_reward :
    (blockhash : ℕ) (out : StateOutput) → Keeps (remove_pos_reward blockhash out)
unfolding remove_pos_reward
Keeps-remove_pos_reward blockhash out = search keeps_rules depth 24

Keeps-when_pos : (kind : StateOutputType) (m : Do (Unit {0})) → Keeps m → Keeps (when_pos kind m)
Keeps-when_pos out_normal m h = Keeps-pure tt
Keeps-when_pos out_coinbase_dev m h = Keeps-pure tt
Keeps-when_pos out_coinbase_pow m h = Keeps-pure tt
Keeps-when_pos out_coinbase_pos m h = h
Keeps-when_pos out_coinbase_burn m h = Keeps-pure tt
Keeps-when_pos out_stake m h = Keeps-pure tt

Keeps-apply_output :
    (key : ℕ → ℕ) (blockhash txid : ℕ) (out : StateOutput)
    → Keeps (apply_output key blockhash txid out)
unfolding apply_output
Keeps-apply_output key blockhash txid out =
    search (keeps_rules, Keeps-when_pos, Keeps-apply_pos_reward) depth 24

pub Keeps-apply_tx_outputs_to_state :
    (key : ℕ → ℕ) (blockhash txid : ℕ) (outs : List StateOutput)
    → Keeps (apply_tx_outputs_to_state key blockhash txid outs)
unfolding apply_tx_outputs_to_state
Keeps-apply_tx_outputs_to_state key blockhash txid [] = Keeps-pure tt
Keeps-apply_tx_outputs_to_state key blockhash txid (out ∷ outs) =
    Keeps-bind _ _ (Keeps-apply_output key blockhash txid out)
      (λ _. Keeps-apply_tx_outputs_to_state key blockhash txid outs)

Keeps-remove_output : (blockhash : ℕ) (out : StateOutput) → Keeps (remove_output blockhash out)
unfolding remove_output
Keeps-remove_output blockhash out =
    search (keeps_rules, Keeps-when_pos, Keeps-remove_pos_reward) depth 24

pub Keeps-remove_tx_outputs_from_state :
    (blockhash : ℕ) (outs : List StateOutput) → Keeps (remove_tx_outputs_from_state blockhash outs)
unfolding remove_tx_outputs_from_state
Keeps-remove_tx_outputs_from_state blockhash [] = Keeps-pure tt
Keeps-remove_tx_outputs_from_state blockhash (out ∷ outs) =
    Keeps-bind _ _ (Keeps-remove_output blockhash out)
      (λ _. Keeps-remove_tx_outputs_from_state blockhash outs)

Keeps-apply_input : (inp : StateInput) → Keeps (apply_input inp)
unfolding apply_input
Keeps-apply_input inp = search keeps_rules depth 24

Keeps-apply_inputs : (inps : List StateInput) → Keeps (apply_inputs inps)
unfolding apply_inputs
Keeps-apply_inputs [] = Keeps-pure tt
Keeps-apply_inputs (inp ∷ inps) =
    Keeps-bind _ _ (Keeps-apply_input inp) (λ _. Keeps-apply_inputs inps)

Keeps-return_input : (inp : StateInput) → Keeps (return_input inp)
unfolding return_input
Keeps-return_input inp = search keeps_rules depth 24

Keeps-return_inputs : (inps : List StateInput) → Keeps (return_inputs inps)
unfolding return_inputs
Keeps-return_inputs [] = Keeps-pure tt
Keeps-return_inputs (inp ∷ inps) =
    Keeps-bind _ _ (Keeps-return_input inp) (λ _. Keeps-return_inputs inps)

Keeps-stake_step :
    (body : TransactionData) (signer txid : ℕ) (st : State) → Keeps (stake_step body signer txid st)
unfolding stake_step
Keeps-stake_step (transfer _) signer txid st = Keeps-crash
Keeps-stake_step (register_delegate _ _) signer txid st = Keeps-crash
Keeps-stake_step (set_delegate _ _) signer txid st = Keeps-crash
Keeps-stake_step (stake _ _ _) signer txid st = search (keeps_rules, Keeps-apply_stake) depth 24
Keeps-stake_step (unstake _ _) signer txid st = Keeps-crash

Keeps-unstake_step :
    (body : TransactionData) (signer : ℕ) (st : State) → Keeps (unstake_step body signer st)
unfolding unstake_step
Keeps-unstake_step (transfer _) signer st = Keeps-crash
Keeps-unstake_step (register_delegate _ _) signer st = Keeps-crash
Keeps-unstake_step (set_delegate _ _) signer st = Keeps-crash
Keeps-unstake_step (stake _ _ _) signer st = Keeps-crash
Keeps-unstake_step (unstake _ _) signer st = search (keeps_rules, Keeps-apply_unstake) depth 24

Keeps-register_step :
    (body : TransactionData) (owner_key : ℕ) → Keeps (register_step body owner_key)
unfolding register_step
Keeps-register_step (transfer _) owner_key = Keeps-crash
Keeps-register_step (register_delegate _ _) owner_key = search keeps_rules depth 24
Keeps-register_step (set_delegate _ _) owner_key = Keeps-crash
Keeps-register_step (stake _ _ _) owner_key = Keeps-crash
Keeps-register_step (unstake _ _) owner_key = Keeps-crash

Keeps-set_delegate_step :
    (body : TransactionData) (signer : ℕ) (st : State) → Keeps (set_delegate_step body signer st)
unfolding set_delegate_step
Keeps-set_delegate_step (transfer _) signer st = Keeps-crash
Keeps-set_delegate_step (register_delegate _ _) signer st = Keeps-crash
Keeps-set_delegate_step (set_delegate _ _) signer st = search keeps_rules depth 24
Keeps-set_delegate_step (stake _ _ _) signer st = Keeps-crash
Keeps-set_delegate_step (unstake _ _) signer st = Keeps-crash

ruleset step_rules = (
  keeps_rules, Keeps-stake_step, Keeps-unstake_step, Keeps-register_step, Keeps-set_delegate_step,
)

Keeps-version_steps :
    (tx : Transaction) (signer txid : ℕ) (st : State) → Keeps (version_steps tx signer txid st)
unfolding version_steps stake_at_version unstake_at_version register_at_version
    set_delegate_at_version
Keeps-version_steps tx signer txid st = search step_rules depth 24

Keeps-finish_tx :
    (key : ℕ → ℕ) (tx : Transaction) (signer height blockhash txid : ℕ) (st : State) (id : ℕ)
    → Keeps (finish_tx key tx signer height blockhash txid st id)
unfolding finish_tx
Keeps-finish_tx key tx signer height blockhash txid st id =
    search (keeps_rules, Keeps-apply_inputs, Keeps-apply_tx_outputs_to_state) depth 24

pub Keeps-apply_tx_to_state :
    (key : ℕ → ℕ) (tx : Transaction) (signer height blockhash txid : ℕ)
    → Keeps (apply_tx_to_state key tx signer height blockhash txid)
unfolding apply_tx_to_state
Keeps-apply_tx_to_state key tx signer height blockhash txid =
    search (keeps_rules, Keeps-version_steps, Keeps-finish_tx) depth 24

Keeps-undo_stake :
    (body : TransactionData) (signer : ℕ) (st : State) → Keeps (undo_stake body signer st)
unfolding undo_stake
Keeps-undo_stake (transfer _) signer st = Keeps-crash
Keeps-undo_stake (register_delegate _ _) signer st = Keeps-crash
Keeps-undo_stake (set_delegate _ _) signer st = Keeps-crash
Keeps-undo_stake (stake _ _ _) signer st = search (keeps_rules, Keeps-apply_unstake) depth 24
Keeps-undo_stake (unstake _ _) signer st = Keeps-crash

Keeps-undo_unstake :
    (body : TransactionData) (signer txid : ℕ) (st : State)
    → Keeps (undo_unstake body signer txid st)
unfolding undo_unstake
Keeps-undo_unstake (transfer _) signer txid st = Keeps-crash
Keeps-undo_unstake (register_delegate _ _) signer txid st = Keeps-crash
Keeps-undo_unstake (set_delegate _ _) signer txid st = Keeps-crash
Keeps-undo_unstake (stake _ _ _) signer txid st = Keeps-crash
Keeps-undo_unstake (unstake _ _) signer txid st = search (keeps_rules, Keeps-apply_stake) depth 24

Keeps-undo_register : (body : TransactionData) → Keeps (undo_register body)
unfolding undo_register
Keeps-undo_register (transfer _) = Keeps-crash
Keeps-undo_register (register_delegate _ _) = search keeps_rules depth 24
Keeps-undo_register (set_delegate _ _) = Keeps-crash
Keeps-undo_register (stake _ _ _) = Keeps-crash
Keeps-undo_register (unstake _ _) = Keeps-crash

Keeps-undo_set_delegate : (body : TransactionData) (st : State) → Keeps (undo_set_delegate body st)
unfolding undo_set_delegate
Keeps-undo_set_delegate (transfer _) st = Keeps-crash
Keeps-undo_set_delegate (register_delegate _ _) st = Keeps-crash
Keeps-undo_set_delegate (set_delegate _ _) st = search keeps_rules depth 24
Keeps-undo_set_delegate (stake _ _ _) st = Keeps-crash
Keeps-undo_set_delegate (unstake _ _) st = Keeps-crash

ruleset undo_rules = (
  keeps_rules, Keeps-undo_stake, Keeps-undo_unstake, Keeps-undo_register, Keeps-undo_set_delegate,
)

Keeps-undo_steps :
    (tx : Transaction) (signer txid : ℕ) (st : State) → Keeps (undo_steps tx signer txid st)
unfolding undo_steps
Keeps-undo_steps tx signer txid st = search undo_rules depth 24

pub Keeps-remove_tx_from_state :
    (key : ℕ → ℕ) (tx : Transaction) (signer blockhash txid : ℕ)
    → Keeps (remove_tx_from_state key tx signer blockhash txid)
unfolding remove_tx_from_state
Keeps-remove_tx_from_state key tx signer blockhash txid =
    search (keeps_rules, Keeps-undo_steps, Keeps-return_inputs, Keeps-remove_tx_outputs_from_state)
      depth 24
