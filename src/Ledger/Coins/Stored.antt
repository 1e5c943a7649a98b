-- ===== src/Ledger/Coins/Stored.antt =====
-- The decoded transaction of each entry of the index stays what it is while others are applied. How the
-- bytes are decoded after a change of the height is Transaction/Codec/Store.
use virel_blockchain.Base.{
  ℕ, ◌≡◌, refl, inl, inr, Option, none, some, List, [], ◌∷◌, arith, Option-cases,
}
use virel_blockchain.Base.Dict.{lookup, lookup-insert}
use virel_blockchain.Chaintype.{State}
use virel_blockchain.Transaction.{StateInput, StateOutput, Transaction}
use virel_blockchain.Transaction.Amounts.{total_amount}
use virel_blockchain.Transaction.Balance.{IsWordTransaction}
use virel_blockchain.Ledger.{
  Ledger, TxEntry, get_state, set_state, set_tx_topo_inc, set_tx_topo_out, set_tx_height,
  drop_error,
}
use virel_blockchain.Ledger.Apply.{apply_input, apply_inputs, finish_tx, apply_tx_to_state}
use virel_blockchain.Ledger.Outputs.{apply_output, apply_tx_outputs_to_state}
use virel_blockchain.Ledger.Rewards.{apply_pos_reward}
use virel_blockchain.Ledger.Coins.{apply_pos_reward-IsSame, when_pos-IsSame}
use virel_blockchain.Ledger.Coins.Versions.{version_steps-IsSame}

abbrev pub entry_tx : Option TxEntry → Option Transaction
entry_tx none = none
entry_tx (some e) = some (e.tx)

abbrev pub stored : ℕ → Ledger → Option Transaction
stored k s = entry_tx (lookup k s.txs)

-- A transaction whose amounts are words, and whose total amount is computed without an error.
pub record IsPayable (tx : Transaction) : Type 0 where
  pub words : IsWordTransaction tx
  pub total : ℕ
  pub computed : total_amount tx ≡ some total

apply_input-txs : (inp : StateInput) (s : Ledger) → (apply_input inp s).1.txs ≡ s.txs
unfolding apply_input get_state set_state
apply_input-txs inp s = ground arith

apply_inputs-txs : (inps : List StateInput) (s : Ledger) → (apply_inputs inps s).1.txs ≡ s.txs
unfolding apply_inputs
apply_inputs-txs [] s = refl
apply_inputs-txs (inp ∷ inps) s =
    ground (arith, apply_input-txs inp s, apply_inputs-txs inps (apply_input inp s).1)

apply_output-txs :
    (key : ℕ → ℕ) (blockhash txid : ℕ) (out : StateOutput) (s : Ledger)
    → (apply_output key blockhash txid out s).1.txs ≡ s.txs
unfolding apply_output set_tx_topo_inc set_state
apply_output-txs key blockhash txid out s = grind (
  arith,
  λ (t : Ledger).
      when_pos-IsSame out.kind (apply_pos_reward key blockhash out) t
        (apply_pos_reward-IsSame key blockhash out t),
)

pub apply_outputs-txs :
    (key : ℕ → ℕ) (blockhash txid : ℕ) (outs : List StateOutput) (s : Ledger)
    → (apply_tx_outputs_to_state key blockhash txid outs s).1.txs ≡ s.txs
unfolding apply_tx_outputs_to_state
apply_outputs-txs key blockhash txid [] s = refl
apply_outputs-txs key blockhash txid (out ∷ outs) s = ground (
  arith,
  apply_output-txs key blockhash txid out s,
  apply_outputs-txs key blockhash txid outs (apply_output key blockhash txid out s).1,
)

drop_error-txs :
    (key : ℕ → ℕ) (blockhash txid : ℕ) (outs : List StateOutput) (s : Ledger)
    → (drop_error (apply_tx_outputs_to_state key blockhash txid outs) s).1.txs ≡ s.txs
unfolding drop_error
drop_error-txs key blockhash txid outs s = apply_outputs-txs key blockhash txid outs s

set_tx_height-stored :
    (k txid height : ℕ) (s : Ledger) → stored k (set_tx_height txid height s).1 ≡ stored k s
unfolding set_tx_height
set_tx_height-stored k txid height s = elim (Option-cases (lookup txid s.txs)) [
  | inl absent ↦ ground arith
  | inr (e, known) ↦ ground (arith, lookup-insert k txid (record e { height = height }) s.txs)
]

finish_tx-stored :
    (k : ℕ) (key : ℕ → ℕ) (tx : Transaction) (signer height blockhash txid : ℕ) (st : State) (d : ℕ)
    (s : Ledger)
    → stored k (finish_tx key tx signer height blockhash txid st d s).1 ≡ stored k s
unfolding finish_tx set_state set_tx_topo_out
finish_tx-stored k key tx signer height blockhash txid st d s =
    grind (arith, apply_inputs-txs, drop_error-txs, set_tx_height-stored)

-- Applying a transaction, however it ends, changes at most the height of an entry.
pub apply_tx_to_state-stored :
    (k : ℕ) (key : ℕ → ℕ) (tx : Transaction) (signer height blockhash txid : ℕ) (s : Ledger)
    → stored k (apply_tx_to_state key tx signer height blockhash txid s).1 ≡ stored k s
unfolding apply_tx_to_state get_state
apply_tx_to_state-stored k key tx signer height blockhash txid s =
    grind (arith, version_steps-IsSame, finish_tx-stored)
