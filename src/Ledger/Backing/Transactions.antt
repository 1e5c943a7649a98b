-- ===== src/Ledger/Backing/Transactions.antt =====
-- A whole transaction keeps the staked amount backed.
use virel_blockchain.Base.{
  ℕ, ◌≡◌, refl, ap, sym, subst, false, List, [], ◌∷◌, arith, ◌==◌, add64, bind_at, bind_at_keeps,
  ◌>>◌, Option-cases, Bool-cases, inl, inr, All,
}
use virel_blockchain.Base.Dict.{lookup, insert}
use virel_blockchain.Chaintype.{State, Delegate}
use virel_blockchain.Transaction
use virel_blockchain.Transaction.{
  StateInput, StateOutput, StateOutputType, TransactionData, transfer, register_delegate, stake,
  unstake, Transaction,
}
use virel_blockchain.Transaction.Amounts.{state_inputs, state_outputs}
use virel_blockchain.Transaction.Balance.{IsWordTransaction, IsWordData}
use virel_blockchain.Ledger.{
  Ledger, Do, topo_key, get_state, set_state, set_delegate, set_tx_topo_inc, set_tx_topo_out,
  set_tx_height, drop_error,
}
use virel_blockchain.Ledger.Outputs.{apply_output, apply_tx_outputs_to_state}
use virel_blockchain.Ledger.Rewards.{apply_pos_reward}
use virel_blockchain.Ledger.Apply.{
  stake_step, unstake_step, register_step, set_delegate_step, version_steps, stake_at_version,
  unstake_at_version, register_at_version, set_delegate_at_version, apply_input, apply_inputs,
  finish_tx, apply_tx_to_state,
}
use virel_blockchain.Ledger.Coins.{IsPlain, when_pos_plain}
use virel_blockchain.Ledger.Coins.Transactions.{state_outputs-IsPlain}
use virel_blockchain.Ledger.Backing.{IsBacked, IsBacked-same, registered-IsBacked}
use virel_blockchain.Ledger.Backing.Steps.{apply_stake-IsBacked, apply_unstake-IsBacked}

stake_step-IsBacked :
    (d : TransactionData) (signer txid : ℕ) (st : State) (s : Ledger)
    → IsWordData d
    → IsBacked s
    → IsBacked (stake_step d signer txid st s).1
unfolding stake_step
stake_step-IsBacked (stake a i p) signer txid st s w b =
    grind (arith, apply_stake-IsBacked a i p signer txid false s w b, b)
stake_step-IsBacked (transfer os) signer txid st s w b = b
stake_step-IsBacked _ signer txid st s w b = b

unstake_step-IsBacked :
    (d : TransactionData) (signer : ℕ) (st : State) (s : Ledger)
    → IsBacked s
    → IsBacked (unstake_step d signer st s).1
unfolding unstake_step
unstake_step-IsBacked (unstake a i) signer st s b =
    grind (arith, apply_unstake-IsBacked a i signer false 0 s b, b)
unstake_step-IsBacked _ signer st s b = b

-- The delegates and the statistics stay as they are.
record IsUntouched (s t : Ledger) : Type 0 where
  delegates_same : t.delegates ≡ s.delegates
  stats_same : t.stats ≡ s.stats

untouched-IsBacked : (s t : Ledger) → IsUntouched s t → IsBacked s → IsBacked t
untouched-IsBacked s t u b =
    IsBacked-same s t u.delegates_same (ap (λ x. x.staked_amount) u.stats_same) b

apply_input-IsUntouched : (inp : StateInput) (s : Ledger) → IsUntouched s (apply_input inp s).1
unfolding apply_input get_state set_state
apply_input-IsUntouched inp s = ground arith

apply_inputs-IsUntouched :
    (inps : List StateInput) (s : Ledger) → IsUntouched s (apply_inputs inps s).1
unfolding apply_inputs
apply_inputs-IsUntouched [] s = record { delegates_same = refl; stats_same = refl }
apply_inputs-IsUntouched (inp ∷ inps) s =
    ground
      (arith, apply_input-IsUntouched inp s, apply_inputs-IsUntouched inps (apply_input inp s).1)

apply_output-IsUntouched :
    (key : ℕ → ℕ) (blockhash txid : ℕ) (out : StateOutput) (s : Ledger)
    → IsPlain out
    → IsUntouched s (apply_output key blockhash txid out s).1
unfolding apply_output set_tx_topo_inc set_state
apply_output-IsUntouched key blockhash txid out s plain =
    ground
      (arith, λ (t : Ledger). when_pos_plain out.kind (apply_pos_reward key blockhash out) t plain)

apply_outputs-IsUntouched :
    (key : ℕ → ℕ) (blockhash txid : ℕ) (outs : List StateOutput) (s : Ledger)
    → All IsPlain outs
    → IsUntouched s (apply_tx_outputs_to_state key blockhash txid outs s).1
unfolding apply_tx_outputs_to_state
apply_outputs-IsUntouched key blockhash txid [] s p = record {
  delegates_same = refl;
  stats_same = refl;
}
apply_outputs-IsUntouched key blockhash txid (out ∷ outs) s (p, ps) = ground (
  arith,
  apply_output-IsUntouched key blockhash txid out s p,
  apply_outputs-IsUntouched key blockhash txid outs (apply_output key blockhash txid out s).1 ps,
)

register_step-IsBacked :
    (d : TransactionData) (owner_key : ℕ) (s : Ledger)
    → IsBacked s
    → IsBacked (register_step d owner_key s).1
unfolding register_step set_delegate
register_step-IsBacked (register_delegate name id) owner_key s b =
    elim (Option-cases (lookup id s.delegates)) [
      | inl absent ↦
          let new : Delegate = record { id = id; owner = owner_key; name = name; funds = [] } in
          let t : Ledger = record s { delegates = insert id new s.delegates } in
          let done : (register_step (register_delegate name id) owner_key s).1 ≡ t = ground arith in
          subst IsBacked (sym done) (registered-IsBacked s t new b absent refl refl refl)
      | inr (d, known) ↦
          let kept : (register_step (register_delegate name id) owner_key s).1 ≡ s = ground arith in
          subst IsBacked (sym kept) b
    ]
register_step-IsBacked _ owner_key s b = b

set_delegate_step-same :
    (d : TransactionData) (signer : ℕ) (st : State) (s : Ledger)
    → (set_delegate_step d signer st s).1 ≡ s
unfolding set_delegate_step
set_delegate_step-same (Transaction.set_delegate i p) signer st s = ground arith
set_delegate_step-same _ signer st s = refl

module _ (tx : Transaction) (signer txid : ℕ) (st : State) (words : IsWordTransaction tx) where
  stake_at_version-IsBacked :
      (s : Ledger) → IsBacked s → IsBacked (stake_at_version tx signer txid st s).1
  unfolding stake_at_version
  stake_at_version-IsBacked s b =
      grind (arith, stake_step-IsBacked tx.body signer txid st s words.body_words b, b)

  unstake_at_version-IsBacked :
      (s : Ledger) → IsBacked s → IsBacked (unstake_at_version tx signer st s).1
  unfolding unstake_at_version
  unstake_at_version-IsBacked s b = grind (arith, unstake_step-IsBacked tx.body signer st s b, b)

  register_at_version-IsBacked : (s : Ledger) → IsBacked s → IsBacked (register_at_version tx s).1
  unfolding register_at_version
  register_at_version-IsBacked s b = grind (arith, register_step-IsBacked tx.body tx.signer s b, b)

  set_delegate_at_version-same : (s : Ledger) → (set_delegate_at_version tx signer st s).1 ≡ s
  unfolding set_delegate_at_version
  set_delegate_at_version-same s = ground (arith, set_delegate_step-same tx.body signer st s)

  version_steps-IsBacked :
      (s : Ledger) → IsBacked s → IsBacked (version_steps tx signer txid st s).1
  unfolding version_steps
  version_steps-IsBacked s b =
      let s1 : Ledger = (stake_at_version tx signer txid st s).1 in
      let s2 : Ledger = (unstake_at_version tx signer st s1).1 in
      let s3 : Ledger = (register_at_version tx s2).1 in
      let b1 = stake_at_version-IsBacked s b in
      let b2 = unstake_at_version-IsBacked s1 b1 in
      let b3 = register_at_version-IsBacked s2 b2 in
      bind_at_keeps IsBacked (stake_at_version tx signer txid st s).0 s1
        (λ _.
          unstake_at_version tx signer st
          >> (register_at_version tx >> set_delegate_at_version tx signer st))
        b1
        (λ _ _.
          bind_at_keeps IsBacked (unstake_at_version tx signer st s1).0 s2
            (λ _. register_at_version tx >> set_delegate_at_version tx signer st) b2
            (λ _ _.
              bind_at_keeps IsBacked (register_at_version tx s2).0 s3
                (λ _. set_delegate_at_version tx signer st) b3
                (λ _ _. subst IsBacked (sym (set_delegate_at_version-same s3)) b3)))

drop_error-IsUntouched :
    (key : ℕ → ℕ) (blockhash txid : ℕ) (outs : List StateOutput) (s : Ledger)
    → All IsPlain outs
    → IsUntouched s (drop_error (apply_tx_outputs_to_state key blockhash txid outs) s).1
unfolding drop_error
drop_error-IsUntouched key blockhash txid outs s p =
    apply_outputs-IsUntouched key blockhash txid outs s p

set_tx_height-IsUntouched :
    (txid height : ℕ) (s : Ledger) → IsUntouched s (set_tx_height txid height s).1
unfolding set_tx_height
set_tx_height-IsUntouched txid height s = ground arith

finish_tx-IsUntouched :
    (key : ℕ → ℕ) (tx : Transaction) (signer height blockhash txid : ℕ) (st : State) (i : ℕ)
    (s : Ledger)
    → IsUntouched s (finish_tx key tx signer height blockhash txid st i s).1
unfolding finish_tx set_state set_tx_topo_out
finish_tx-IsUntouched key tx signer height blockhash txid st i s =
    let s1 : Ledger = record s {
      states =
          insert signer (record st { last_nonce = add64 st.last_nonce 1; delegate_id = i })
            s.states;
    } in
    let s2 : Ledger = (apply_inputs (state_inputs key tx.body tx signer) s1).1 in
    let inputs = apply_inputs-IsUntouched (state_inputs key tx.body tx signer) s1 in
    elim (Option-cases (state_outputs tx.body tx signer)) [
      | inl bad ↦ ground (arith, inputs)
      | inr (outs, computed) ↦
          let s3 : Ledger = (drop_error (apply_tx_outputs_to_state key blockhash txid outs) s2).1 in
          let s4 : Ledger = record s3 {
            out_txs = insert (topo_key signer (add64 st.last_nonce 1)) txid s3.out_txs;
          } in
          ground (
            arith,
            inputs,
            computed,
            drop_error-IsUntouched key blockhash txid outs s2
                (state_outputs-IsPlain tx.body tx signer outs computed),
            set_tx_height-IsUntouched txid height s4,
          )
    ]

-- A transaction whose amounts are words, however its application ends, leaves the staked amount of the
-- statistics the sum of all delegates' funds, and every delegate under its own identifier.
pub apply_tx_to_state-IsBacked :
    (key : ℕ → ℕ) (tx : Transaction) (signer height blockhash txid : ℕ) (s : Ledger)
    → IsWordTransaction tx
    → IsBacked s
    → IsBacked (apply_tx_to_state key tx signer height blockhash txid s).1
unfolding apply_tx_to_state get_state
apply_tx_to_state-IsBacked key tx signer height blockhash txid s w b =
    elim (Option-cases (lookup signer s.states)) [
      | inl absent ↦
          let kept : (apply_tx_to_state key tx signer height blockhash txid s).1 ≡ s =
            ground arith in
          subst IsBacked (sym kept) b
      | inr (st, known) ↦ elim (Bool-cases (tx.nonce == add64 st.last_nonce 1)) [
        | inl next ↦
            let s1 : Ledger = (version_steps tx signer txid st s).1 in
            let b1 = version_steps-IsBacked tx signer txid st w s b in
            let finish : ℕ → Do (Unit {0}) = finish_tx key tx signer height blockhash txid st in
            let steps : (apply_tx_to_state key tx signer height blockhash txid s).1
                ≡ (bind_at (version_steps tx signer txid st s).0 s1 finish).1 =
              ground arith in
            subst IsBacked (sym steps) (
              bind_at_keeps IsBacked (version_steps tx signer txid st s).0 s1 finish b1 (λ i _.
                untouched-IsBacked s1 _
                  (finish_tx-IsUntouched key tx signer height blockhash txid st i s1) b1))
        | inr bad ↦
            let kept : (apply_tx_to_state key tx signer height blockhash txid s).1 ≡ s =
              ground arith in
            subst IsBacked (sym kept) b
      ]
    ]
