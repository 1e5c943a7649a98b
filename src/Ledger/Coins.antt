-- ===== src/Ledger/Coins.antt =====
-- The coins in the account states, which GetSupply adds up, under the steps of a transaction.
pub mod Versions
pub mod Transactions
pub mod Stored
pub mod Blocks
use virel_blockchain.Base.{
  ℕ, ◌+◌, ◌-◌, ◌≤◌, ◌<◌, ◌^◌, ◌≡◌, refl, ap, ◌∙◌, ◌≢◌, inl, inr, Option, none, some, List, [], ◌∷◌,
  Result, ok, err, panic, arith, IsU64, add64, safe_add, safe_add_exact, Option-cases, All, ltb,
  ◌==◌, if◌then◌else◌,
}
use virel_blockchain.Base.Dict.{
  Dict, lookup, insert, sum_by, sum_by-insert, sum_by-insert_new, le-sum_by,
}
use virel_blockchain.Chaintype.{State, empty_state}
use virel_blockchain.Transaction.{
  StateInput, StateOutput, StateOutputType, out_normal, out_coinbase_pos,
}
use virel_blockchain.Transaction.Balance.{sum_inputs, sum_outputs}
use virel_blockchain.Ledger.{
  Ledger, IsSame, Do, get_state, set_state, set_tx_topo_inc, topo_key, get_delegate, set_delegate,
  set_delegate_history, stats_staked,
}
use virel_blockchain.Ledger.Rewards.{apply_pos_reward}
use virel_blockchain.Ledger.Apply.{apply_input, apply_inputs}
use virel_blockchain.Ledger.Outputs.{
  apply_output, apply_tx_outputs_to_state, when_pos, state_or_empty,
}

abbrev pub balances : Dict State → ℕ
balances = sum_by (λ st. st.balance)

abbrev pub coins : Ledger → ℕ
coins s = balances s.states

apply_input-coins :
    (inp : StateInput) (s : Ledger)
    → (apply_input inp s).0 ≡ ok tt
    → coins (apply_input inp s).1 + inp.amount ≡ coins s
unfolding apply_input get_state set_state
apply_input-coins inp s e = elim (Option-cases (lookup inp.sender s.states)) [
  | inl absent ↦ ground arith
  | inr (st, known) ↦ ground (
    arith,
    sum_by-insert (λ (v : State). v.balance) inp.sender
        (record st { balance = st.balance - inp.amount }) st s.states known,
  )
]

-- Where the inputs are taken, the coins fall by their sum.
pub apply_inputs-coins :
    (inps : List StateInput) (s : Ledger)
    → (apply_inputs inps s).0 ≡ ok tt
    → coins (apply_inputs inps s).1 + sum_inputs inps ≡ coins s
unfolding apply_inputs
apply_inputs-coins [] s e = omega arith
apply_inputs-coins (inp ∷ inps) s e =
    ground (arith, apply_input-coins inp s, apply_inputs-coins inps (apply_input inp s).1)

-- The distribution of a delegate's reward leaves the account states and the transactions alone, however it ends.
pub apply_pos_reward-IsSame :
    (from_pub_key : ℕ → ℕ) (blockhash : ℕ) (out : StateOutput) (s : Ledger)
    → IsSame s (apply_pos_reward from_pub_key blockhash out s).1
unfolding apply_pos_reward get_delegate set_delegate set_delegate_history stats_staked
apply_pos_reward-IsSame key blockhash out s = ground arith

-- The recipient's state as an output finds it, and the ledger once it is credited.
abbrev recipient_state : StateOutput → Ledger → State
recipient_state out s = state_or_empty (lookup out.recipient s.states)

abbrev credit : ℕ → StateOutput → Ledger → Ledger
credit txid out s =
    let rec = recipient_state out s in
    let incoming = add64 rec.last_incoming 1 in
    record s {
      in_txs = insert (topo_key out.recipient incoming) txid s.in_txs;
      states =
          insert out.recipient
            (record rec { balance = rec.balance + out.amount; last_incoming = incoming }) s.states;
    }

balance-le : (k : ℕ) (d : Dict State) → (state_or_empty (lookup k d)).balance ≤ balances d
balance-le k d = elim (Option-cases (lookup k d)) [
  | inl absent ↦ rw absent (omega arith)
  | inr (st, known) ↦ rw known (le-sum_by (λ (v : State). v.balance) k d known)
]

balances-insert :
    (k : ℕ) (v : State) (d : Dict State)
    → balances (insert k v d) + (state_or_empty (lookup k d)).balance ≡ balances d + v.balance
balances-insert k v d = elim (Option-cases (lookup k d)) [
  | inl absent ↦
      rw absent (omega (arith, sum_by-insert_new (λ (x : State). x.balance) k v d absent))
  | inr (st, known) ↦ rw known (sum_by-insert (λ (x : State). x.balance) k v st d known)
]

-- With room for the amount, an output credits its recipient; only a staking reward does more.
apply_output-credit :
    (key : ℕ → ℕ) (blockhash txid : ℕ) (out : StateOutput) (s : Ledger)
    → coins s + out.amount < 2 ^ 64
    → apply_output key blockhash txid out s
      ≡ when_pos out.kind (apply_pos_reward key blockhash out) (credit txid out s)
unfolding apply_output set_tx_topo_inc set_state
apply_output-credit key blockhash txid out s room = rw (
    safe_add_exact (recipient_state out s).balance out.amount
      (omega (arith, balance-le out.recipient s.states)) (omega arith)
      (omega (arith, balance-le out.recipient s.states)))

pub when_pos-IsSame :
    (k : StateOutputType) (m : Do (Unit {0})) (s : Ledger)
    → IsSame s (m s).1
    → IsSame s (when_pos k m s).1
when_pos-IsSame out_normal m s h = ground arith
when_pos-IsSame out_coinbase_pos m s h = h
when_pos-IsSame _ m s h = ground arith

pub apply_output-coins :
    (key : ℕ → ℕ) (blockhash txid : ℕ) (out : StateOutput) (s : Ledger)
    → coins s + out.amount < 2 ^ 64
    → coins (apply_output key blockhash txid out s).1 ≡ coins s + out.amount
apply_output-coins key blockhash txid out s room =
    rw (apply_output-credit key blockhash txid out s room) (
      ap balances
        (when_pos-IsSame out.kind (apply_pos_reward key blockhash out) (credit txid out s)
          (apply_pos_reward-IsSame key blockhash out (credit txid out s))).states_same
      ∙ omega (
        arith,
        balances-insert out.recipient
            (record (recipient_state out s) {
              balance = (recipient_state out s).balance + out.amount;
              last_incoming = add64 (recipient_state out s).last_incoming 1;
            })
            s.states,
      ))

-- Where the outputs are applied, the coins rise by their sum.
pub apply_outputs-coins :
    (key : ℕ → ℕ) (blockhash txid : ℕ) (outs : List StateOutput) (s : Ledger)
    → coins s + sum_outputs outs < 2 ^ 64
    → (apply_tx_outputs_to_state key blockhash txid outs s).0 ≡ ok tt
    → coins (apply_tx_outputs_to_state key blockhash txid outs s).1 ≡ coins s + sum_outputs outs
unfolding apply_tx_outputs_to_state
apply_outputs-coins key blockhash txid [] s room e = omega arith
apply_outputs-coins key blockhash txid (out ∷ outs) s room e = ground (
  arith,
  apply_output-coins key blockhash txid out s (omega arith),
  apply_outputs-coins key blockhash txid outs (apply_output key blockhash txid out s).1,
)

abbrev pub IsPlain : StateOutput → Type 0
IsPlain out = out.kind ≢ out_coinbase_pos

pub when_pos_plain :
    (k : StateOutputType) (m : Do (Unit {0})) (s : Ledger)
    → k ≢ out_coinbase_pos
    → when_pos k m s ≡ (ok tt, s)
when_pos_plain out_normal m s h = refl
when_pos_plain out_coinbase_pos m s h = absurd (h refl)
when_pos_plain _ m s h = refl

-- With room for them, outputs that are no staking reward never fail.
pub apply_outputs_plain :
    (key : ℕ → ℕ) (blockhash txid : ℕ) (outs : List StateOutput) (s : Ledger)
    → coins s + sum_outputs outs < 2 ^ 64
    → All IsPlain outs
    → (apply_tx_outputs_to_state key blockhash txid outs s).0 ≡ ok tt
unfolding apply_tx_outputs_to_state
apply_outputs_plain key blockhash txid [] s room p = refl
apply_outputs_plain key blockhash txid (out ∷ outs) s room (p, ps) =
    let first : apply_output key blockhash txid out s ≡ (ok tt, credit txid out s) =
      apply_output-credit key blockhash txid out s (omega arith)
      ∙ when_pos_plain out.kind (apply_pos_reward key blockhash out) (credit txid out s) p in
    ground (
      arith,
      first,
      apply_output-coins key blockhash txid out s (omega arith),
      apply_outputs_plain key blockhash txid outs (apply_output key blockhash txid out s).1,
    )
