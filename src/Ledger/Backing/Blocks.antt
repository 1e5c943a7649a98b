-- ===== src/Ledger/Backing/Blocks.antt =====
-- A whole block keeps the staked amount backed: ApplyBlockToState of blockchain/blockchain.go.
use virel_blockchain.Base.{
  ℕ, ◌^◌, ◌<◌, ◌≡◌, refl, ap, sym, subst, Option-cases, Bool-cases, Bool, true, false, inl, inr,
  List, [], ◌∷◌, Result, err, arith, ltb, if◌then◌else◌, IsU64, All, add64, bind_at, bind_at_keeps,
  ◌>>◌,
}
use virel_blockchain.Base.Dict.{lookup}
use virel_blockchain.Transaction.{StateOutput}
use virel_blockchain.Transaction.Balance.{sum_outputs}
use virel_blockchain.Block.{Block}
use virel_blockchain.Coinbase.{coinbase_transaction}
use virel_blockchain.Coinbase.Shares.{coinbase_transaction_conserves}
use virel_blockchain.Emission.{reward}
use virel_blockchain.Ledger.{Ledger, Do, Error, get_tx}
use virel_blockchain.Ledger.Apply.{apply_tx_to_state}
use virel_blockchain.Ledger.Outputs.{apply_tx_outputs_to_state}
use virel_blockchain.Ledger.Blocks.{
  Environment, check_next_delegate, delete_entries, set_mempool, apply_transactions,
  coinbase_state_outputs, apply_coinbase, update_sync, apply_block_to_state,
}
use virel_blockchain.Ledger.Coins.Stored.{IsPayable}
use virel_blockchain.Ledger.Coins.Blocks.{
  AllPayable, after-AllPayable, check_next_delegate-same, sum_coinbase_state_outputs,
}
use virel_blockchain.Ledger.Backing.{IsBacked, IsBacked-same}
use virel_blockchain.Ledger.Backing.Transactions.{apply_tx_to_state-IsBacked}
use virel_blockchain.Ledger.Backing.Rewards.{apply_outputs-IsBacked}

sum_outputs-words :
    (os : List StateOutput) → sum_outputs os < 2 ^ 64 → All (λ o. IsU64 (o.amount)) os
sum_outputs-words [] h = tt
sum_outputs-words (o ∷ os) h = (omega arith, sum_outputs-words os (omega arith))

apply_coinbase-IsBacked :
    (env : Environment) (bl : Block) (blockhash fee : ℕ) (s : Ledger)
    → IsBacked s
    → IsBacked (apply_coinbase env bl blockhash fee s).1
unfolding apply_coinbase
apply_coinbase-IsBacked env bl blockhash fee s b =
    elim (Bool-cases (ltb (add64 (reward bl.height) fee) (reward bl.height))) [
      | inl wraps ↦
          let kept : (apply_coinbase env bl blockhash fee s).1 ≡ s = ground arith in
          subst IsBacked (sym kept) b
      | inr exact ↦
          elim (Option-cases
            (coinbase_transaction env.genesis_address bl (add64 (reward bl.height) fee))) [
              | inl bad ↦
                  let kept : (apply_coinbase env bl blockhash fee s).1 ≡ s = ground arith in
                  subst IsBacked (sym kept) b
              | inr (outs, computed) ↦
                  let paid : (apply_coinbase env bl blockhash fee s).1
                      ≡ (apply_tx_outputs_to_state env.from_pub_key blockhash blockhash
                          (coinbase_state_outputs outs) s).1 =
                    ground arith in
                  let total =
                    coinbase_transaction_conserves env.genesis_address bl
                      (add64 (reward bl.height) fee) {outs = outs} (omega arith) computed in
                  subst IsBacked (sym paid) (
                    apply_outputs-IsBacked env.from_pub_key blockhash blockhash
                      (coinbase_state_outputs outs) s
                      (sum_outputs-words (coinbase_state_outputs outs)
                        (omega (arith, total, sum_coinbase_state_outputs outs)))
                      b)
            ]
    ]

if_keeps :
    {A : Type 0} (c : Bool) (x y : Result Error A × Ledger)
    → IsBacked x.1
    → IsBacked y.1
    → IsBacked (if c then x else y).1
if_keeps true x y h k = h
if_keeps false x y h k = k

apply_transactions-IsBacked :
    (env : Environment) (height blockhash total_fee : ℕ) (vs : List ℕ) (s : Ledger)
    → AllPayable s
    → IsBacked s
    → IsBacked (apply_transactions env height blockhash total_fee vs s).1
unfolding apply_transactions get_tx
apply_transactions-IsBacked env height blockhash total_fee [] s all b = b
apply_transactions-IsBacked env height blockhash total_fee (v ∷ vs) s all b =
    elim (Option-cases (lookup v s.txs)) [
      | inl absent ↦
          let kept : (apply_transactions env height blockhash total_fee (v ∷ vs) s).1 ≡ s =
            ground arith in
          subst IsBacked (sym kept) b
      | inr (entry, known) ↦
          let tx = entry.tx in
          let pay : IsPayable tx = all v tx (rw known refl) in
          let key = env.from_pub_key in
          let step = apply_tx_to_state key tx (key tx.signer) height blockhash v s in
          let t : Ledger = step.1 in
          let c : IsBacked t =
            apply_tx_to_state-IsBacked key tx (key tx.signer) height blockhash v s pay.words b in
          let rest =
            apply_transactions-IsBacked env height blockhash (add64 total_fee tx.fee) vs t
              (after-AllPayable env height blockhash tx v s all) c in
          let next : Do ℕ = λ u.
            if ltb (add64 total_fee tx.fee) total_fee
            then (err Error.fee_overflow, u)
            else apply_transactions env height blockhash (add64 total_fee tx.fee) vs u in
          let done : (apply_transactions env height blockhash total_fee (v ∷ vs) s).1
              ≡ (bind_at step.0 t (λ _. next)).1 =
            ground arith in
          subst IsBacked (sym done) (
            bind_at_keeps IsBacked step.0 t (λ _. next) c
              (λ _ _. if_keeps (ltb (add64 total_fee tx.fee) total_fee) _ _ c rest))
    ]

update_sync-IsBacked : (bl : Block) (s : Ledger) → IsBacked s → IsBacked (update_sync bl s).1
unfolding update_sync
update_sync-IsBacked bl s b =
    let same : ((update_sync bl s).1.delegates ≡ s.delegates)
        × ((update_sync bl s).1.stats ≡ s.stats) =
      (ground arith, ground arith) in
    IsBacked-same s (update_sync bl s).1 same.0 (ap (λ x. x.staked_amount) same.1) b

-- Applying a block, however it ends, leaves the staked amount of the statistics the sum of all delegates'
-- funds, and every delegate under its own identifier, if every stored transaction is payable: stakes,
-- unstakes, registrations and the reward of the delegate change both sides alike.
pub apply_block_to_state-IsBacked :
    (env : Environment) (bl : Block) (blockhash : ℕ) (s : Ledger)
    → AllPayable s
    → IsBacked s
    → IsBacked (apply_block_to_state env bl blockhash s).1
unfolding apply_block_to_state set_mempool update_sync
apply_block_to_state-IsBacked env bl blockhash s all b =
    let s1 : Ledger = (set_mempool env (delete_entries bl.transactions s.mempool) s).1 in
    let b1 : IsBacked s1 = IsBacked-same s s1 refl refl b in
    let step = apply_transactions env bl.height blockhash 0 bl.transactions s1 in
    let b2 : IsBacked step.1 =
      apply_transactions-IsBacked env bl.height blockhash 0 bl.transactions s1 all b1 in
    let finish : ℕ → Do (Unit {0}) = λ fee. apply_coinbase env bl blockhash fee >> update_sync bl in
    let whole : (apply_block_to_state env bl blockhash s).1
        ≡ (bind_at (check_next_delegate env bl s).0 s (λ _ _. bind_at step.0 step.1 finish)).1 =
      ground (arith, check_next_delegate-same env bl s) in
    subst IsBacked (sym whole) (
      bind_at_keeps IsBacked (check_next_delegate env bl s).0 s
        (λ _ _. bind_at step.0 step.1 finish) b
        (λ _ _. bind_at_keeps IsBacked step.0 step.1 finish b2 (λ fee _.
          let paid = apply_coinbase env bl blockhash fee step.1 in
          bind_at_keeps IsBacked paid.0 paid.1 (λ _. update_sync bl)
            (apply_coinbase-IsBacked env bl blockhash fee step.1 b2)
            (λ _ _.
              update_sync-IsBacked bl paid.1
                (apply_coinbase-IsBacked env bl blockhash fee step.1 b2)))))
