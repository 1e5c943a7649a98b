-- ===== src/Transaction/Validity/Fees.antt =====
-- What the partial verification guarantees.
use virel_blockchain.Base.{
  ℕ, ◌+◌, ◌*◌, ◌≤◌, ◌<◌, ◌^◌, ◌≡◌, refl, ◌≢◌, Bool, true, Option, none, some, Option-cases, inl,
  inr, List, [], ◌∷◌, Result, ok, err, panic, arith, add64,
}
use virel_blockchain.Transaction.{
  StateOutput, Transaction, invalid_address, TransactionData, transfer, register_delegate,
  set_delegate, stake, unstake,
}
use virel_blockchain.Transaction.Amounts.{total_amount, state_outputs, get_virtual_size}
use virel_blockchain.Transaction.Balance.{
  IsWordTransaction, sum_outputs, IsBalanced, total_amount-IsBalanced,
}
use virel_blockchain.Transaction.Validity.{
  Invalid, max_tx_size, data_prevalidate, version_allowed, fee_rate, state_sum, check_sums,
  prevalidate,
}

state_sum_exact :
    (s : ℕ) (os : List StateOutput)
    → s + sum_outputs os < 2 ^ 64
    → state_sum s os ≡ s + sum_outputs os
unfolding state_sum
state_sum_exact s [] h = omega arith
state_sum_exact s (o ∷ os) h =
    rw (state_sum_exact (add64 s o.amount) os (omega arith)) (omega arith)

abbrev total_outcome : Option ℕ → Result Invalid (Unit {0})
total_outcome none = err Invalid.amount_overflow
total_outcome (some n) = ok tt

-- On words the sums agree whenever the total is computed: the last check fails only on an overflow of the total.
check_sums_lem :
    (key : ℕ → ℕ) (t : Transaction)
    → IsWordTransaction t
    → check_sums key t ≡ total_outcome (total_amount t)
unfolding check_sums
check_sums_lem key t w = elim (Option-cases (total_amount t)) [
  | inl e ↦ rw (check_sums, e) refl
  | inr (n, e) ↦
      let (outs, eq, b) = total_amount-IsBalanced key t (key t.signer) n w e in
      let word = b.total_word in
      let sums = b.outputs_total in
      let exact = state_sum_exact t.fee outs (omega arith) in
      rw (check_sums, e, eq) (ground (arith, exact, sums))
]

-- What an accepted transaction satisfies: its size is bounded, its version is one of the height's, its
-- fee pays for every byte, and `total`, the sum of its inputs and of its outputs with the fee, is a word.
pub record IsAccepted (key : ℕ → ℕ) (verify : Transaction → Bool) (height : ℕ) (t : Transaction)
    (total : ℕ) (outs : List StateOutput) : Type 0 where
  pub small : get_virtual_size t ≤ max_tx_size
  pub version : version_allowed height t.version ≡ true
  pub signer : key t.signer ≢ invalid_address
  pub pays : fee_rate height * get_virtual_size t ≤ t.fee
  pub signed : verify t ≡ true
  pub data_valid : data_prevalidate t.body t ≡ none
  pub outputs : state_outputs t.body t (key t.signer) ≡ some outs
  pub balanced : IsBalanced key t (key t.signer) total outs

-- A transaction of words that Prevalidate accepts is at most 2048 bytes of virtual size, has a version
-- of its height, a signer with a valid address, a valid signature and valid data, pays the rate for
-- each byte, and has inputs that add up to its outputs and the fee without wrapping.
pub prevalidate-IsAccepted :
    (key : ℕ → ℕ) (verify : Transaction → Bool) (height : ℕ) (t : Transaction)
    → IsWordTransaction t
    → prevalidate key verify height t ≡ ok tt
    → (total : ℕ) × (outs : List StateOutput) × IsAccepted key verify height t total outs
unfolding prevalidate
prevalidate-IsAccepted key verify height t w e = elim (Option-cases (total_amount t)) [
  | inl none_yet ↦ absurd (ground (arith, check_sums_lem key t w))
  | inr (n, some_n) ↦
      let (outs, eq, b) = total_amount-IsBalanced key t (key t.signer) n w some_n in
      (
        n,
        outs,
        record {
          small = ground arith;
          version = ground arith;
          signer = ground arith;
          pays = ground arith;
          signed = ground arith;
          data_valid = ground arith;
          outputs = eq;
          balanced = b;
        },
      )
]

data_never_sums :
    (d : TransactionData) (t : Transaction) → data_prevalidate d t ≢ some Invalid.sums_differ
unfolding data_prevalidate
data_never_sums (transfer outputs) t = ground arith
data_never_sums (register_delegate name id) t = ground arith
data_never_sums (set_delegate delegate_id previous) t = ground arith
data_never_sums (stake amount delegate_id prev_unlock) t = ground arith
data_never_sums (unstake amount delegate_id) t = ground arith

-- For a transaction of words, Prevalidate never panics in StateOutputs, and never reports that the sums
-- differ ("this should never happen"): the checks before exclude both.
pub prevalidate_sums_agree :
    (key : ℕ → ℕ) (verify : Transaction → Bool) (height : ℕ) (t : Transaction)
    → IsWordTransaction t
    → (prevalidate key verify height t ≢ panic)
      × (prevalidate key verify height t ≢ err Invalid.sums_differ)
unfolding prevalidate
prevalidate_sums_agree key verify height t w = (
  ground (arith, check_sums_lem key t w),
  ground (arith, check_sums_lem key t w, data_never_sums t.body t),
)
