-- ===== src/Transaction/Balance.antt =====
-- What a transaction takes from its inputs against what it gives to its outputs.
use virel_blockchain.Base.{
  ℕ, ◌+◌, ◌-◌, ◌≡◌, refl, Option, none, some, List, [], ◌∷◌, arith, add64, IsU64, All,
}
use virel_blockchain.Transaction.{
  Output, StateInput, StateOutput, out_normal, TransactionData, transfer, register_delegate,
  set_delegate, stake, unstake, Transaction,
}
use virel_blockchain.Transaction.Amounts.{
  sum_loop, data_total_amount, total_amount, state_inputs, state_outputs, transfer_outputs,
}

abbrev pub sum_inputs : List StateInput → ℕ
sum_inputs [] = 0
sum_inputs (i ∷ is) = i.amount + sum_inputs is

abbrev pub sum_outputs : List StateOutput → ℕ
sum_outputs [] = 0
sum_outputs (o ∷ os) = o.amount + sum_outputs os

abbrev sum_amounts : List Output → ℕ
sum_amounts [] = 0
sum_amounts (o ∷ os) = o.amount + sum_amounts os

-- Every amount of the data is a word.
abbrev pub IsWordData : TransactionData → Type 0
IsWordData (transfer outputs) = All (λ o. IsU64 (o.amount)) outputs
IsWordData (register_delegate name id) = Unit {0}
IsWordData (set_delegate delegate_id previous) = Unit {0}
IsWordData (stake amount delegate_id prev_unlock) = IsU64 amount
IsWordData (unstake amount delegate_id) = IsU64 amount

pub record IsWordTransaction (t : Transaction) : Type 0 where
  pub body_words : IsWordData t.body
  pub fee_word : IsU64 t.fee

sum_loop_exact :
    (s : ℕ) (os : List Output) (n : ℕ)
    → IsU64 s
    → All (λ o. IsU64 (o.amount)) os
    → sum_loop s os ≡ some n
    → (n ≡ s + sum_amounts os) × IsU64 n
unfolding sum_loop
sum_loop_exact s [] n hs h e = ground arith
sum_loop_exact s (o ∷ os) n hs h e = ground (arith, sum_loop_exact (add64 s o.amount) os n)

sum_transfer_outputs : (os : List Output) → sum_outputs (transfer_outputs os) ≡ sum_amounts os
unfolding transfer_outputs
sum_transfer_outputs [] = refl
sum_transfer_outputs (o ∷ os) = omega (arith, sum_transfer_outputs os)

-- What holds of a transaction whose total amount is `n`.
pub record IsBalanced (from_pub_key : ℕ → ℕ) (t : Transaction) (sender n : ℕ)
    (outs : List StateOutput) : Type 0 where
  pub total_word : IsU64 n
  pub inputs_total : sum_inputs (state_inputs from_pub_key t.body t sender) ≡ n
  pub outputs_total : sum_outputs outs + t.fee ≡ n

balanced_at :
    (from_pub_key : ℕ → ℕ) (d : TransactionData) (t : Transaction) (sender n : ℕ)
    → IsWordData d
    → IsU64 t.fee
    → data_total_amount d t.fee ≡ some n
    → IsU64 (n + t.fee)
    → (outs : List StateOutput) × (state_outputs d t sender ≡ some outs)
      × (sum_inputs (state_inputs from_pub_key d t sender) ≡ n + t.fee)
      × (sum_outputs outs ≡ n)
unfolding data_total_amount state_inputs state_outputs
balanced_at key (transfer os) t sender n w f e b =
    let exact = sum_loop_exact 0 os n (omega arith) w e in
    (transfer_outputs os, refl, rw e (omega arith), omega (arith, sum_transfer_outputs os, exact))
balanced_at key (register_delegate name id) t sender n w f e b =
    (_, refl, ground arith, ground arith)
balanced_at key (set_delegate d p) t sender n w f e b = (_, refl, ground arith, ground arith)
balanced_at key (stake a d p) t sender n w f e b = (_, refl, ground arith, ground arith)
balanced_at key (unstake a d) t sender n w f e b = (
  record {
    kind = out_normal;
    amount = a - t.fee;
    recipient = sender;
    payment_id = 0;
    extra_data = 0;
  }
      ∷ [],
  ground arith,
  ground arith,
  ground arith,
)

-- Where the total amount of a transaction of words is computed without an error, the outputs are computed too, the inputs add
-- up to the total, and the outputs with the fee do: no coin is made or lost, and nothing wraps.
pub total_amount-IsBalanced :
    (from_pub_key : ℕ → ℕ) (t : Transaction) (sender n : ℕ)
    → IsWordTransaction t
    → total_amount t ≡ some n
    → (outs : List StateOutput) × (state_outputs t.body t sender ≡ some outs)
      × IsBalanced from_pub_key t sender n outs
unfolding total_amount
total_amount-IsBalanced key t sender n w e = go (data_total_amount t.body t.fee) refl
  where
    go :
        (o : Option ℕ)
        → data_total_amount t.body t.fee ≡ o
        → (outs : List StateOutput) × (state_outputs t.body t sender ≡ some outs)
          × IsBalanced key t sender n outs
    go none d = cc (rw (d, total_amount) at e)
    go (some m) d =
        let fits : (m + t.fee ≡ n) × IsU64 n = ground arith in
        let (outs, eq, ins, sums) =
          balanced_at key t.body t sender m w.body_words w.fee_word d (omega arith) in
        (
          outs,
          eq,
          record { total_word = fits.1; inputs_total = omega arith; outputs_total = omega arith },
        )
