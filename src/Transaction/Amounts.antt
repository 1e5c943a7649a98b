-- ===== src/Transaction/Amounts.antt =====
-- TotalAmount, StateInputs, StateOutputs and VSize of transaction/tx_data.go, and those of
-- transaction/transaction.go that call them. An error of TotalAmount is `none`; a panic of
-- StateOutputs is `none`. `from_pub_key` is address.FromPubKey, a hash of the key.
use virel_blockchain.Base.{
  ℕ, ◌-◌, Option, none, some, List, [], ◌∷◌, ltb, if◌then◌else◌, add64, mul64, length,
}
use virel_blockchain.Config.{register_delegate_burn, max_tx_per_block}
use virel_blockchain.Transaction.{
  Output, StateInput, in_normal, in_unstake, StateOutput, out_normal, out_stake, TransactionData,
  transfer, register_delegate, set_delegate, stake, unstake, Transaction, invalid_address,
  new_delegate_address,
}

-- The loop of Transfer.TotalAmount: `s` is the sum so far.
unfoldable pub sum_loop : ℕ → List Output → Option ℕ
sum_loop s [] = some s
sum_loop s (v ∷ vs) =
    let rest = sum_loop (add64 s v.amount) vs in if ltb (add64 s v.amount) s then none else rest

abbrev register_delegate_total_amount : Option ℕ
register_delegate_total_amount = some register_delegate_burn

abbrev set_delegate_total_amount : Option ℕ
set_delegate_total_amount = some 0

abbrev stake_total_amount : (amount : ℕ) → Option ℕ
stake_total_amount amount = some amount

abbrev unstake_total_amount : (amount fee : ℕ) → Option ℕ
unstake_total_amount amount fee = if ltb amount fee then none else some (amount - fee)

-- TransactionData.TotalAmount, which reads the fee of its transaction.
unfoldable pub data_total_amount : TransactionData → ℕ → Option ℕ
data_total_amount (transfer outputs) fee = sum_loop 0 outputs
data_total_amount (register_delegate name id) fee = register_delegate_total_amount
data_total_amount (set_delegate delegate_id previous) fee = set_delegate_total_amount
data_total_amount (stake amount delegate_id prev_unlock) fee = stake_total_amount amount
data_total_amount (unstake amount delegate_id) fee = unstake_total_amount amount fee

-- Transaction.TotalAmount: with the fee.
unfoldable pub total_amount : Transaction → Option ℕ
total_amount t = elim (data_total_amount t.body t.fee) [
  | none ↦ none
  | some amt ↦ if ltb (add64 amt t.fee) amt then none else some (add64 amt t.fee)
]

-- `totamt, _ := t.TotalAmount(tx)`: an error leaves zero.
abbrev or_zero : Option ℕ → ℕ
or_zero none = 0
or_zero (some n) = n

abbrev pub normal_input : ℕ → ℕ → StateInput
normal_input amount sender = record {
  amount = amount;
  sender = sender;
  kind = in_normal;
  extra_data = 0;
}

abbrev register_delegate_inputs : Transaction → (sender : ℕ) → List StateInput
register_delegate_inputs tx sender = normal_input (add64 tx.fee register_delegate_burn) sender ∷ []

abbrev set_delegate_inputs : Transaction → (sender : ℕ) → List StateInput
set_delegate_inputs tx sender = normal_input tx.fee sender ∷ []

abbrev stake_inputs : (from_pub_key : ℕ → ℕ) → (amount : ℕ) → Transaction → List StateInput
stake_inputs from_pub_key amount tx =
    normal_input (add64 amount tx.fee) (from_pub_key tx.signer) ∷ []

abbrev unstake_inputs : (amount delegate_id : ℕ) → List StateInput
unstake_inputs amount delegate_id =
    record {
      amount = amount;
      sender = new_delegate_address delegate_id;
      kind = in_unstake;
      extra_data = delegate_id;
    }
    ∷ []

unfoldable pub state_inputs :
    (from_pub_key : ℕ → ℕ) → TransactionData → Transaction → ℕ → List StateInput
state_inputs from_pub_key (transfer outputs) tx sender =
    normal_input (add64 (or_zero (sum_loop 0 outputs)) tx.fee) sender ∷ []
state_inputs from_pub_key (register_delegate name id) tx sender = register_delegate_inputs tx sender
state_inputs from_pub_key (set_delegate delegate_id previous) tx sender =
    set_delegate_inputs tx sender
state_inputs from_pub_key (stake amount delegate_id prev_unlock) tx sender =
    stake_inputs from_pub_key amount tx
state_inputs from_pub_key (unstake amount delegate_id) tx sender = unstake_inputs amount delegate_id

abbrev pub transfer_output : Output → StateOutput
transfer_output v = record {
  kind = out_normal;
  amount = v.amount;
  recipient = v.recipient;
  payment_id = v.payment_id;
  extra_data = 0;
}

unfoldable pub transfer_outputs : List Output → List StateOutput
transfer_outputs [] = []
transfer_outputs (v ∷ vs) = transfer_output v ∷ transfer_outputs vs

abbrev register_delegate_outputs : List StateOutput
register_delegate_outputs =
    record {
      kind = out_normal;
      amount = register_delegate_burn;
      recipient = invalid_address;
      payment_id = 0;
      extra_data = 0;
    }
    ∷ []

abbrev set_delegate_outputs : List StateOutput
set_delegate_outputs = []

abbrev stake_outputs : (amount delegate_id : ℕ) → List StateOutput
stake_outputs amount delegate_id =
    record {
      kind = out_stake;
      amount = amount;
      recipient = new_delegate_address delegate_id;
      payment_id = 0;
      extra_data = delegate_id;
    }
    ∷ []

abbrev unstake_outputs : (amount : ℕ) → Transaction → (sender : ℕ) → Option (List StateOutput)
unstake_outputs amount tx sender =
    if ltb amount tx.fee
    then none
    else some (
        record {
          kind = out_normal;
          amount = amount - tx.fee;
          recipient = sender;
          payment_id = 0;
          extra_data = 0;
        }
        ∷ [])

unfoldable pub state_outputs : TransactionData → Transaction → ℕ → Option (List StateOutput)
state_outputs (transfer outputs) tx sender = some (transfer_outputs outputs)
state_outputs (register_delegate name id) tx sender = some register_delegate_outputs
state_outputs (set_delegate delegate_id previous) tx sender = some set_delegate_outputs
state_outputs (stake amount delegate_id prev_unlock) tx sender =
    some (stake_outputs amount delegate_id)
state_outputs (unstake amount delegate_id) tx sender = unstake_outputs amount tx sender

-- address.SIZE + 1 + 1, and the sizes of key, signature and three one-byte fields.
abbrev pub output_overhead : ℕ
output_overhead = 24

abbrev pub base_overhead : ℕ
base_overhead = 99

abbrev register_delegate_vsize : (name : List ℕ) → ℕ
register_delegate_vsize name = add64 16 (length name)

abbrev set_delegate_vsize : ℕ
set_delegate_vsize = max_tx_per_block

abbrev stake_vsize : ℕ
stake_vsize = 256

abbrev unstake_vsize : ℕ
unstake_vsize = 8

unfoldable pub vsize : TransactionData → ℕ
vsize (transfer outputs) = mul64 (length outputs) output_overhead
vsize (register_delegate name id) = register_delegate_vsize name
vsize (set_delegate delegate_id previous) = set_delegate_vsize
vsize (stake amount delegate_id prev_unlock) = stake_vsize
vsize (unstake amount delegate_id) = unstake_vsize

unfoldable pub get_virtual_size : Transaction → ℕ
unfolding vsize
get_virtual_size t = add64 base_overhead (vsize t.body)
