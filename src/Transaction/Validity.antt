-- ===== src/Transaction/Validity.antt =====
-- The partial verification of a transaction: Prevalidate of transaction/transaction.go and of each kind
-- of data in transaction/tx_data.go. The check of the signature, with the bytes that are signed, and
-- address.FromPubKey are parameters.
pub mod Fees
use virel_blockchain.Base.{
  ℕ, ◌+◌, ◌*◌, Bool, true, false, not, ◌&&◌, ◌||◌, Option, none, some, List, [], ◌∷◌, Result, ok,
  err, panic, ltb, ◌==◌, if◌then◌else◌, add64, mul64, length,
}
use virel_blockchain.Config.{
  max_outputs, min_stake_amount, hardfork_v2_height, hardfork_v3_height, fee_per_byte,
  fee_per_byte_v2,
}
use virel_blockchain.Transaction.{
  StateOutput, TransactionData, transfer, register_delegate, set_delegate, stake, unstake,
  Transaction, invalid_address, tx_version_transfer, tx_version_register_delegate,
  tx_version_set_delegate, tx_version_stake, tx_version_unstake,
}
use virel_blockchain.Transaction.Amounts.{total_amount, state_outputs, get_virtual_size}

-- The errors, one for each message.
pub data Invalid : Type 0 where
  too_large bad_version invalid_signer fee_too_low bad_signature : Invalid
  bad_output_count name_too_long zero_delegate reserved_delegate stake_too_small fee_above_amount :
      Invalid
  amount_overflow sums_differ : Invalid

-- config.TEAM_STAKE_PUBKEY
abbrev pub team_stake_pubkey : ℕ
team_stake_pubkey =
    0x3959_a30c_b836_49dd_3838_9dd6_717c_bada_b6ce_b92c_d9e4_c435_2abf_cf16_8bbf_592e

abbrev pub max_tx_size : ℕ
max_tx_size = 2048

-- Prevalidate of each kind; `none`: no error.
abbrev register_delegate_prevalidate : (name : List ℕ) → (id : ℕ) → Transaction → Option Invalid
register_delegate_prevalidate name id tx =
    if ltb 16 (length name)
    then some Invalid.name_too_long
    else if id == 0
    then some Invalid.zero_delegate
    else if id == 1 && not (tx.signer == team_stake_pubkey)
    then some Invalid.reserved_delegate
    else none

abbrev set_delegate_prevalidate : Option Invalid
set_delegate_prevalidate = none

abbrev stake_prevalidate : (amount : ℕ) → Option Invalid
stake_prevalidate amount =
    if ltb amount min_stake_amount then some Invalid.stake_too_small else none

abbrev unstake_prevalidate : (amount : ℕ) → Transaction → Option Invalid
unstake_prevalidate amount tx = if ltb amount tx.fee then some Invalid.fee_above_amount else none

unfoldable pub data_prevalidate : TransactionData → Transaction → Option Invalid
data_prevalidate (transfer outputs) tx =
    if length outputs == 0 || ltb max_outputs (length outputs)
    then some Invalid.bad_output_count
    else none
data_prevalidate (register_delegate name id) tx = register_delegate_prevalidate name id tx
data_prevalidate (set_delegate delegate_id previous) tx = set_delegate_prevalidate
data_prevalidate (stake amount delegate_id prev_unlock) tx = stake_prevalidate amount
data_prevalidate (unstake amount delegate_id) tx = unstake_prevalidate amount tx

unfoldable pub version_allowed : (height version : ℕ) → Bool
version_allowed height version =
    if ltb height hardfork_v2_height
    then version == 0
    else if ltb height hardfork_v3_height
    then version == 1
    else version == tx_version_transfer
      || version == tx_version_register_delegate
      || version == tx_version_set_delegate
      || version == tx_version_stake
      || version == tx_version_unstake

abbrev pub fee_rate : (height : ℕ) → ℕ
fee_rate height = if ltb height hardfork_v3_height then fee_per_byte else fee_per_byte_v2

-- `stateSum += v.Amount`
unfoldable pub state_sum : ℕ → List StateOutput → ℕ
state_sum s [] = s
state_sum s (v ∷ vs) = state_sum (add64 s v.amount) vs

-- The end of Prevalidate: the sums.
unfoldable pub check_sums : (from_pub_key : ℕ → ℕ) → Transaction → Result Invalid (Unit {0})
check_sums from_pub_key t = elim (total_amount t) [
  | none ↦ err Invalid.amount_overflow
  | some totamt ↦ elim (state_outputs t.body t (from_pub_key t.signer)) [
    | none ↦ panic
    | some atsd ↦ if state_sum t.fee atsd == totamt then ok tt else err Invalid.sums_differ
  ]
]

unfoldable pub prevalidate :
    (from_pub_key : ℕ → ℕ) (verify_signature : Transaction → Bool) (height : ℕ)
    → Transaction
    → Result Invalid (Unit {0})
prevalidate from_pub_key verify_signature height t =
    if ltb max_tx_size (get_virtual_size t)
    then err Invalid.too_large
    else if not (version_allowed height t.version)
    then err Invalid.bad_version
    else if from_pub_key t.signer == invalid_address
    then err Invalid.invalid_signer
    else if ltb t.fee (mul64 (fee_rate height) (get_virtual_size t))
    then err Invalid.fee_too_low
    else if not (verify_signature t)
    then err Invalid.bad_signature
    else elim (data_prevalidate t.body t) [ some e ↦ err e | none ↦ check_sums from_pub_key t ]
