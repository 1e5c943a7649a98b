-- ===== src/Transaction/Codec.antt =====
-- Serialize and Deserialize of the transaction data, the outputs and the transaction:
-- transaction/tx_data.go, transaction/inout.go and transaction/transaction.go.
pub mod Bytes
pub mod RoundTrip
pub mod Store
use virel_blockchain.Base.{
  ℕ, zero, suc, Bool, true, false, not, ◌||◌, ◌==◌, ltb, if◌then◌else◌, List, [], ◌∷◌, length,
  ◌>>=◌, ◌>>◌, pure, fail, fail_if,
}
use virel_blockchain.Config.{max_outputs}
use virel_blockchain.Binary.{
  Ser, new_ser, add_uint8, add_uvarint, add_fixed_byte_array, add_byte_slice, Reading, read_uint8,
  read_uvarint, read_fixed_byte_array, read_byte_slice, check_error,
}
use virel_blockchain.Transaction.{
  Output, TransactionData, transfer, register_delegate, set_delegate, stake, unstake, Transaction,
  tx_version_transfer, tx_version_register_delegate, tx_version_set_delegate, tx_version_stake,
  tx_version_unstake,
}

-- address.SIZE, PUBKEY_SIZE and SIGNATURE_SIZE.
abbrev pub address_size : ℕ
address_size = 22

abbrev pub pubkey_size : ℕ
pubkey_size = 32

abbrev pub signature_size : ℕ
signature_size = 64

abbrev register_delegate_version : ℕ
register_delegate_version = tx_version_register_delegate

abbrev set_delegate_version : ℕ
set_delegate_version = tx_version_set_delegate

abbrev stake_version : ℕ
stake_version = tx_version_stake

abbrev unstake_version : ℕ
unstake_version = tx_version_unstake

unfoldable pub associated_transaction_version : TransactionData → ℕ
associated_transaction_version (transfer outputs) = tx_version_transfer
associated_transaction_version (register_delegate name id) = register_delegate_version
associated_transaction_version (set_delegate delegate_id previous) = set_delegate_version
associated_transaction_version (stake amount delegate_id prev_unlock) = stake_version
associated_transaction_version (unstake amount delegate_id) = unstake_version

unfoldable pub serialize_output : Ser → Output → Ser
serialize_output b o =
    let b = add_fixed_byte_array address_size b o.recipient in
    let b = add_uvarint b o.payment_id in add_uvarint b o.amount

unfoldable pub deserialize_output : Reading Output
deserialize_output = do
  recipient ← read_fixed_byte_array address_size
  payment_id ← read_uvarint
  amount ← read_uvarint
  check_error
  pure record { recipient = recipient; payment_id = payment_id; amount = amount }

unfoldable pub serialize_outputs : Ser → List Output → Ser
serialize_outputs s [] = s
serialize_outputs s (v ∷ vs) = serialize_outputs (serialize_output s v) vs

unfoldable pub deserialize_outputs : (count : ℕ) → Reading (List Output)
deserialize_outputs zero = pure []
deserialize_outputs (suc n) = do v ← deserialize_output; vs ← deserialize_outputs n; pure (v ∷ vs)

abbrev serialize_transfer : Ser → List Output → Ser
serialize_transfer s outputs = serialize_outputs (add_uvarint s (length outputs)) outputs

abbrev serialize_register_delegate : Ser → (name : List ℕ) → (id : ℕ) → Ser
serialize_register_delegate s name id = add_uvarint (add_byte_slice s name) id

abbrev serialize_set_delegate : Ser → (delegate_id previous : ℕ) → Ser
serialize_set_delegate s delegate_id previous = add_uvarint (add_uvarint s delegate_id) previous

abbrev serialize_stake : Ser → (amount delegate_id prev_unlock : ℕ) → Ser
serialize_stake s amount delegate_id prev_unlock =
    add_uvarint (add_uvarint (add_uvarint s amount) delegate_id) prev_unlock

abbrev serialize_unstake : Ser → (amount delegate_id : ℕ) → Ser
serialize_unstake s amount delegate_id = add_uvarint (add_uvarint s amount) delegate_id

unfoldable pub serialize_data : Ser → TransactionData → Ser
serialize_data s (transfer outputs) = serialize_transfer s outputs
serialize_data s (register_delegate name id) = serialize_register_delegate s name id
serialize_data s (set_delegate delegate_id previous) = serialize_set_delegate s delegate_id previous
serialize_data s (stake amount delegate_id prev_unlock) =
    serialize_stake s amount delegate_id prev_unlock
serialize_data s (unstake amount delegate_id) = serialize_unstake s amount delegate_id

unfoldable pub deserialize_transfer : Reading TransactionData
deserialize_transfer = do
  num_outputs ← read_uvarint
  fail_if (ltb max_outputs num_outputs || num_outputs == 0) tt
  outputs ← deserialize_outputs num_outputs
  check_error
  pure (transfer outputs)

unfoldable pub deserialize_register_delegate : Reading TransactionData
deserialize_register_delegate = do
  name ← read_byte_slice
  id ← read_uvarint
  check_error
  pure (register_delegate name id)

unfoldable pub deserialize_set_delegate : Reading TransactionData
deserialize_set_delegate = do
  delegate_id ← read_uvarint
  previous ← read_uvarint
  check_error
  pure (set_delegate delegate_id previous)

unfoldable pub deserialize_stake : Reading TransactionData
deserialize_stake = do
  amount ← read_uvarint
  delegate_id ← read_uvarint
  prev_unlock ← read_uvarint
  check_error
  pure (stake amount delegate_id prev_unlock)

unfoldable pub deserialize_unstake : Reading TransactionData
deserialize_unstake = do
  amount ← read_uvarint
  delegate_id ← read_uvarint
  check_error
  pure (unstake amount delegate_id)

-- The switch on the version.
unfoldable pub deserialize_data : (version : ℕ) → Reading TransactionData
deserialize_data version =
    if version == 0 || version == tx_version_transfer
    then deserialize_transfer
    else if version == tx_version_register_delegate
    then deserialize_register_delegate
    else if version == tx_version_set_delegate
    then deserialize_set_delegate
    else if version == tx_version_stake
    then deserialize_stake
    else if version == tx_version_unstake
    then deserialize_unstake
    else fail tt

unfoldable pub serialize_transaction : Transaction → Ser
serialize_transaction t =
    let s =
      if not (t.version == 0)
      then add_uint8 new_ser (associated_transaction_version t.body)
      else new_ser in
    let s = add_fixed_byte_array pubkey_size s t.signer in
    let s = add_fixed_byte_array signature_size s t.signature in
    let s = serialize_data s t.body in let s = add_uvarint s t.nonce in add_uvarint s t.fee

unfoldable pub read_version : (has_version : Bool) → Reading ℕ
read_version true = do
  version ← read_uint8
  fail_if (ltb tx_version_unstake version || version == 0) tt
  pure version
read_version false = pure 0

unfoldable pub deserialize_transaction : (has_version : Bool) → Reading Transaction
deserialize_transaction has_version = do
  version ← read_version has_version
  signer ← read_fixed_byte_array pubkey_size
  signature ← read_fixed_byte_array signature_size
  body ← deserialize_data version
  nonce ← read_uvarint
  fee ← read_uvarint
  check_error
  pure record {
    version = version;
    signer = signer;
    signature = signature;
    body = body;
    nonce = nonce;
    fee = fee;
  }
