-- ===== src/Transaction/Codec/Bytes.antt =====
-- The bytes that the serializers write, behind what is written already.
use virel_blockchain.Base.{
  ℕ, not, ◌==◌, if◌then◌else◌, List, [], ◌∷◌, ◌++◌, length, ◌≡◌, sym, ◌∙◌, ap,
}
use virel_blockchain.Base.Bytes.{be_bytes}
use mathlib.Core.List.{append_assoc, append-nil}
use virel_blockchain.Binary.{
  Ser, uvarint_groups, append_uvarint, add_uint8, add_uvarint, add_fixed_byte_array, add_byte_slice,
}
use virel_blockchain.Transaction.{
  Output, TransactionData, transfer, register_delegate, set_delegate, stake, unstake, Transaction,
}
use virel_blockchain.Transaction.Codec.{
  address_size, pubkey_size, signature_size, associated_transaction_version, serialize_output,
  serialize_outputs, serialize_data, serialize_transaction,
}

abbrev pub output_bytes : Output → List ℕ
output_bytes o =
    be_bytes address_size o.recipient
    ++ (uvarint_groups 9 o.payment_id ++ uvarint_groups 9 o.amount)

abbrev pub outputs_bytes : List Output → List ℕ
outputs_bytes [] = []
outputs_bytes (v ∷ vs) = output_bytes v ++ outputs_bytes vs

abbrev pub data_bytes : TransactionData → List ℕ
data_bytes (transfer outputs) = uvarint_groups 9 (length outputs) ++ outputs_bytes outputs
data_bytes (register_delegate name id) =
    (uvarint_groups 9 (length name) ++ name) ++ uvarint_groups 9 id
data_bytes (set_delegate delegate_id previous) =
    uvarint_groups 9 delegate_id ++ uvarint_groups 9 previous
data_bytes (stake amount delegate_id prev_unlock) =
    uvarint_groups 9 amount ++ (uvarint_groups 9 delegate_id ++ uvarint_groups 9 prev_unlock)
data_bytes (unstake amount delegate_id) = uvarint_groups 9 amount ++ uvarint_groups 9 delegate_id

abbrev pub version_bytes : Transaction → List ℕ
version_bytes t = if not (t.version == 0) then associated_transaction_version t.body ∷ [] else []

abbrev pub transaction_bytes : Transaction → List ℕ
transaction_bytes t =
    version_bytes t
    ++ (be_bytes pubkey_size t.signer
        ++ (be_bytes signature_size t.signature
            ++ (data_bytes t.body ++ (uvarint_groups 9 t.nonce ++ uvarint_groups 9 t.fee))))

serialize_output-output_bytes : (s : Ser) (o : Output) → serialize_output s o ≡ s ++ output_bytes o
unfolding serialize_output add_fixed_byte_array add_uvarint append_uvarint
serialize_output-output_bytes s o = simp append_assoc

serialize_outputs-outputs_bytes :
    (s : Ser) (vs : List Output) → serialize_outputs s vs ≡ s ++ outputs_bytes vs
unfolding serialize_outputs
serialize_outputs-outputs_bytes s [] = sym (append-nil s)
serialize_outputs-outputs_bytes s (v ∷ vs) =
    serialize_outputs-outputs_bytes (serialize_output s v) vs
    ∙ ap (λ (l : List ℕ). l ++ outputs_bytes vs) (serialize_output-output_bytes s v)
    ∙ append_assoc s (output_bytes v) (outputs_bytes vs)

serialize_data-data_bytes : (s : Ser) (d : TransactionData) → serialize_data s d ≡ s ++ data_bytes d
unfolding serialize_data add_uvarint append_uvarint add_byte_slice
serialize_data-data_bytes s (transfer outputs) =
    serialize_outputs-outputs_bytes (s ++ uvarint_groups 9 (length outputs)) outputs
    ∙ append_assoc s (uvarint_groups 9 (length outputs)) (outputs_bytes outputs)
serialize_data-data_bytes s (register_delegate name id) = simp append_assoc
serialize_data-data_bytes s (set_delegate delegate_id previous) = simp append_assoc
serialize_data-data_bytes s (stake amount delegate_id prev_unlock) = simp append_assoc
serialize_data-data_bytes s (unstake amount delegate_id) = simp append_assoc

pub serialize_transaction-transaction_bytes :
    (t : Transaction) → serialize_transaction t ≡ transaction_bytes t
unfolding serialize_transaction add_fixed_byte_array add_uvarint append_uvarint add_uint8
serialize_transaction-transaction_bytes t = simp (serialize_data-data_bytes, append_assoc)
