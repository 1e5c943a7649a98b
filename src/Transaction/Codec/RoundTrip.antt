-- ===== src/Transaction/Codec/RoundTrip.antt =====
-- Reading back what was written: transactions, and their data of every kind.
use virel_blockchain.Base.{
  ℕ, ◌^◌, ◌≤◌, ◌<◌, ◌≡◌, refl, subst, Bool, true, false, not, ◌||◌, ◌==◌, ltb, List, [], ◌∷◌, ◌++◌,
  length, All, ok, arith, IsU64,
}
use virel_blockchain.Config.{max_outputs}
use virel_blockchain.Binary.{new_des}
use virel_blockchain.Binary.Reads.{
  Reads, Reads-pure, Reads-bind, Reads-last, Reads-checked, Reads-passed, Reads-uint8,
  Reads-uvarint, Reads-fixed_byte_array, Reads-byte_slice,
}
use virel_blockchain.Transaction.{
  Output, TransactionData, transfer, register_delegate, set_delegate, stake, unstake, Transaction,
}
use virel_blockchain.Transaction.Codec.{
  address_size, pubkey_size, signature_size, associated_transaction_version, deserialize_output,
  deserialize_outputs, deserialize_transfer, deserialize_register_delegate,
  deserialize_set_delegate, deserialize_stake, deserialize_unstake, deserialize_data, read_version,
  serialize_transaction, deserialize_transaction,
}
use virel_blockchain.Transaction.Codec.Bytes.{
  output_bytes, outputs_bytes, data_bytes, version_bytes, transaction_bytes,
  serialize_transaction-transaction_bytes,
}

-- The fields are values of their Go types.
abbrev pub IsOutput : Output → Type 0
IsOutput o = (o.recipient < 256 ^ address_size) × IsU64 o.payment_id × IsU64 o.amount

-- And a transfer has as many outputs as Prevalidate allows.
abbrev pub IsData : TransactionData → Type 0
IsData (transfer outputs) =
    (1 ≤ length outputs) × (length outputs ≤ max_outputs) × All IsOutput outputs
IsData (register_delegate name id) = (length name < 2 ^ 63) × IsU64 id
IsData (set_delegate delegate_id previous) = IsU64 delegate_id × IsU64 previous
IsData (stake amount delegate_id prev_unlock) = IsU64 amount × IsU64 delegate_id × IsU64 prev_unlock
IsData (unstake amount delegate_id) = IsU64 amount × IsU64 delegate_id

pub record IsTransaction (t : Transaction) : Type 0 where
  pub signer_fits : t.signer < 256 ^ pubkey_size
  pub signature_fits : t.signature < 256 ^ signature_size
  pub data_fits : IsData t.body
  pub nonce_fits : IsU64 t.nonce
  pub fee_fits : IsU64 t.fee

Reads-deserialize_output : (o : Output) → IsOutput o → Reads deserialize_output (output_bytes o) o
unfolding deserialize_output
Reads-deserialize_output o (hr, hp, ha) =
    Reads-bind _ (Reads-fixed_byte_array address_size o.recipient hr)
      (Reads-bind _ (Reads-uvarint o.payment_id hp) (Reads-checked _ (Reads-uvarint o.amount ha)))

Reads-deserialize_outputs :
    (vs : List Output)
    → All IsOutput vs
    → Reads (deserialize_outputs (length vs)) (outputs_bytes vs) vs
unfolding deserialize_outputs
Reads-deserialize_outputs [] h = Reads-pure []
Reads-deserialize_outputs (v ∷ vs) (h, hs) =
    Reads-bind _ (Reads-deserialize_output v h)
      (Reads-last (λ (l : List Output). v ∷ l) (Reads-deserialize_outputs vs hs))

-- The number of outputs passes its test.
count_passes : (n : ℕ) → 1 ≤ n → n ≤ max_outputs → (ltb max_outputs n || n == 0) ≡ false
count_passes n h k = ground arith

Reads-deserialize_transfer :
    (vs : List Output)
    → IsData (transfer vs)
    → Reads deserialize_transfer (data_bytes (transfer vs)) (transfer vs)
unfolding deserialize_transfer
Reads-deserialize_transfer vs (h1, h2, all) =
    Reads-bind _ (Reads-uvarint (length vs) (omega arith)) (
      Reads-passed _ (count_passes (length vs) h1 h2)
        (Reads-checked (λ (l : List Output). transfer l) (Reads-deserialize_outputs vs all)))

-- On the version that belongs to the data, or on version 0 for a transfer.
Reads-deserialize_data :
    (d : TransactionData)
    → IsData d
    → Reads (deserialize_data (associated_transaction_version d)) (data_bytes d) d
unfolding deserialize_data associated_transaction_version deserialize_register_delegate
    deserialize_set_delegate deserialize_stake deserialize_unstake
Reads-deserialize_data (transfer vs) h = Reads-deserialize_transfer vs h
Reads-deserialize_data (register_delegate name id) (hn, hi) =
    Reads-bind _ (Reads-byte_slice name hn) (Reads-checked _ (Reads-uvarint id hi))
Reads-deserialize_data (set_delegate delegate_id previous) (hd, hp) =
    Reads-bind _ (Reads-uvarint delegate_id hd) (Reads-checked _ (Reads-uvarint previous hp))
Reads-deserialize_data (stake amount delegate_id prev_unlock) (ha, hd, hu) =
    Reads-bind _ (Reads-uvarint amount ha)
      (Reads-bind _ (Reads-uvarint delegate_id hd) (Reads-checked _ (Reads-uvarint prev_unlock hu)))
Reads-deserialize_data (unstake amount delegate_id) (ha, hd) =
    Reads-bind _ (Reads-uvarint amount ha) (Reads-checked _ (Reads-uvarint delegate_id hd))

Reads-read_version :
    (d : TransactionData)
    → Reads
        (read_version true)
        (associated_transaction_version d ∷ [])
        (associated_transaction_version d)
unfolding read_version associated_transaction_version
Reads-read_version (transfer vs) = Reads-bind _ (Reads-uint8 1) (Reads-pure _)
Reads-read_version (register_delegate name id) = Reads-bind _ (Reads-uint8 2) (Reads-pure _)
Reads-read_version (set_delegate delegate_id previous) = Reads-bind _ (Reads-uint8 3) (Reads-pure _)
Reads-read_version (stake amount delegate_id prev_unlock) =
    Reads-bind _ (Reads-uint8 4) (Reads-pure _)
Reads-read_version (unstake amount delegate_id) = Reads-bind _ (Reads-uint8 5) (Reads-pure _)

-- The version byte and the version agree with the data: before the second hard fork version 0 has no
-- version byte and is a transfer.
pub data IsVersioned : (has_version : Bool) → Transaction → Type 0 where
  unversioned :
      (t : Transaction) (vs : List Output)
      → t.version ≡ 0
      → t.body ≡ transfer vs
      → IsVersioned false t
  versioned :
      (t : Transaction) → t.version ≡ associated_transaction_version t.body → IsVersioned true t

version_positive : (d : TransactionData) → (not (associated_transaction_version d == 0)) ≡ true
unfolding associated_transaction_version
version_positive (transfer vs) = refl
version_positive (register_delegate name id) = refl
version_positive (set_delegate delegate_id previous) = refl
version_positive (stake amount delegate_id prev_unlock) = refl
version_positive (unstake amount delegate_id) = refl

Reads-version :
    {has_version : Bool} {t : Transaction}
    → IsVersioned has_version t
    → Reads (read_version has_version) (version_bytes t) t.version
Reads-version (unversioned t vs e b) = unfold read_version in rw e (Reads-pure 0)
Reads-version (versioned t e) = rw (e, version_positive t.body) (Reads-read_version t.body)

Reads-body :
    {has_version : Bool} {t : Transaction}
    → IsVersioned has_version t
    → IsData t.body
    → Reads (deserialize_data t.version) (data_bytes t.body) t.body
Reads-body (unversioned t vs e b) h =
    unfold deserialize_data in rw (e, b) (Reads-deserialize_transfer vs (subst IsData b h))
Reads-body (versioned t e) h = rw e (Reads-deserialize_data t.body h)

-- A transaction whose fields are values of their Go types, whose transfer has 1 to 32 outputs, and
-- whose version is that of its data (or is 0, without a version byte, on a transfer), is read back
-- from what `serialize_transaction` writes, in front of any other bytes, which stay unread.
pub deserialize_transaction-serialize_transaction :
    {has_version : Bool} (t : Transaction) (rest : List ℕ)
    → IsVersioned has_version t
    → IsTransaction t
    → deserialize_transaction has_version (new_des (serialize_transaction t ++ rest))
      ≡ (ok t, new_des rest)
deserialize_transaction-serialize_transaction {has_version} t rest v fits =
    rw (serialize_transaction-transaction_bytes t) (whole.run rest)
  where
    whole : Reads (deserialize_transaction has_version) (transaction_bytes t) t
    whole =
        unfold deserialize_transaction in
        Reads-bind _ (Reads-version v) (
          Reads-bind _ (Reads-fixed_byte_array pubkey_size t.signer fits.signer_fits) (
            Reads-bind _ (Reads-fixed_byte_array signature_size t.signature fits.signature_fits) (
              Reads-bind _ (Reads-body v fits.data_fits) (
                Reads-bind _ (Reads-uvarint t.nonce fits.nonce_fits)
                  (Reads-checked _ (Reads-uvarint t.fee fits.fee_fits))))))
