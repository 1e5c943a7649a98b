-- ===== src/Tests/Codec.antt =====
-- Blocks, transactions and delegates that are written and read back, work and requests.
use virel_blockchain.Base.{
  ℕ, ◌%◌, ◌^◌, ◌≡◌, ◌<◌, inl, refl, ap, ==-refl, Bool, false, List, [], ◌∷◌, ◌++◌, length, some,
  none, ok, arith, if◌then◌else◌,
}
use virel_blockchain.Base.Bytes.{be_bytes, le_bytes}
use virel_blockchain.Base.Dict.{Dict}
use virel_blockchain.Uint128.{is_zero, of_value}
use virel_blockchain.Binary.{
  new_des, uvarint_groups, append_uvarint, add_uint8, add_fixed_byte_array, add_uvarint,
}
use virel_blockchain.Transaction.{Transaction}
use virel_blockchain.Transaction.Codec.{
  serialize_transaction, serialize_data, serialize_outputs, serialize_output,
}
use virel_blockchain.Transaction.Codec.RoundTrip.{IsVersioned, unversioned, IsTransaction}
use virel_blockchain.Transaction.Codec.Store.{stored_tx}
use virel_blockchain.Chaintype.{Delegate}
use virel_blockchain.Chaintype.Codec.{serialize_delegate, deserialize_delegate}
use virel_blockchain.Chaintype.Codec.RoundTrip.{IsDelegate, deserialize_delegate-serialize_delegate}
use virel_blockchain.Block.{Block}
use virel_blockchain.Block.Work.{contribution}
use virel_blockchain.Block.Work.Value.{work, contribution-work}
use virel_blockchain.Block.Codec.Parts.{IsHash}
use virel_blockchain.Block.Codec.{serialize_block, deserialize_block}
use virel_blockchain.Block.Codec.RoundTrip.{IsBlock, deserialize_block-serialize_block}
use virel_blockchain.Block.Codec.Full.{tx_hash, serialize_full_block, deserialize_full_block}
use virel_blockchain.Block.Codec.Full.Exchange.{IsKept, deserialize_full_block-serialize_full_block}
use virel_blockchain.Queue.{Queue, requestable_block}
use virel_blockchain.Queue.Requests.{IsAnswer, requestable_block-IsAnswer}
use virel_blockchain.Tests.Data.{payment, second_block}

-- The payment as it was sent before transactions had versions.
abbrev payment_0 : Transaction
payment_0 = record payment { version = 0 }

payment_0-IsVersioned : IsVersioned false payment_0
payment_0-IsVersioned = unversioned payment_0 _ refl refl

payment_0-IsTransaction : IsTransaction payment_0
payment_0-IsTransaction = record {
  signer_fits = omega arith;
  signature_fits = omega arith;
  data_fits = (omega arith, omega arith, ((omega arith, omega arith, omega arith), tt));
  nonce_fits = omega arith;
  fee_fits = omega arith;
}

abbrev delegate_5 : Delegate
delegate_5 = record {
  id = 5;
  owner = 9;
  name = 97 ∷ 98 ∷ [];
  funds = record { owner = 1007; amount = 300_000; unlock = 64 } ∷ [];
}

delegate_5-IsDelegate : IsDelegate delegate_5
delegate_5-IsDelegate = record {
  id_fits = omega arith;
  owner_fits = omega arith;
  name_fits = omega arith;
  funds_fit = ((omega arith, omega arith, omega arith), tt);
  count_fits = omega arith;
}

deserialize_delegate-serialize_delegate_example :
    deserialize_delegate (new_des (serialize_delegate delegate_5 ++ 7 ∷ []))
    ≡ (ok delegate_5, new_des (7 ∷ []))
deserialize_delegate-serialize_delegate_example =
    deserialize_delegate-serialize_delegate delegate_5 (7 ∷ []) delegate_5-IsDelegate

contribution-work_example : contribution second_block ≡ some (of_value (work second_block))
contribution-work_example =
    contribution-work second_block (record { lo_word = omega arith; hi_word = omega arith })
      (omega arith) (omega arith)

-- Two blocks, the first of which has just been asked for.
abbrev queue : Queue
queue =
    record { hash = 11; height = 1; expires = 1200; last_request = 100 }
    ∷ record { hash = 12; height = 2; expires = 1200; last_request = 0 }
    ∷ []

requestable_block-IsAnswer_example :
    IsAnswer 101 queue (requestable_block 101 queue).0 (requestable_block 101 queue).1
requestable_block-IsAnswer_example = requestable_block-IsAnswer 101 queue

-- A hash function.
abbrev digest : List ℕ → ℕ
digest bytes = length bytes % 1000

abbrev sent_block : Block
sent_block = record second_block { transactions = tx_hash digest payment_0 ∷ [] }

abbrev index : Dict (List ℕ)
index = (tx_hash digest payment_0, stored_tx payment_0 1) ∷ []

payment_0-short : length (serialize_transaction payment_0) < 2 ^ 63
unfolding serialize_transaction serialize_data serialize_outputs serialize_output uvarint_groups
    append_uvarint add_uint8 add_fixed_byte_array add_uvarint be_bytes le_bytes
payment_0-short = omega arith

tx_hash-IsHash : IsHash (tx_hash digest payment_0)
tx_hash-IsHash = omega arith

payment_0-IsKept : IsKept digest index 1 payment_0
payment_0-IsKept = record {
  kept =
      ap (λ (c : Bool). if c then some (stored_tx payment_0 1) else none)
        (==-refl (tx_hash digest payment_0));
  dated = payment_0-IsVersioned;
  fits = payment_0-IsTransaction;
  short = payment_0-short;
}

sent_block-IsBlock : IsBlock sent_block
sent_block-IsBlock = record {
  version_fits = omega arith;
  height_fits = omega arith;
  timestamp_fits = omega arith;
  nonce_fits = omega arith;
  nonce_extra_fits = omega arith;
  recipient_fits = omega arith;
  ancestors_fit = record {
    first_fits = omega arith;
    second_fits = omega arith;
    third_fits = omega arith;
  };
  chains_fit = tt;
  few_chains = omega arith;
  side_blocks_fit = tt;
  few_side_blocks = omega arith;
  stake_part = inl (refl, refl, refl, refl);
  difficulty_fits = record { lo_word = omega arith; hi_word = omega arith };
  cumulative_diff_fits = record { lo_word = omega arith; hi_word = omega arith };
  transactions_fit = (tx_hash-IsHash, tt);
  few_transactions = omega arith;
}

deserialize_full_block-serialize_full_block_example :
    (bytes : List ℕ) × (serialize_full_block index sent_block ≡ ok bytes)
    × (deserialize_full_block digest (new_des (bytes ++ 7 ∷ []))
        ≡ (ok (sent_block, payment_0 ∷ []), new_des (7 ∷ [])))
deserialize_full_block-serialize_full_block_example =
    deserialize_full_block-serialize_full_block digest index sent_block (payment_0 ∷ []) (7 ∷ [])
      sent_block-IsBlock (omega arith) refl (payment_0-IsKept, tt)

deserialize_block-serialize_block_example :
    deserialize_block (new_des (serialize_block sent_block ++ 7 ∷ []))
    ≡ (ok sent_block, new_des (7 ∷ []))
unfolding is_zero
deserialize_block-serialize_block_example =
    deserialize_block-serialize_block sent_block (7 ∷ []) sent_block-IsBlock refl
