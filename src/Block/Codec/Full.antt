-- ===== src/Block/Codec/Full.antt =====
-- A block with its transactions, as peers send it: SerializeFullBlock of blockchain/bc-block.go and
-- DeserializeFull of block/block.go. The hash function, blake3.Sum256, is a parameter.
pub mod Exchange
use virel_blockchain.Base.{
  ℕ, zero, suc, ◌^◌, ◌≤◌, ◌<◌, ◌≡◌, refl, sym, ap, ◌∙◌, Bool, true, false, ltb, leb, le→ltb,
  if◌then◌else◌, Option, none, some, List, [], ◌∷◌, ◌++◌, map, length, All, Result, ok, err, panic,
  arith, IsU64, ◌>>=◌, ◌>>◌, pure, fail_if, lift,
}
use virel_blockchain.Base.Dict.{Dict, lookup}
use virel_blockchain.Config.{max_tx_per_block, hardfork_v2_height}
use mathlib.Core.List.{append_assoc, append-nil}
use virel_blockchain.Binary.{
  Ser, new_ser, add_bytes, add_uvarint, append_uvarint, add_byte_slice, uvarint_groups, Des,
  new_des, Reading, read_uvarint, read_byte_slice, check_error,
}
use virel_blockchain.Binary.Reads.{
  Reads, Reads-pure, Reads-bind, Reads-last, Reads-checked, Reads-passed, Reads-check_error,
  Reads-uvarint, Reads-byte_slice,
}
use virel_blockchain.Transaction.{Transaction}
use virel_blockchain.Transaction.Codec.{serialize_transaction}
use virel_blockchain.Transaction.Codec.Store.{parse_tx, load_tx}
use virel_blockchain.Block.{Block}
use virel_blockchain.Block.Codec.{
  serialize_header, serialize_difficulty, deserialize_header, deserialize_difficulty,
}

-- The loop over the transactions; `index` is the index of transactions. An error ends it.
unfoldable pub serialize_txs :
    (index : Dict (List ℕ)) (height : ℕ) → Ser → List ℕ → Result (Unit {0}) Ser
serialize_txs index height s [] = ok s
serialize_txs index height s (v ∷ vs) = elim (load_tx height (lookup v index)) [
  | ok (tx, _) ↦ serialize_txs index height (add_byte_slice s (serialize_transaction tx)) vs
  | err e ↦ err e
  | panic ↦ panic
]

unfoldable pub serialize_full_block : (index : Dict (List ℕ)) → Block → Result (Unit {0}) Ser
serialize_full_block index b =
    let s = add_bytes new_ser (serialize_header b) in
    let s = serialize_difficulty s b.difficulty in
    let s = serialize_difficulty s b.cumulative_diff in
    let s = add_uvarint s (length b.transactions) in serialize_txs index b.height s b.transactions

-- Transaction.Hash
abbrev pub tx_hash : (digest : List ℕ → ℕ) → Transaction → ℕ
tx_hash digest tx = digest (serialize_transaction tx)

-- The transactions, in the form that belongs to the height, and their hashes.
unfoldable pub deserialize_txs :
    (digest : List ℕ → ℕ) (versioned : Bool) (count : ℕ) → Reading (List (ℕ × Transaction))
deserialize_txs digest versioned zero = pure []
deserialize_txs digest versioned (suc n) = do
  sl ← read_byte_slice
  tx ← lift (parse_tx versioned sl)
  txs ← deserialize_txs digest versioned n
  pure ((tx_hash digest tx, tx) ∷ txs)

abbrev pub hashes_of : List (ℕ × Transaction) → List ℕ
hashes_of = map (λ (p : ℕ × Transaction). p.0)

abbrev pub txs_of : List (ℕ × Transaction) → List Transaction
txs_of = map (λ (p : ℕ × Transaction). p.1)

unfoldable pub deserialize_full_block : (digest : List ℕ → ℕ) → Reading (Block × List Transaction)
deserialize_full_block digest = do
  b ← deserialize_header
  difficulty ← deserialize_difficulty
  cumulative_diff ← deserialize_difficulty
  num_tx ← read_uvarint
  check_error
  fail_if (ltb max_tx_per_block num_tx) tt
  txs ← deserialize_txs digest (leb hardfork_v2_height b.height) num_tx
  check_error
  pure (
    record b {
      difficulty = difficulty;
      cumulative_diff = cumulative_diff;
      transactions = hashes_of txs;
    },
    txs_of txs,
  )
