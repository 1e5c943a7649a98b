-- ===== src/Block/Codec.antt =====
-- Serialize and Deserialize of commitments, block headers and blocks: block/commitment.go and
-- block/block.go.
pub mod Bytes
pub mod Parts
pub mod RoundTrip
pub mod Full
use virel_blockchain.Base.{
  ℕ, zero, suc, ◌-◌, Bool, true, false, ◌==◌, ◌&&◌, ltb, if◌then◌else◌, List, [], ◌∷◌, ◌++◌, length,
  take, replicate, ◌>>=◌, ◌>>◌, pure, fail_if,
}
use virel_blockchain.Config.{max_tx_per_block, max_merge_mined_chains, max_side_blocks}
use virel_blockchain.Uint128.{Uint128, is_zero, from_bytes, put_bytes}
use virel_blockchain.Binary.{
  Ser, new_ser, add_uint8, add_uint32, add_uint64, add_uvarint, add_fixed_byte_array, add_bytes,
  add_byte_slice, Reading, read_uint8, read_uint32, read_uint64, read_uvarint,
  read_fixed_byte_array, read_byte_slice, check_error,
}
use virel_blockchain.Transaction.Codec.{address_size, signature_size}
use virel_blockchain.Block.{HashingId, Ancestors, Commitment, Block}

abbrev pub hash_size : ℕ
hash_size = 32

abbrev pub nonce_extra_size : ℕ
nonce_extra_size = 16

unfoldable pub serialize_ancestors : Ser → Ancestors → Ser
serialize_ancestors s a =
    let s = add_fixed_byte_array hash_size s a.first in
    let s = add_fixed_byte_array hash_size s a.second in add_fixed_byte_array hash_size s a.third

unfoldable pub serialize_chains : Ser → List HashingId → Ser
serialize_chains s [] = s
serialize_chains s (v ∷ vs) =
    serialize_chains (add_fixed_byte_array hash_size (add_uint64 s v.network_id) v.hash) vs

unfoldable pub serialize_commitment : Commitment → Ser
serialize_commitment c =
    let s = add_fixed_byte_array hash_size new_ser c.base_hash in
    let s = serialize_ancestors s c.ancestors in
    let s = add_uvarint s c.timestamp in
    let s = add_uint32 s c.nonce in
    let s = add_fixed_byte_array nonce_extra_size s c.nonce_extra in
    let s = add_uvarint s (length c.other_chains) in serialize_chains s c.other_chains

unfoldable pub serialize_side_blocks : Ser → List Commitment → Ser
serialize_side_blocks s [] = s
serialize_side_blocks s (v ∷ vs) = serialize_side_blocks (add_bytes s (serialize_commitment v)) vs

-- The fields that version 0 does not have.
unfoldable pub serialize_stake : Ser → Block → Ser
serialize_stake s b =
    if ltb 0 b.version
    then add_fixed_byte_array signature_size
        (add_uvarint (add_uvarint s b.delegate_id) b.next_delegate_id) b.stake_signature
    else s

unfoldable pub serialize_header : Block → Ser
serialize_header b =
    let s = add_uint8 new_ser b.version in
    let s = add_uvarint s b.height in
    let s = add_uvarint s b.timestamp in
    let s = add_uint32 s b.nonce in
    let s = add_fixed_byte_array nonce_extra_size s b.nonce_extra in
    let s = add_fixed_byte_array address_size s b.recipient in
    let s = serialize_ancestors s b.ancestors in
    let s = add_uvarint s (length b.other_chains) in
    let s = serialize_chains s b.other_chains in
    let s = add_uvarint s (length b.side_blocks) in
    let s = serialize_side_blocks s b.side_blocks in serialize_stake s b

abbrev is_empty : List ℕ → Bool
is_empty [] = true
is_empty (b ∷ bs) = false

-- The zero bytes at the end, the most significant ones, are cut off.
unfoldable pub trim_zeros : List ℕ → List ℕ
trim_zeros [] = []
trim_zeros (b ∷ bs) = let rest = trim_zeros bs in if is_empty rest && b == 0 then [] else b ∷ rest

unfoldable pub serialize_difficulty : Ser → Uint128 → Ser
serialize_difficulty s d = add_byte_slice s (trim_zeros (put_bytes d))

unfoldable pub serialize_hashes : Ser → List ℕ → Ser
serialize_hashes s [] = s
serialize_hashes s (v ∷ vs) = serialize_hashes (add_fixed_byte_array hash_size s v) vs

-- A block without a difficulty has no bytes.
unfoldable pub serialize_block : Block → Ser
serialize_block b =
    if is_zero b.difficulty
    then []
    else let s = add_bytes new_ser (serialize_header b) in
      let s = serialize_difficulty s b.difficulty in
      let s = serialize_difficulty s b.cumulative_diff in
      let s = add_uvarint s (length b.transactions) in serialize_hashes s b.transactions

unfoldable pub deserialize_ancestors : Reading Ancestors
deserialize_ancestors = do
  first ← read_fixed_byte_array hash_size
  second ← read_fixed_byte_array hash_size
  third ← read_fixed_byte_array hash_size
  pure record { first = first; second = second; third = third }

unfoldable pub deserialize_chains : (count : ℕ) → Reading (List HashingId)
deserialize_chains zero = pure []
deserialize_chains (suc n) = do
  check_error
  network_id ← read_uint64
  hash ← read_fixed_byte_array hash_size
  vs ← deserialize_chains n
  pure (record { network_id = network_id; hash = hash } ∷ vs)

-- The number of chains is tested as an `int`; a negative one is above the limit here.
unfoldable pub read_chains : Reading (List HashingId)
read_chains = do
  num_chains ← read_uvarint
  fail_if (ltb (max_merge_mined_chains - 1) num_chains) tt
  deserialize_chains num_chains

unfoldable pub deserialize_commitment : Reading Commitment
deserialize_commitment = do
  base_hash ← read_fixed_byte_array hash_size
  ancestors ← deserialize_ancestors
  timestamp ← read_uvarint
  nonce ← read_uint32
  nonce_extra ← read_fixed_byte_array nonce_extra_size
  other_chains ← read_chains
  check_error
  pure record {
    base_hash = base_hash;
    ancestors = ancestors;
    timestamp = timestamp;
    nonce = nonce;
    nonce_extra = nonce_extra;
    other_chains = other_chains;
  }

unfoldable pub deserialize_side_blocks : (count : ℕ) → Reading (List Commitment)
deserialize_side_blocks zero = pure []
deserialize_side_blocks (suc n) = do
  check_error
  v ← deserialize_commitment
  vs ← deserialize_side_blocks n
  pure (v ∷ vs)

unfoldable pub read_side_blocks : Reading (List Commitment)
read_side_blocks = do
  num_side_blocks ← read_uvarint
  fail_if (ltb max_side_blocks num_side_blocks) tt
  deserialize_side_blocks num_side_blocks

-- The delegate, the next delegate and the signature.
unfoldable pub deserialize_stake : (version : ℕ) → Reading (ℕ × ℕ × ℕ)
deserialize_stake version =
    if ltb 0 version
    then (read_uvarint >>= λ delegate_id. read_uvarint >>= λ next_delegate_id.
        read_fixed_byte_array signature_size >>= λ stake_signature.
        pure (delegate_id, next_delegate_id, stake_signature))
    else pure (0, 0, 0)

-- A header without an error; the other fields of the block are not read yet.
unfoldable pub deserialize_header : Reading Block
deserialize_header = do
  version ← read_uint8
  height ← read_uvarint
  timestamp ← read_uvarint
  nonce ← read_uint32
  nonce_extra ← read_fixed_byte_array nonce_extra_size
  recipient ← read_fixed_byte_array address_size
  ancestors ← deserialize_ancestors
  check_error
  other_chains ← read_chains
  side_blocks ← read_side_blocks
  (delegate_id, next_delegate_id, stake_signature) ← deserialize_stake version
  check_error
  pure record {
    version = version;
    height = height;
    timestamp = timestamp;
    nonce = nonce;
    nonce_extra = nonce_extra;
    other_chains = other_chains;
    recipient = recipient;
    ancestors = ancestors;
    side_blocks = side_blocks;
    delegate_id = delegate_id;
    next_delegate_id = next_delegate_id;
    stake_signature = stake_signature;
    difficulty = record { lo = 0; hi = 0 };
    cumulative_diff = record { lo = 0; hi = 0 };
    transactions = [];
  }

-- `copy` into sixteen zero bytes.
unfoldable pub deserialize_difficulty : Reading Uint128
deserialize_difficulty = do
  diff ← read_byte_slice
  pure (from_bytes (take 16 (diff ++ replicate 16 0)))

unfoldable pub deserialize_hashes : (count : ℕ) → Reading (List ℕ)
deserialize_hashes zero = pure []
deserialize_hashes (suc n) = do
  v ← read_fixed_byte_array hash_size
  check_error
  vs ← deserialize_hashes n
  pure (v ∷ vs)

-- The second reader starts at what the header leaves, which it does without an error only.
unfoldable pub deserialize_block : Reading Block
deserialize_block = do
  b ← deserialize_header
  difficulty ← deserialize_difficulty
  cumulative_diff ← deserialize_difficulty
  check_error
  num_tx ← read_uvarint
  check_error
  fail_if (ltb max_tx_per_block num_tx) tt
  transactions ← deserialize_hashes num_tx
  check_error
  pure record b {
    difficulty = difficulty;
    cumulative_diff = cumulative_diff;
    transactions = transactions;
  }
