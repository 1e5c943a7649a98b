-- ===== src/Block/Codec/Bytes.antt =====
-- The bytes that the serializers of commitments, headers and blocks write.
use virel_blockchain.Base.{
  ℕ, ltb, if◌then◌else◌, List, [], ◌∷◌, ◌++◌, length, ◌≡◌, sym, ◌∙◌, false, Bool-cases, inl, inr,
}
use virel_blockchain.Base.Bytes.{le_bytes, be_bytes}
use mathlib.Core.List.{append_assoc, append-nil}
use virel_blockchain.Uint128.{Uint128, is_zero, put_bytes}
use virel_blockchain.Binary.{
  Ser, uvarint_groups, append_uvarint, add_uint8, add_uint32, add_uint64, add_uvarint,
  add_fixed_byte_array, add_bytes, add_byte_slice,
}
use virel_blockchain.Transaction.Codec.{address_size, signature_size}
use virel_blockchain.Block.{HashingId, Ancestors, Commitment, Block}
use virel_blockchain.Block.Codec.{
  hash_size, nonce_extra_size, serialize_ancestors, serialize_chains, serialize_commitment,
  serialize_side_blocks, serialize_stake, serialize_header, trim_zeros, serialize_difficulty,
  serialize_hashes, serialize_block,
}

abbrev pub ancestors_bytes : Ancestors → List ℕ
ancestors_bytes a =
    be_bytes hash_size a.first ++ (be_bytes hash_size a.second ++ be_bytes hash_size a.third)

abbrev pub chain_bytes : HashingId → List ℕ
chain_bytes v = le_bytes 8 v.network_id ++ be_bytes hash_size v.hash

abbrev pub chains_bytes : List HashingId → List ℕ
chains_bytes [] = []
chains_bytes (v ∷ vs) = chain_bytes v ++ chains_bytes vs

abbrev pub counted_chains_bytes : List HashingId → List ℕ
counted_chains_bytes vs = uvarint_groups 9 (length vs) ++ chains_bytes vs

abbrev pub commitment_bytes : Commitment → List ℕ
commitment_bytes c =
    be_bytes hash_size c.base_hash
    ++ (ancestors_bytes c.ancestors
        ++ (uvarint_groups 9 c.timestamp
            ++ (le_bytes 4 c.nonce
                ++ (be_bytes nonce_extra_size c.nonce_extra
                    ++ counted_chains_bytes c.other_chains))))

abbrev pub side_blocks_bytes : List Commitment → List ℕ
side_blocks_bytes [] = []
side_blocks_bytes (v ∷ vs) = commitment_bytes v ++ side_blocks_bytes vs

abbrev pub counted_side_blocks_bytes : List Commitment → List ℕ
counted_side_blocks_bytes vs = uvarint_groups 9 (length vs) ++ side_blocks_bytes vs

abbrev pub stake_bytes : Block → List ℕ
stake_bytes b =
    if ltb 0 b.version
    then uvarint_groups 9 b.delegate_id
      ++ (uvarint_groups 9 b.next_delegate_id ++ be_bytes signature_size b.stake_signature)
    else []

abbrev pub header_bytes : Block → List ℕ
header_bytes b =
    b.version
    ∷ (uvarint_groups 9 b.height
        ++ (uvarint_groups 9 b.timestamp
            ++ (le_bytes 4 b.nonce
                ++ (be_bytes nonce_extra_size b.nonce_extra
                    ++ (be_bytes address_size b.recipient
                        ++ (ancestors_bytes b.ancestors
                            ++ (counted_chains_bytes b.other_chains
                                ++ (counted_side_blocks_bytes b.side_blocks ++ stake_bytes b))))))))

abbrev pub difficulty_bytes : Uint128 → List ℕ
difficulty_bytes d =
    uvarint_groups 9 (length (trim_zeros (put_bytes d))) ++ trim_zeros (put_bytes d)

abbrev pub hashes_bytes : List ℕ → List ℕ
hashes_bytes [] = []
hashes_bytes (v ∷ vs) = be_bytes hash_size v ++ hashes_bytes vs

abbrev pub block_bytes : Block → List ℕ
block_bytes b =
    header_bytes b
    ++ (difficulty_bytes b.difficulty
        ++ (difficulty_bytes b.cumulative_diff
            ++ (uvarint_groups 9 (length b.transactions) ++ hashes_bytes b.transactions)))

serialize_ancestors-ancestors_bytes :
    (s : Ser) (a : Ancestors) → serialize_ancestors s a ≡ s ++ ancestors_bytes a
unfolding serialize_ancestors add_fixed_byte_array
serialize_ancestors-ancestors_bytes s a = simp append_assoc

serialize_chains-chains_bytes :
    (s : Ser) (vs : List HashingId) → serialize_chains s vs ≡ s ++ chains_bytes vs
unfolding serialize_chains add_fixed_byte_array add_uint64
serialize_chains-chains_bytes s [] = sym (append-nil s)
serialize_chains-chains_bytes s (v ∷ vs) =
    serialize_chains-chains_bytes ((s ++ le_bytes 8 v.network_id) ++ be_bytes hash_size v.hash) vs
    ∙ simp append_assoc

serialize_commitment-commitment_bytes :
    (c : Commitment) → serialize_commitment c ≡ commitment_bytes c
unfolding serialize_commitment add_fixed_byte_array add_uvarint append_uvarint add_uint32
serialize_commitment-commitment_bytes c =
    simp (serialize_chains-chains_bytes, serialize_ancestors-ancestors_bytes, append_assoc)

serialize_side_blocks-side_blocks_bytes :
    (s : Ser) (vs : List Commitment) → serialize_side_blocks s vs ≡ s ++ side_blocks_bytes vs
unfolding serialize_side_blocks add_bytes
serialize_side_blocks-side_blocks_bytes s [] = sym (append-nil s)
serialize_side_blocks-side_blocks_bytes s (v ∷ vs) =
    serialize_side_blocks-side_blocks_bytes (s ++ serialize_commitment v) vs
    ∙ simp (serialize_commitment-commitment_bytes, append_assoc)

serialize_stake-stake_bytes : (s : Ser) (b : Block) → serialize_stake s b ≡ s ++ stake_bytes b
unfolding serialize_stake add_fixed_byte_array add_uvarint append_uvarint
serialize_stake-stake_bytes s b = elim (Bool-cases (ltb 0 b.version)) [
  | inl e ↦ rw e (simp append_assoc)
  | inr e ↦ rw e (sym (append-nil s))
]

pub serialize_header-header_bytes : (b : Block) → serialize_header b ≡ header_bytes b
unfolding serialize_header add_fixed_byte_array add_uvarint append_uvarint add_uint8 add_uint32
serialize_header-header_bytes b = simp (
  serialize_stake-stake_bytes, serialize_side_blocks-side_blocks_bytes,
  serialize_chains-chains_bytes, serialize_ancestors-ancestors_bytes, append_assoc,
)

serialize_hashes-hashes_bytes :
    (s : Ser) (vs : List ℕ) → serialize_hashes s vs ≡ s ++ hashes_bytes vs
unfolding serialize_hashes add_fixed_byte_array
serialize_hashes-hashes_bytes s [] = sym (append-nil s)
serialize_hashes-hashes_bytes s (v ∷ vs) =
    serialize_hashes-hashes_bytes (s ++ be_bytes hash_size v) vs ∙ simp append_assoc

pub serialize_block-block_bytes :
    (b : Block) → is_zero b.difficulty ≡ false → serialize_block b ≡ block_bytes b
unfolding serialize_block serialize_difficulty add_byte_slice add_bytes add_uvarint append_uvarint
serialize_block-block_bytes b nonzero =
    rw nonzero (simp (serialize_hashes-hashes_bytes, serialize_header-header_bytes, append_assoc))
