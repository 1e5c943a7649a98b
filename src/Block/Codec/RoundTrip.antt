-- ===== src/Block/Codec/RoundTrip.antt =====
-- Blocks are read back as they were written.
use virel_blockchain.Base.{
  ℕ, ◌^◌, ◌≤◌, ◌<◌, ◌≡◌, ◌⊎◌, inl, inr, false, lt→ltb, le→ltb, List, [], ◌∷◌, ◌++◌, length, All, ok,
  arith, IsU64,
}
use virel_blockchain.Config.{max_tx_per_block}
use virel_blockchain.Uint128.{IsWord, is_zero}
use virel_blockchain.Binary.{new_des}
use virel_blockchain.Binary.Reads.{
  Reads, Reads-pure, Reads-bind, Reads-last, Reads-checked, Reads-passed, Reads-check_error,
  Reads-uint8, Reads-uint32, Reads-uvarint, Reads-fixed_byte_array,
}
use virel_blockchain.Transaction.Codec.{address_size, signature_size}
use virel_blockchain.Block.{Block}
use virel_blockchain.Block.Codec.{
  nonce_extra_size, deserialize_stake, deserialize_header, serialize_block, deserialize_block,
}
use virel_blockchain.Block.Codec.Bytes.{
  stake_bytes, header_bytes, block_bytes, serialize_block-block_bytes,
}
use virel_blockchain.Block.Codec.Parts.{
  IsHash, IsAncestors, IsHashingId, IsCommitment, Reads-deserialize_ancestors, Reads-read_chains,
  Reads-read_side_blocks, Reads-deserialize_difficulty, Reads-deserialize_hashes,
}

-- Version 0 has no staking fields: they are zero.
abbrev pub IsStakePart : Block → Type 0
IsStakePart b =
    ((b.version ≡ 0) × (b.delegate_id ≡ 0) × (b.next_delegate_id ≡ 0) × (b.stake_signature ≡ 0))
    ⊎ ((0 < b.version)
        × IsU64 b.delegate_id
        × IsU64 b.next_delegate_id
        × (b.stake_signature < 256 ^ signature_size))

-- The fields are values of their Go types; there are at most 15 chains, 2 side blocks and 1,000
-- transactions.
pub record IsBlock (b : Block) : Type 0 where
  pub version_fits : b.version < 256
  pub height_fits : IsU64 b.height
  pub timestamp_fits : IsU64 b.timestamp
  pub nonce_fits : b.nonce < 2 ^ 32
  pub nonce_extra_fits : b.nonce_extra < 256 ^ nonce_extra_size
  pub recipient_fits : b.recipient < 256 ^ address_size
  pub ancestors_fit : IsAncestors b.ancestors
  pub chains_fit : All IsHashingId b.other_chains
  pub few_chains : length b.other_chains ≤ 15
  pub side_blocks_fit : All IsCommitment b.side_blocks
  pub few_side_blocks : length b.side_blocks ≤ 2
  pub stake_part : IsStakePart b
  pub difficulty_fits : IsWord b.difficulty
  pub cumulative_diff_fits : IsWord b.cumulative_diff
  pub transactions_fit : All IsHash b.transactions
  pub few_transactions : length b.transactions ≤ max_tx_per_block

abbrev stake_part : Block → ℕ × ℕ × ℕ
stake_part b = (b.delegate_id, b.next_delegate_id, b.stake_signature)

Reads-deserialize_stake :
    (b : Block) → IsStakePart b → Reads (deserialize_stake b.version) (stake_bytes b) (stake_part b)
unfolding deserialize_stake
Reads-deserialize_stake b (inl (e, hd, hn, hs)) = rw (e, hd, hn, hs) (Reads-pure (0, 0, 0))
Reads-deserialize_stake b (inr (pos, hd, hn, hs)) = rw (lt→ltb 0 b.version pos) (
    Reads-bind _ (Reads-uvarint b.delegate_id hd) (
      Reads-bind _ (Reads-uvarint b.next_delegate_id hn) (
        Reads-last (λ (s : ℕ). (b.delegate_id, b.next_delegate_id, s))
          (Reads-fixed_byte_array signature_size b.stake_signature hs))))

abbrev pub header_of : Block → Block
header_of b = record b {
  difficulty = record { lo = 0; hi = 0 };
  cumulative_diff = record { lo = 0; hi = 0 };
  transactions = [];
}

pub Reads-deserialize_header :
    (b : Block) → IsBlock b → Reads deserialize_header (header_bytes b) (header_of b)
unfolding deserialize_header
Reads-deserialize_header b fits = Reads-bind _ {front = b.version ∷ []} (Reads-uint8 b.version) (
    Reads-bind _ (Reads-uvarint b.height fits.height_fits) (
      Reads-bind _ (Reads-uvarint b.timestamp fits.timestamp_fits) (
        Reads-bind _ (Reads-uint32 b.nonce fits.nonce_fits) (
          Reads-bind _ (Reads-fixed_byte_array nonce_extra_size b.nonce_extra fits.nonce_extra_fits)
            (Reads-bind _ (Reads-fixed_byte_array address_size b.recipient fits.recipient_fits) (
              Reads-bind _ (Reads-deserialize_ancestors b.ancestors fits.ancestors_fit) (
                Reads-bind _ {front = []} Reads-check_error (
                  Reads-bind _ (Reads-read_chains b.other_chains fits.chains_fit fits.few_chains) (
                    Reads-bind _
                      (Reads-read_side_blocks b.side_blocks fits.side_blocks_fit
                        fits.few_side_blocks)
                      (Reads-checked
                        (λ (p : ℕ × ℕ × ℕ). record (header_of b) {
                          delegate_id = p.0;
                          next_delegate_id = p.1;
                          stake_signature = p.2;
                        })
                        (Reads-deserialize_stake b fits.stake_part)))))))))))

-- A block whose fields are values of their Go types, with at most 15 merge-mined chains, 2 side blocks
-- (of at most 15 chains each) and 1,000 transactions, with a difficulty other than zero and, at
-- version 0, with staking fields that are zero, is read back from what `serialize_block` writes, in front of
-- any other bytes, which stay unread.
pub deserialize_block-serialize_block :
    (b : Block) (rest : List ℕ)
    → IsBlock b
    → is_zero b.difficulty ≡ false
    → deserialize_block (new_des (serialize_block b ++ rest)) ≡ (ok b, new_des rest)
deserialize_block-serialize_block b rest fits nonzero =
    rw (serialize_block-block_bytes b nonzero) (whole.run rest)
  where
    whole : Reads deserialize_block (block_bytes b) b
    whole =
        unfold deserialize_block in
        Reads-bind _ (Reads-deserialize_header b fits) (
          Reads-bind _ (Reads-deserialize_difficulty b.difficulty fits.difficulty_fits) (
            Reads-bind _ (Reads-deserialize_difficulty b.cumulative_diff fits.cumulative_diff_fits)
              (Reads-bind _ {front = []} Reads-check_error (
                Reads-bind _
                  (Reads-uvarint (length b.transactions) (omega (arith, fits.few_transactions)))
                  (Reads-bind _ {front = []} Reads-check_error (
                    Reads-passed _
                      (le→ltb max_tx_per_block (length b.transactions) fits.few_transactions)
                      (Reads-checked (λ (l : List ℕ). record b { transactions = l })
                        (Reads-deserialize_hashes b.transactions fits.transactions_fit))))))))
