-- ===== src/Block.antt =====
-- The data of a block: block/block.go, block/commitment.go, block/ancestors.go and
-- block/miningblob.go.
pub mod Codec
pub mod Work
pub mod Mining
use virel_blockchain.Base.{ℕ, Bool, List, ◌==◌}
use virel_blockchain.Uint128.{Uint128}

pub record HashingId : Type 0 where
  pub network_id : ℕ
  pub hash : ℕ

-- Ancestors: the hashes of the three blocks before, the latest first.
pub record Ancestors : Type 0 where
  pub first : ℕ
  pub second : ℕ
  pub third : ℕ

pub record Commitment : Type 0 where
  pub base_hash : ℕ
  pub ancestors : Ancestors
  pub timestamp : ℕ
  pub nonce : ℕ
  pub nonce_extra : ℕ
  pub other_chains : List HashingId

pub record Block : Type 0 where
  pub version : ℕ
  pub height : ℕ
  pub timestamp : ℕ
  pub nonce : ℕ
  pub nonce_extra : ℕ
  pub other_chains : List HashingId
  pub recipient : ℕ
  pub ancestors : Ancestors
  pub side_blocks : List Commitment
  pub delegate_id : ℕ
  pub next_delegate_id : ℕ
  pub stake_signature : ℕ
  pub difficulty : Uint128
  pub cumulative_diff : Uint128
  pub transactions : List ℕ

-- BlankSignature is all zeros.
abbrev pub blank_signature : ℕ
blank_signature = 0

abbrev pub prev_hash : Block → ℕ
prev_hash b = b.ancestors.first

abbrev pub block_staked_hash : Block → ℕ
block_staked_hash b = b.ancestors.third

-- The test of `b.StakeSignature == bitcrypto.BlankSignature`.
abbrev pub is_unsigned : Block → Bool
is_unsigned b = b.stake_signature == blank_signature
