-- ===== src/Chain.antt =====
-- Adding blocks to the chain: checkBlock, AddBlock, addAltchainBlock and CheckReorgs of
-- blockchain/blockchain.go. The hashes of blocks, which blake3 computes, and the check of a signature
-- are parameters.
pub mod Check
pub mod Prevalidate
pub mod Siblings
pub mod Reorg
pub mod Add
pub mod Genesis
pub mod Export
pub mod Accepted
pub mod Search
pub mod Heaviest
pub mod Consistent
pub mod Kept
pub mod Repeated
use virel_blockchain.Base.{ℕ, Bool, Option, none, some, gets, or_fail, ◌>>=◌, List, ◌≡◌, ◌+◌}
use virel_blockchain.Base.Dict.{Dict, lookup}
use virel_blockchain.Block.{Block, prev_hash}
use virel_blockchain.Ledger.{Ledger, Do, unknown_block}
use virel_blockchain.Ledger.Blocks.{Environment}

-- `verify_signature owner staked_hash signature` checks the signature on the staked hash with its
-- prefix.
pub record Node : Type 0 where
  pub env : Environment
  pub base_hash : Block → ℕ
  pub block_hash : Block → ℕ
  pub verify_signature : (owner staked_hash signature : ℕ) → Bool

unfoldable pub get_block : (hash : ℕ) → Do Block
get_block hash = do or_fail (← gets (λ s. lookup hash s.blocks)) unknown_block

-- GetTopo: on an absent height the hash is zero, and the caller at hand drops the error.
abbrev pub or_zero_hash : Option ℕ → ℕ
or_zero_hash none = 0
or_zero_hash (some hash) = hash

unfoldable pub get_topo : (height : ℕ) → Do ℕ
get_topo height = gets (λ s. or_zero_hash (lookup height s.topo))
