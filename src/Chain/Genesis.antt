-- ===== src/Chain/Genesis.antt =====
-- addGenesis of blockchain/blockchain.go, and the blocks that CreateCheckpoints and GetBlockByHeight
-- look up on the main chain.
use virel_blockchain.Base.{
  ℕ, Bool, true, false, if◌then◌else◌, Option, none, some, [], ◌>>=◌, ◌>>◌, pure, gets, modify,
  or_fail,
}
use virel_blockchain.Base.Dict.{lookup}
use virel_blockchain.Config.{genesis_timestamp}
use virel_blockchain.Uint128.{from_64}
use virel_blockchain.Block.{Block}
use virel_blockchain.Ledger.{Do, unknown_block}
use virel_blockchain.Ledger.Blocks.{insert_block_main, set_mempool, apply_block_to_state}
use virel_blockchain.Chain.{Node, get_block}

unfoldable pub genesis_block : (genesis_address : ℕ) → Block
genesis_block genesis_address = record {
  version = 0;
  height = 0;
  timestamp = genesis_timestamp;
  nonce = 0x1337;
  nonce_extra = 0;
  other_chains = [];
  recipient = genesis_address;
  ancestors = record { first = 0; second = 0; third = 0 };
  side_blocks = [];
  delegate_id = 0;
  next_delegate_id = 0;
  stake_signature = 0;
  difficulty = from_64 1;
  cumulative_diff = from_64 1;
  transactions = [];
}

abbrev is_present : Option Block → Bool
is_present none = false
is_present (some b) = true

unfoldable pub add_genesis : Node → Do (Unit {0})
add_genesis node = do
  let genesis = genesis_block node.env.genesis_address
  let hash = node.block_hash genesis
  present ← gets (λ s. is_present (lookup hash s.blocks))
  if present
      then pure tt
      else (insert_block_main genesis hash
          >> (modify (λ s. record s {
            stats = record {
              top_hash = hash;
              top_height = 0;
              cumulative_diff = genesis.difficulty;
              tips = [];
              orphans = [];
              staked_amount = 0;
            };
          })
              >> (set_mempool node.env [] >> apply_block_to_state node.env genesis hash)))

-- GetTopo with its error.
unfoldable pub known_topo : (height : ℕ) → Do ℕ
known_topo height = do or_fail (← gets (λ s. lookup height s.topo)) unknown_block

unfoldable pub get_block_by_height : (height : ℕ) → Do Block
get_block_by_height height = do hash ← known_topo height; get_block hash
