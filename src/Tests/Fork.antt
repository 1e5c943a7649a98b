-- ===== src/Tests/Fork.antt =====
-- A chain of three blocks with a fork of two behind the second: 11, 12 and 13 on the main chain, 14 and
-- 15 on 12.
use virel_blockchain.Base.{◌+◌, [], ◌∷◌, ◌==◌}
use virel_blockchain.Base.Dict.{Dict}
use virel_blockchain.Uint128.{from_64}
use virel_blockchain.Chaintype.{State}
use virel_blockchain.Block.{Block}
use virel_blockchain.Stats.{AltchainTip}
use virel_blockchain.Ledger.{Ledger}
use virel_blockchain.Chain.{Node}
use virel_blockchain.Tests.Data.{env, empty_ledger, empty_stats, block_at}

abbrev pub node : Node
node = record {
  env = env;
  base_hash = λ b. b.height + b.nonce;
  block_hash = λ b. b.height + 11;
  verify_signature = λ owner staked_hash signature. signature == owner;
}

abbrev pub rich : State
rich = record {
  balance = 1_000_000_000_000_000;
  last_nonce = 0;
  last_incoming = 10;
  delegate_id = 0;
}

abbrev pub block_11 : Block
block_11 = block_at 0 0 1007 []

abbrev pub block_12 : Block
block_12 = block_at 1 11 1007 []

abbrev pub block_13 : Block
block_13 = block_at 2 12 1007 []

abbrev pub block_14 : Block
block_14 = block_at 2 12 1007 []

abbrev pub block_15 : Block
block_15 = block_at 3 14 1007 []

abbrev tip_14 : AltchainTip
tip_14 = record { hash = 14; height = 2; cumulative_diff = from_64 200_000 }

abbrev pub tip_15 : AltchainTip
tip_15 = record { hash = 15; height = 3; cumulative_diff = from_64 300_000 }

abbrev pub main_blocks : Dict Block
main_blocks = (11, block_11) ∷ (12, block_12) ∷ (13, block_13) ∷ (14, block_14) ∷ []

-- Before the block 15 comes.
abbrev pub forked : Ledger
forked = record empty_ledger {
  states = (500, rich) ∷ (1007, rich) ∷ [];
  blocks = main_blocks;
  topo = (0, 11) ∷ (1, 12) ∷ (2, 13) ∷ [];
  stats = record empty_stats {
    top_hash = 13;
    top_height = 2;
    cumulative_diff = from_64 200_000;
    tips = (14, tip_14) ∷ [];
  };
}
