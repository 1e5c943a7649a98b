-- ===== src/Tests/Data.antt =====
-- A small chain: a genesis block, and a block with one transfer.
use virel_blockchain.Base.{ℕ, ◌+◌, ◌*◌, List, [], ◌∷◌}
use virel_blockchain.Base.Dict.{Dict}
use virel_blockchain.Uint128.{from_64}
use virel_blockchain.Transaction.{Transaction, transfer, tx_version_transfer}
use virel_blockchain.Block.{Block}
use virel_blockchain.Chaintype.{Delegate}
use virel_blockchain.Stats.{Stats}
use virel_blockchain.Ledger.{Ledger}
use virel_blockchain.Ledger.Blocks.{Environment, apply_block_to_state, add_mainchain_block}

-- The hash of a key, as a function.
abbrev pub key_hash : ℕ → ℕ
key_hash k = k + 1000

abbrev pub values_of : Dict Delegate → List Delegate
values_of [] = []
values_of ((k, d) ∷ ds) = d ∷ values_of ds

abbrev pub env : Environment
env = record {
  from_pub_key = key_hash;
  genesis_address = 500;
  list_delegates = values_of;
  now = 100;
}

abbrev pub empty_stats : Stats
empty_stats = record {
  top_hash = 0;
  top_height = 0;
  cumulative_diff = from_64 0;
  tips = [];
  orphans = [];
  staked_amount = 0;
}

abbrev pub empty_ledger : Ledger
empty_ledger = record {
  states = [];
  delegates = [];
  delegate_history = [];
  txs = [];
  blocks = [];
  topo = [];
  in_txs = [];
  out_txs = [];
  mempool = [];
  stats = empty_stats;
  sync_height = 0;
  sync_diff = from_64 0;
}

abbrev pub block_at : (height prev recipient : ℕ) → List ℕ → Block
block_at height prev recipient txs = record {
  version = 0;
  height = height;
  timestamp = 1_755_522_000_000 + 15_000 * height;
  nonce = 0;
  nonce_extra = 0;
  other_chains = [];
  recipient = recipient;
  ancestors = record { first = prev; second = 0; third = 0 };
  side_blocks = [];
  delegate_id = 0;
  next_delegate_id = 0;
  stake_signature = 0;
  difficulty = from_64 100_000;
  cumulative_diff = from_64 (100_000 * height);
  transactions = txs;
}

-- The miner of the genesis block is the key 7, with the address 1007.
abbrev pub genesis_block : Block
genesis_block = block_at 0 0 1007 []

abbrev pub after_genesis : Ledger
after_genesis = (apply_block_to_state env genesis_block 11 empty_ledger).1

-- The key 7 sends 5 coins, with a fee of 1.
abbrev pub payment : Transaction
payment = record {
  version = tx_version_transfer;
  signer = 7;
  signature = 0;
  body = transfer (record { recipient = 2000; payment_id = 0; amount = 5_000_000_000 } ∷ []);
  nonce = 1;
  fee = 1_000_000_000;
}

abbrev pub with_payment : Ledger
with_payment = record after_genesis { txs = (77, record { height = 0; tx = payment }) ∷ [] }

abbrev pub second_block : Block
second_block = block_at 1 11 1007 (77 ∷ [])

abbrev pub after_second : Ledger
after_second = (add_mainchain_block env second_block 12 with_payment).1
