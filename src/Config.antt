-- ===== src/Config.antt =====
-- The constants of the mainnet build: config/config.go, config/advanced.go and
-- config/config_mainnet.go.
use virel_blockchain.Base.{ℕ, ◌*◌, ◌+◌}

abbrev pub coin : ℕ
coin = 1_000_000_000

abbrev pub fee_per_byte : ℕ
fee_per_byte = 500_000

abbrev pub fee_per_byte_v2 : ℕ
fee_per_byte_v2 = 2_000_000

abbrev pub block_reward : ℕ
block_reward = 175_000_000_000

abbrev pub target_block_time : ℕ
target_block_time = 15

abbrev pub blocks_per_day : ℕ
blocks_per_day = 5760

-- BLOCKS_PER_DAY * 91
abbrev pub reduction_interval : ℕ
reduction_interval = 524_160

-- REDUCTION_INTERVAL * BLOCK_REWARD * 10 + BLOCK_REWARD * REDUCTION_INTERVAL
abbrev pub max_supply : ℕ
max_supply = reduction_interval * block_reward * 10 + block_reward * reduction_interval

abbrev pub block_reward_fee_percent : ℕ
block_reward_fee_percent = 10

abbrev pub max_tx_per_block : ℕ
max_tx_per_block = 1_000

abbrev pub max_outputs : ℕ
max_outputs = 32

abbrev pub max_merge_mined_chains : ℕ
max_merge_mined_chains = 16

abbrev pub max_side_blocks : ℕ
max_side_blocks = 2

abbrev pub minidag_ancestors : ℕ
minidag_ancestors = 3

abbrev pub min_difficulty : ℕ
min_difficulty = 100_000

abbrev pub difficulty_n : ℕ
difficulty_n = 120

abbrev pub genesis_timestamp : ℕ
genesis_timestamp = 1_755_522_000_000

abbrev pub network_id : ℕ
network_id = 0xd38d_ab1d_4676_d0c5

abbrev pub min_stake_amount : ℕ
min_stake_amount = 100_000_000_000

abbrev pub register_delegate_burn : ℕ
register_delegate_burn = 1_000_000_000_000

abbrev pub stake_unlock_time : ℕ
stake_unlock_time = 345_600

abbrev pub hardfork_v2_height : ℕ
hardfork_v2_height = 100_000

abbrev pub hardfork_v3_height : ℕ
hardfork_v3_height = 230_500
