-- ===== src/Difficulty.antt =====
-- The difficulty of the next block: GetNextDifficulty and difficultyEMA of blockchain/difficulty.go,
-- in the mainnet build, whose genesis timestamp is not zero. A panic of the 128-bit arithmetic is
-- `panic`; `err` stands for the error of GetBlock.
pub mod Retarget
use virel_blockchain.Base.{
  ℕ, ◌+◌, ◌-◌, ◌*◌, ◌/◌, ◌%◌, ◌^◌, Bool, ◌&&◌, Option, none, some, Result, ok, err, panic, ltb, leb,
  if◌then◌else◌, add64, sub64, mul64,
}
use virel_blockchain.Base.Dict.{Dict, lookup}
use virel_blockchain.Config.{target_block_time, difficulty_n, genesis_timestamp, min_difficulty}
use virel_blockchain.Uint128
use virel_blockchain.Uint128.{Uint128, from_64, Comparison}
use virel_blockchain.Block.{Block, prev_hash}

-- In milliseconds.
abbrev pub max_deviation : ℕ
max_deviation = target_block_time * 1000 * 2 * difficulty_n

unfoldable pub difficulty_ema : (solve_time : ℕ) → Uint128 → Option Uint128
difficulty_ema solve_time prev_diff =
    let target = target_block_time * 1000 in
    elim (Uint128.mul_64 prev_diff (difficulty_n * target)) [
      | none ↦ none
      | some num ↦ Uint128.div_64 num (add64 (difficulty_n * target - target) solve_time)
    ]

-- The comparisons of `int64(a) - int64(b)` with `m` and `-m`, for `0 < m < 2 ^ 63`: the difference is a
-- word in two's complement.
abbrev pub above_by : (a b m : ℕ) → Bool
above_by a b m = let d = sub64 a b in ltb d (2 ^ 63) && ltb m d

abbrev pub below_by : (a b m : ℕ) → Bool
below_by a b m = let d = sub64 a b in leb (2 ^ 63) d && ltb d (2 ^ 64 - m)

-- The time since the previous block, with the correction towards the schedule of the chain.
unfoldable pub corrected_time : (height timestamp prev_timestamp : ℕ) → ℕ
corrected_time height timestamp prev_timestamp =
    let delta = sub64 timestamp prev_timestamp in
    let delta_time = if ltb delta 100 then 100 else delta in
    let expected = add64 (mul64 (mul64 height target_block_time) 1000) genesis_timestamp in
    if above_by timestamp expected max_deviation
    then mul64 delta_time 3 / 2
    else if below_by timestamp expected max_deviation
    then mul64 delta_time 2 / 3
    else delta_time

-- No difficulty below the minimum.
unfoldable pub at_least_minimum : Uint128 → Uint128
at_least_minimum d = elim (Uint128.cmp_64 d min_difficulty) [
  | Comparison.less ↦ from_64 min_difficulty
  | _ ↦ d
]

unfoldable pub get_next_difficulty : Dict Block → Block → Result (Unit {0}) Uint128
get_next_difficulty blocks bl =
    if ltb bl.height 2 then ok (from_64 min_difficulty) else elim (lookup (prev_hash bl) blocks) [
      | none ↦ err tt
      | some prev ↦
          elim (difficulty_ema (corrected_time bl.height bl.timestamp prev.timestamp)
            bl.difficulty) [ none ↦ panic | some d ↦ ok (at_least_minimum d) ]
    ]
