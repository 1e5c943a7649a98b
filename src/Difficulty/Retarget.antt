-- ===== src/Difficulty/Retarget.antt =====
-- What the retarget computes, on natural numbers.
use virel_blockchain.Base.{
  ℕ, ◌+◌, ◌-◌, ◌*◌, ◌/◌, ◌^◌, ◌≤◌, ◌<◌, ◌≡◌, refl, some, ok, arith, ltb, le→ltb, leb, if◌then◌else◌,
}
use virel_blockchain.Base.Dict.{Dict, lookup}
use virel_blockchain.Config.{min_difficulty, genesis_timestamp}
use virel_blockchain.Uint128.{Uint128, IsWord, value, of_value}
use virel_blockchain.Uint128.Arith.{cmp_64-compare_values}
use virel_blockchain.Uint128.Product.{mul_64-checked}
use virel_blockchain.Uint128.Division.{div_64-exact}
use virel_blockchain.Block.{Block, prev_hash}
use virel_blockchain.Difficulty.{
  difficulty_ema, corrected_time, at_least_minimum, get_next_difficulty,
}
use native.Mathlib.Nat.{div-le_self}

-- The schedule: block `height` is expected 15 seconds per block after the genesis.
abbrev pub expected_time : ℕ → ℕ
expected_time height = height * 15_000 + genesis_timestamp

-- The gap, at least 100 ms, is 3/2 as long for a block an hour late, and 2/3 for one an hour early.
abbrev pub gap : (height timestamp prev_timestamp : ℕ) → ℕ
gap height timestamp prev_timestamp =
    let long = if leb (prev_timestamp + 100) timestamp then timestamp - prev_timestamp else 100 in
    if ltb (expected_time height + 3_600_000) timestamp
    then long * 3 / 2
    else if ltb (timestamp + 3_600_000) (expected_time height)
    then long * 2 / 3
    else long

-- The weighted mean: 119 parts of 15 seconds and the gap.
abbrev pub retarget : (difficulty time : ℕ) → ℕ
retarget difficulty time = difficulty * 1_800_000 / (1_785_000 + time)

pub corrected_time-gap :
    (height timestamp prev_timestamp : ℕ)
    → height < 2 ^ 48
    → timestamp < 2 ^ 62
    → prev_timestamp ≤ timestamp
    → corrected_time height timestamp prev_timestamp ≡ gap height timestamp prev_timestamp
unfolding corrected_time
corrected_time-gap height timestamp prev_timestamp hh ht le = ground arith

retarget_fits : (d time : ℕ) → d * 1_800_000 < 2 ^ 128 → retarget d time < 2 ^ 128
retarget_fits d time h = omega (arith, div-le_self (d * 1_800_000) (1_785_000 + time))

of_value-IsWord : (n : ℕ) → n < 2 ^ 128 → IsWord (of_value n)
of_value-IsWord n h = record { lo_word = omega arith; hi_word = omega arith }

difficulty_ema-retarget :
    (time : ℕ) (d : Uint128)
    → time < 2 ^ 63
    → IsWord d
    → value d * 1_800_000 < 2 ^ 128
    → difficulty_ema time d ≡ some (of_value (retarget (value d) time))
unfolding difficulty_ema
difficulty_ema-retarget time d ht w room =
    let word = of_value-IsWord (value d * 1_800_000) room in
    ground (
      arith,
      mul_64-checked d 1_800_000 w (omega arith),
      div_64-exact (of_value (value d * 1_800_000)) (1_785_000 + time) word (omega arith)
          (omega arith),
    )

at_least_minimum_lem :
    (n : ℕ)
    → n < 2 ^ 128
    → at_least_minimum (of_value n) ≡ of_value (if ltb n min_difficulty then min_difficulty else n)
unfolding at_least_minimum
at_least_minimum_lem n h =
    ground
      (arith, cmp_64-compare_values (of_value n) min_difficulty (of_value-IsWord n h) (omega arith))

gap_fits :
    (height timestamp prev_timestamp : ℕ)
    → timestamp < 2 ^ 62
    → gap height timestamp prev_timestamp < 2 ^ 63
gap_fits height timestamp prev_timestamp h = ground arith

-- From height 2 on, with a previous block that is not younger, with timestamps below 2 ^ 62, a height
-- below 2 ^ 48 and a difficulty that leaves room for the factor 1,800,000, the next difficulty is the
-- weighted mean of the difficulty over 120 blocks and the gap corrected towards the schedule, and at
-- least the minimum; nothing overflows, and no call panics.
pub get_next_difficulty-retarget :
    (blocks : Dict Block) (bl prev : Block)
    → lookup (prev_hash bl) blocks ≡ some prev
    → 2 ≤ bl.height
    → bl.height < 2 ^ 48
    → bl.timestamp < 2 ^ 62
    → prev.timestamp ≤ bl.timestamp
    → IsWord bl.difficulty
    → value bl.difficulty * 1_800_000 < 2 ^ 128
    → get_next_difficulty blocks bl
      ≡ ok (
          let n = retarget (value bl.difficulty) (gap bl.height bl.timestamp prev.timestamp) in
          of_value (if ltb n min_difficulty then min_difficulty else n))
unfolding get_next_difficulty
get_next_difficulty-retarget blocks bl prev e low high ht le w room =
    let g = gap bl.height bl.timestamp prev.timestamp in
    rw
      (
        e,
        le→ltb bl.height 2 low,
        corrected_time-gap bl.height bl.timestamp prev.timestamp high ht le,
        difficulty_ema-retarget g bl.difficulty (gap_fits bl.height bl.timestamp prev.timestamp ht)
            w room,
        at_least_minimum_lem (retarget (value bl.difficulty) g)
            (retarget_fits (value bl.difficulty) g room),
      )
      refl
