-- ===== src/Emission.antt =====
-- The emission schedule of block/reward.go. Every sum and product is taken modulo 2 ^ 64, as the
-- code's uint64 does.
pub mod Bounds
pub mod Supply
use virel_blockchain.Base.{
  ℕ, zero, suc, ◌+◌, ◌-◌, ◌/◌, ◌%◌, add64, sub64, mul64, ◌==◌, if◌then◌else◌,
}
use virel_blockchain.Config.{block_reward, reduction_interval}

unfoldable pub reduce : ℕ → ℕ → ℕ
reduce n zero = n
reduce n (suc count) = reduce (mul64 n 9 / 10) count

unfoldable pub reward : ℕ → ℕ
unfolding reduce
reward height =
    let reductions = height / reduction_interval in
    if reductions == 0 then block_reward else reduce block_reward (reductions - 1)

-- The loop of `supplyAtPhase`: `supply` is what the rounds so far have added.
unfoldable pub supply_loop : ℕ → ℕ → ℕ
supply_loop zero supply = supply
supply_loop (suc reductions) supply = supply_loop reductions (
    add64 supply
      (mul64 (reward (sub64 (mul64 reduction_interval (suc reductions)) 1)) reduction_interval))

unfoldable pub supply_at_phase : ℕ → ℕ
unfolding supply_loop
supply_at_phase reductions = supply_loop reductions 0

unfoldable pub get_supply_at_height : ℕ → ℕ
unfolding supply_at_phase
get_supply_at_height height =
    let reductions = height / reduction_interval in
    let reduction_blocks = height % reduction_interval + 1 in
    add64 (supply_at_phase reductions) (mul64 (reward height) reduction_blocks)
