-- ===== src/Emission/Bounds.antt =====
-- The reward of each phase of block/reward.go, and what the phases emit together.
use virel_blockchain.Base.{
  ℕ, zero, suc, ◌+◌, ◌-◌, ◌*◌, ◌/◌, ◌≤◌, ◌≡◌, refl, sym, ap, ◌∙◌, arith, mul64, ◌==◌, if◌then◌else◌,
}
use virel_blockchain.Config.{block_reward, reduction_interval, max_supply}
use virel_blockchain.Emission.{reduce, reward}

-- The reward of every block of the phase `k`.
abbrev pub phase_reward : ℕ → ℕ
phase_reward zero = block_reward
phase_reward (suc k) = reduce block_reward k

-- What the first `k` phases emit.
unfoldable pub emitted : ℕ → ℕ
emitted zero = 0
emitted (suc k) = emitted k + reduction_interval * phase_reward k

pub reward-phase_reward : (h : ℕ) → reward h ≡ phase_reward (h / reduction_interval)
unfolding reward
reward-phase_reward h = go (h / reduction_interval)
  where
    go : (k : ℕ) → (if k == 0 then block_reward else reduce block_reward (k - 1)) ≡ phase_reward k
    go zero = refl
    go (suc k) = ground arith

reduce_snoc : (n c : ℕ) → reduce n (suc c) ≡ mul64 (reduce n c) 9 / 10
unfolding reduce
reduce_snoc n zero = refl
reduce_snoc n (suc c) = reduce_snoc (mul64 n 9 / 10) c

reduce-le : (n c : ℕ) → reduce n c ≤ n
unfolding reduce
reduce-le n zero = omega arith
reduce-le n (suc c) = omega (arith, reduce-le (mul64 n 9 / 10) c)

-- The reward falls by a tenth at least from one phase to the next, and rounding is downwards.
reduce_step : (n c : ℕ) → 10 * reduce n (suc c) ≤ 9 * reduce n c
reduce_step n c = omega (arith, reduce_snoc n c)

pub phase_reward-le : (k : ℕ) → phase_reward k ≤ block_reward
phase_reward-le zero = omega arith
phase_reward-le (suc k) = reduce-le block_reward k

-- What is emitted, with ten more phases of the next reward, stays within the maximum.
emitted_budget :
    (k : ℕ) → emitted (suc k) + 10 * (reduction_interval * phase_reward (suc k)) ≤ max_supply
unfolding emitted
emitted_budget zero = unfold reduce in omega arith
emitted_budget (suc k) = omega (arith, emitted_budget k, reduce_step block_reward k)

pub emitted-le : (k : ℕ) → emitted k ≤ max_supply
unfolding emitted
emitted-le zero = omega arith
emitted-le (suc k) = omega (arith, emitted_budget k)

phase_reward_falls : (k : ℕ) → phase_reward (suc (suc k)) ≡ phase_reward (suc k) * 9 / 10
phase_reward_falls k = omega (arith, reduce_snoc block_reward k, reduce-le block_reward k)

-- From the second interval on, the reward of a block one interval later is 9 / 10 of the reward, rounded
-- down: the products of the code do not wrap.
pub reward_falls :
    (h : ℕ) → reduction_interval ≤ h → reward (h + reduction_interval) ≡ reward h * 9 / 10
reward_falls h late =
    let k = h / reduction_interval - 1 in
    let here : h / reduction_interval ≡ suc k = omega arith in
    let there : (h + reduction_interval) / reduction_interval ≡ suc (suc k) = omega arith in
    reward-phase_reward (h + reduction_interval)
    ∙ ap phase_reward there
    ∙ phase_reward_falls k
    ∙ ap (λ (t : ℕ). t * 9 / 10) (sym (reward-phase_reward h ∙ ap phase_reward here))
