-- ===== src/Emission/Supply.antt =====
-- GetSupplyAtHeight of block/reward.go against the sum of the rewards.
use virel_blockchain.Base.{
  ℕ, zero, suc, ◌+◌, ◌*◌, ◌/◌, ◌%◌, ◌^◌, ◌≤◌, ◌<◌, ◌≡◌, refl, ap, ◌∙◌, arith, add64, mul64, sub64,
  IsU64, inl, inr, ◌⊎◌,
}
use virel_blockchain.Config.{reduction_interval, max_supply}
use virel_blockchain.Emission.{reward, supply_loop, supply_at_phase, get_supply_at_height}
use virel_blockchain.Emission.Bounds.{phase_reward, emitted, reward-phase_reward, emitted-le}

-- The rewards of the blocks 0 to `h`, added up.
unfoldable pub total_reward : ℕ → ℕ
total_reward zero = reward 0
total_reward (suc h) = total_reward h + reward (suc h)

last_of_phase :
    (k : ℕ)
    → IsU64 (reduction_interval * suc k)
    → reward (sub64 (mul64 reduction_interval (suc k)) 1) ≡ phase_reward k
last_of_phase k h =
    reward-phase_reward _
    ∙ ap phase_reward {x = sub64 (mul64 reduction_interval (suc k)) 1 / reduction_interval}
        (omega arith)

supply_loop-emitted :
    (k s : ℕ)
    → IsU64 (reduction_interval * k)
    → s + emitted k < 2 ^ 64
    → supply_loop k s ≡ s + emitted k
unfolding supply_loop emitted
supply_loop-emitted zero s h hs = omega arith
supply_loop-emitted (suc k) s h hs =
    let e : add64 s (mul64 (reward (sub64 (mul64 reduction_interval (suc k)) 1)) reduction_interval)
        ≡ s + reduction_interval * phase_reward k =
      omega (arith, last_of_phase k h) in
    ap (supply_loop k) e
    ∙ omega (arith, supply_loop-emitted k (s + reduction_interval * phase_reward k))

last_or_not :
    (r : ℕ) → r < reduction_interval → (r + 1 < reduction_interval) ⊎ (r + 1 ≡ reduction_interval)
last_or_not r h = omega arith

-- The rewards by phases.
total_reward-emitted :
    (h : ℕ)
    → total_reward h
      ≡ emitted (h / reduction_interval)
        + phase_reward (h / reduction_interval) * (h % reduction_interval + 1)
unfolding total_reward emitted
total_reward-emitted zero = unfold reward in refl
total_reward-emitted (suc h) = elim (last_or_not (h % reduction_interval) (omega arith)) [
  | inl inside ↦
      let same : suc h / reduction_interval ≡ h / reduction_interval = omega arith in
      let next : suc h % reduction_interval ≡ h % reduction_interval + 1 = omega arith in
      rw (same, next)
        (omega (arith, total_reward-emitted h, reward-phase_reward (suc h) ∙ ap phase_reward same))
  | inr last ↦
      let up : suc h / reduction_interval ≡ suc (h / reduction_interval) = omega arith in
      let first : suc h % reduction_interval ≡ 0 = omega arith in
      rw (up, first)
        (omega (
          arith,
          total_reward-emitted h,
          reward-phase_reward (suc h) ∙ ap phase_reward up,
          ap (λ (t : ℕ). phase_reward (h / reduction_interval) * t) last,
        ))
]

phase_part :
    (q m : ℕ) → m ≤ reduction_interval → phase_reward q * m ≤ reduction_interval * phase_reward q
phase_part q m h = grind arith

-- The rewards of all blocks up to a height, at any height, never add up to more than the maximum supply.
pub total_reward-le : (h : ℕ) → total_reward h ≤ max_supply
unfolding emitted
total_reward-le h = omega (
  arith,
  total_reward-emitted h,
  emitted-le (suc (h / reduction_interval)),
  phase_part (h / reduction_interval) (h % reduction_interval + 1) (omega arith),
)

-- At every height that a uint64 holds, `get_supply_at_height` is the sum of the rewards of all
-- blocks up to it: none of the code's sums and products wraps.
pub get_supply_at_height-total_reward : (h : ℕ) → IsU64 h → get_supply_at_height h ≡ total_reward h
unfolding get_supply_at_height supply_at_phase emitted
get_supply_at_height-total_reward h b =
    let q = h / reduction_interval in
    omega (
      arith,
      supply_loop-emitted q 0 (omega arith) (omega (arith, emitted-le q)),
      reward-phase_reward h,
      ap (λ (t : ℕ). t * (h % reduction_interval + 1)) (reward-phase_reward h),
      total_reward-emitted h,
      total_reward-le h,
    )
