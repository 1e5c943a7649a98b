-- ===== src/Ledger/Rewards.antt =====
-- ApplyPosReward of blockchain/bc-stateadd.go and RemovePosReward of blockchain/bc-staterm.go.
-- `owner_address` is the address of the delegate's owner key.
pub mod Shares
pub mod Payout
use virel_blockchain.Base.{
  ℕ, ◌-◌, Bool, true, false, not, ◌||◌, Option, none, some, List, [], ◌∷◌, Result, ok, err, panic,
  ◌>>=◌, ◌>>◌, lift, fail_if, or_crash, ltb, ◌==◌, if◌then◌else◌, add64, safe_add,
}
use virel_blockchain.Uint128
use virel_blockchain.Uint128.{Uint128, from_64}
use virel_blockchain.Chaintype
use virel_blockchain.Chaintype.{Delegate, DelegatedFund}
use virel_blockchain.Transaction.{StateOutput}
use virel_blockchain.Ledger.{
  Do, Error, zero_delegate_id, no_funds, no_stake, amount_overflow, added_too_much,
  staking_mismatch, history_mismatch, get_delegate, set_delegate, get_delegate_history,
  set_delegate_history, stats_staked, stats_unstaked,
}

abbrev and_then : Option Uint128 → (Uint128 → Option Uint128) → Option Uint128
and_then none f = none
and_then (some u) f = f u

abbrev low_word : Option Uint128 → Option ℕ
low_word none = none
low_word (some u) = some (u.lo)

-- From64(fund.Amount).Mul64(out.Amount).Div64(100).Mul64(99).Div64(totalStake).Lo
unfoldable pub fund_share : (amount reward total_stake : ℕ) → Option ℕ
fund_share amount reward total_stake = low_word (
    and_then (Uint128.mul_64 (from_64 amount) reward) (λ a.
      and_then (Uint128.div_64 a 100)
        (λ b. and_then (Uint128.mul_64 b 99) (λ c. Uint128.div_64 c total_stake))))

abbrev grown : DelegatedFund → Option ℕ → Result Error (DelegatedFund × ℕ)
grown fund none = panic
grown fund (some share) =
    if ltb (add64 fund.amount share) fund.amount
    then err amount_overflow
    else ok (record fund { amount = add64 fund.amount share }, share)

abbrev distributed :
    DelegatedFund × ℕ
    → Result Error (List DelegatedFund × ℕ)
    → Result Error (List DelegatedFund × ℕ)
distributed front (ok (fs, added)) = ok (front.0 ∷ fs, added)
distributed front (err e) = err e
distributed front panic = panic

-- The loop over the funds; `added` is the total so far.
unfoldable pub distribute :
    (reward total_stake added : ℕ) → List DelegatedFund → Result Error (List DelegatedFund × ℕ)
distribute reward total_stake added [] = ok ([], added)
distribute reward total_stake added (fund ∷ fs) =
    elim (grown fund (fund_share fund.amount reward total_stake)) [
      | ok (f, share) ↦
          distributed (f, share) (distribute reward total_stake (add64 added share) fs)
      | err e ↦ err e
      | panic ↦ panic
    ]

-- The rest of the reward goes to the fund of the delegate's owner, or to a new one.
unfoldable pub pay_owner :
    (owner_address rest : ℕ) → List DelegatedFund → Result Error (List DelegatedFund)
pay_owner owner_address rest [] =
    ok (record { owner = owner_address; amount = rest; unlock = 0 } ∷ [])
pay_owner owner_address rest (f ∷ fs) =
    let after = pay_owner owner_address rest fs in
    if f.owner == owner_address
    then elim (safe_add f.amount rest) [
      | none ↦ err amount_overflow
      | some a ↦ ok (record f { amount = a } ∷ fs)
    ]
    else elim after [ ok gs ↦ ok (f ∷ gs) | err e ↦ err e | panic ↦ panic ]

abbrev pub is_empty : List DelegatedFund → Bool
is_empty [] = true
is_empty (f ∷ fs) = false

unfoldable pub apply_pos_reward :
    (from_pub_key : ℕ → ℕ) (blockhash : ℕ) → StateOutput → Do (Unit {0})
apply_pos_reward from_pub_key blockhash out = do
  fail_if (out.extra_data == 0) zero_delegate_id
  delegate ← get_delegate out.extra_data
  fail_if (is_empty delegate.funds) no_funds
  total_stake ← or_crash (Chaintype.total_amount delegate)
  fail_if (total_stake == 0) no_stake
  set_delegate_history blockhash delegate
  (funds, total_added) ← lift (distribute out.amount total_stake 0 delegate.funds)
  fail_if (ltb out.amount total_added) added_too_much
  funds' ← lift (pay_owner (from_pub_key delegate.owner) (out.amount - total_added) funds)
  total ← or_crash (Chaintype.total_amount (record delegate { funds = funds' }))
  fail_if (not (total == add64 total_stake out.amount)) staking_mismatch
  stats_staked out.amount
  set_delegate (record delegate { funds = funds' })

unfoldable pub remove_pos_reward : (blockhash : ℕ) → StateOutput → Do (Unit {0})
remove_pos_reward blockhash out = do
  fail_if (out.extra_data == 0) zero_delegate_id
  delegate ← get_delegate out.extra_data
  fail_if (is_empty delegate.funds) no_funds
  old ← get_delegate_history blockhash
  fail_if (not (old.id == delegate.id) || not (old.owner == delegate.owner)) history_mismatch
  stats_unstaked out.amount
  set_delegate old
