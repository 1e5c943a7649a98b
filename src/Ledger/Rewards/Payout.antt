-- ===== src/Ledger/Rewards/Payout.antt =====
-- A delegate's reward as a whole: ApplyPosReward of blockchain/bc-stateadd.go.
use virel_blockchain.Base.{
  ℕ, ◌+◌, ◌-◌, ◌^◌, ◌≤◌, ◌<◌, ◌≡◌, refl, ap, ◌∙◌, some, false, List, [], ◌∷◌, Result, ok, arith,
}
use virel_blockchain.Base.Dict.{lookup, insert, lookup-insert}
use virel_blockchain.Chaintype
use virel_blockchain.Chaintype.{DelegatedFund, Delegate}
use virel_blockchain.Chaintype.Totals.{sum_funds, IsWordFunds, total_amount-sum_funds}
use virel_blockchain.Transaction.{StateOutput}
use virel_blockchain.Stats
use virel_blockchain.Ledger.{
  Ledger, Error, get_delegate, set_delegate, set_delegate_history, stats_staked,
}
use virel_blockchain.Ledger.Rewards.{distribute, pay_owner, apply_pos_reward, is_empty}
use virel_blockchain.Ledger.Rewards.Shares.{
  sum_shares, sum_shares-le, with_shares, sum_funds-with_shares, distribute-with_shares,
  pay_owner-sum_funds,
}

sum_funds-IsWordFunds : (fs : List DelegatedFund) → sum_funds fs < 2 ^ 64 → IsWordFunds fs
sum_funds-IsWordFunds [] h = tt
sum_funds-IsWordFunds (f ∷ fs) h = (omega arith, sum_funds-IsWordFunds fs (omega arith))

pub total_amount_fits :
    (d : Delegate)
    → sum_funds d.funds < 2 ^ 64
    → Chaintype.total_amount d ≡ some (sum_funds d.funds)
total_amount_fits d h = ground (arith, total_amount-sum_funds d (sum_funds-IsWordFunds d.funds h))

funds_present : (fs : List DelegatedFund) → 0 < sum_funds fs → is_empty fs ≡ false
funds_present [] h = absurd (omega arith)
funds_present (f ∷ fs) h = refl

-- The ledger once the delegate has the funds `gs`.
abbrev pub after_reward : (blockhash amount : ℕ) → Delegate → List DelegatedFund → Ledger → Ledger
after_reward blockhash amount d gs s = record s {
  delegates = insert d.id (record d { funds = gs }) s.delegates;
  delegate_history = insert blockhash d s.delegate_history;
  stats = record (s.stats) { staked_amount = s.stats.staked_amount + amount };
}

apply_pos_reward_steps :
    (key : ℕ → ℕ) (blockhash : ℕ) (out : StateOutput) (s : Ledger) (d : Delegate) (total added : ℕ)
    (fs gs : List DelegatedFund)
    → lookup out.extra_data s.delegates ≡ some d
    → 0 < out.extra_data
    → is_empty d.funds ≡ false
    → Chaintype.total_amount d ≡ some total
    → 0 < total
    → distribute out.amount total 0 d.funds ≡ ok (fs, added)
    → added ≤ out.amount
    → pay_owner (key d.owner) (out.amount - added) fs ≡ ok gs
    → Chaintype.total_amount (record d { funds = gs }) ≡ some (total + out.amount)
    → total + out.amount < 2 ^ 64
    → s.stats.staked_amount + out.amount < 2 ^ 64
    → apply_pos_reward key blockhash out s ≡ (ok tt, after_reward blockhash out.amount d gs s)
unfolding apply_pos_reward get_delegate set_delegate set_delegate_history stats_staked Stats.staked
apply_pos_reward_steps key blockhash out s d total added fs gs known pos present t stake given cap
      owner t' room room_all =
    ground arith

-- With room for the reward the whole call is the ledger with the new funds.
pub apply_pos_reward-after_reward :
    (key : ℕ → ℕ) (blockhash : ℕ) (out : StateOutput) (s : Ledger) (d : Delegate)
    → lookup out.extra_data s.delegates ≡ some d
    → 0 < out.extra_data
    → 0 < sum_funds d.funds
    → sum_funds d.funds + out.amount < 2 ^ 64
    → s.stats.staked_amount + out.amount < 2 ^ 64
    → (gs : List DelegatedFund) × (apply_pos_reward key blockhash out s
        ≡ (ok tt, after_reward blockhash out.amount d gs s))
      × (sum_funds gs ≡ sum_funds d.funds + out.amount)
apply_pos_reward-after_reward key blockhash out s d known pos stake room room_all =
    let total = sum_funds d.funds in
    let shares = sum_shares out.amount total d.funds in
    let cap : shares ≤ out.amount = sum_shares-le out.amount total d.funds stake (omega arith) in
    let fs = with_shares out.amount total d.funds in
    let sum_fs = sum_funds-with_shares out.amount total d.funds in
    let (gs, paid_owner, sum_gs) =
      pay_owner-sum_funds (key d.owner) (out.amount - shares) fs (omega arith) in
    let given =
      distribute-with_shares out.amount total 0 d.funds (omega arith) stake (omega arith) room
        (omega arith)
      ∙ ap (λ (t : ℕ). ok (fs, t)) {x = 0 + shares} {y = shares} (omega arith) in
    (
      gs,
      apply_pos_reward_steps key blockhash out s d total shares fs gs known pos
          (funds_present d.funds stake) (total_amount_fits d (omega arith)) stake given cap
          paid_owner
          (total_amount_fits (record d { funds = gs }) (omega arith)
            ∙ ap (λ (t : ℕ). some t) {x = sum_funds gs} {y = total + out.amount} (omega arith))
          room room_all,
      omega arith,
    )

-- The delegate `id` is paid `amount`: the call succeeds, the delegate keeps its identifier, its owner and
-- its name, its funds and the staked amount of the statistics grow by the amount.
pub record IsPaid (id amount : ℕ) (d : Delegate) (s : Ledger)
    (outcome : Result Error (Unit {0}) × Ledger) : Type 0 where
  pub paid : Delegate
  pub succeeds : outcome.0 ≡ ok tt
  pub stored : lookup id outcome.1.delegates ≡ some paid
  pub same_id : paid.id ≡ d.id
  pub same_owner : paid.owner ≡ d.owner
  pub same_name : paid.name ≡ d.name
  pub funds_grow : sum_funds paid.funds ≡ sum_funds d.funds + amount
  pub staked_grows : outcome.1.stats.staked_amount ≡ s.stats.staked_amount + amount

-- For a delegate with stake, and with room for the reward in its stake and in the staked amount, none of
-- the errors of ApplyPosReward occurs and nothing panics: the shares and the rest for the owner add up to
-- the reward, by which the delegate's funds and the staked amount grow.
pub apply_pos_reward-IsPaid :
    (key : ℕ → ℕ) (blockhash : ℕ) (out : StateOutput) (s : Ledger) (d : Delegate)
    → lookup out.extra_data s.delegates ≡ some d
    → d.id ≡ out.extra_data
    → 0 < out.extra_data
    → 0 < sum_funds d.funds
    → sum_funds d.funds + out.amount < 2 ^ 64
    → s.stats.staked_amount + out.amount < 2 ^ 64
    → IsPaid out.extra_data out.amount d s (apply_pos_reward key blockhash out s)
apply_pos_reward-IsPaid key blockhash out s d known own pos stake room room_all =
    let (gs, e, grown) =
      apply_pos_reward-after_reward key blockhash out s d known pos stake room room_all in
    let paid : Delegate = record d { funds = gs } in
    rw e (record {
      paid = paid;
      succeeds = refl;
      stored = ground (arith, lookup-insert out.extra_data d.id paid s.delegates);
      same_id = refl;
      same_owner = refl;
      same_name = refl;
      funds_grow = grown;
      staked_grows = refl;
    })
