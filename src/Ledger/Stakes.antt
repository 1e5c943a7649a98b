-- ===== src/Ledger/Stakes.antt =====
-- ApplyStake and ApplyUnstake of blockchain/bc-stateadd.go.
use virel_blockchain.Base.{
  ℕ, ◌-◌, Bool, true, false, not, ◌&&◌, Option, none, some, List, [], ◌∷◌, ◌++◌, Result, ok, err,
  panic, ◌>>=◌, ◌>>◌, lift, gets, ltb, ◌==◌, if◌then◌else◌, add64, safe_add,
}
use virel_blockchain.Config.{stake_unlock_time}
use virel_blockchain.Chaintype.{DelegatedFund}
use virel_blockchain.Ledger.{
  Do, Error, bad_prev_unlock, amount_overflow, funds_locked, unstake_exceeds_fund,
  nothing_to_unstake, get_delegate, set_delegate, stats_staked, stats_unstaked,
}

-- The transaction that is let through with a PrevUnlock that does not match.
abbrev pub excepted_txid : ℕ
excepted_txid = 0x8859_cfd6_0920_afd7_e6e0_8fa2_656c_d9c4_1957_2ace_683c_f203_651e_7486_80e2_2bab

-- Adds to the amount of a fund.
abbrev grow_fund : DelegatedFund → ℕ → Result Error DelegatedFund
grow_fund fund amount = elim (safe_add fund.amount amount) [
  | none ↦ err amount_overflow
  | some a ↦ ok (record fund { amount = a })
]

-- One fund of the signer, when staking; with `reverse` the stake undoes an unstake transaction.
unfoldable pub stake_fund :
    (reverse : Bool) (top_height amount prev_unlock txid : ℕ)
    → DelegatedFund
    → Result Error DelegatedFund
stake_fund true top_height amount prev_unlock txid fund = grow_fund fund amount
stake_fund false top_height amount prev_unlock txid fund =
    if not (fund.unlock == prev_unlock) && not (txid == excepted_txid)
    then err bad_prev_unlock
    else grow_fund (record fund { unlock = add64 top_height stake_unlock_time }) amount

-- One fund of the signer, when unstaking; with `reverse` this undoes a stake transaction.
unfoldable pub unstake_fund :
    (reverse : Bool) (top_height amount prev_unlock : ℕ)
    → DelegatedFund
    → Result Error DelegatedFund
unstake_fund reverse top_height amount prev_unlock fund =
    if not reverse && ltb top_height fund.unlock
    then err funds_locked
    else if ltb fund.amount amount
    then err unstake_exceeds_fund
    else ok (record fund {
      amount = fund.amount - amount;
      unlock = if reverse then prev_unlock else fund.unlock;
    })

abbrev put_front :
    List DelegatedFund
    → Result Error (Option (List DelegatedFund))
    → Result Error (Option (List DelegatedFund))
put_front front (ok none) = ok none
put_front front (ok (some fs)) = ok (some (front ++ fs))
put_front front (err e) = err e
put_front front panic = panic

abbrev replace_head :
    Bool
    → Result Error DelegatedFund
    → List DelegatedFund
    → Result Error (Option (List DelegatedFund))
replace_head drop_empty (ok f) fs = ok (some (if drop_empty && (f.amount == 0) then fs else f ∷ fs))
replace_head drop_empty (err e) fs = err e
replace_head drop_empty panic fs = panic

-- The loop over the funds: the first of the owner is changed, and taken out if it is empty and
-- `drop_empty` is set. `none` says that the owner has no fund.
unfoldable pub change_fund :
    (drop_empty : Bool) (change : DelegatedFund → Result Error DelegatedFund) (owner : ℕ)
    → List DelegatedFund
    → Result Error (Option (List DelegatedFund))
change_fund drop_empty change owner [] = ok none
change_fund drop_empty change owner (f ∷ fs) =
    let rest = put_front (f ∷ []) (change_fund drop_empty change owner fs) in
    if f.owner == owner then replace_head drop_empty (change f) fs else rest

-- The funds after staking: a new fund stands at the end.
abbrev pub funds_or_new :
    List DelegatedFund → DelegatedFund → Option (List DelegatedFund) → List DelegatedFund
funds_or_new old new none = old ++ (new ∷ [])
funds_or_new old new (some fs) = fs

unfoldable pub apply_stake :
    (amount delegate_id prev_unlock signer txid : ℕ) (reverse : Bool) → Do (Unit {0})
apply_stake amount delegate_id prev_unlock signer txid reverse = do
  delegate ← get_delegate delegate_id
  top_height ← gets (λ s. s.stats.top_height)
  changed ← lift (
      change_fund false (stake_fund reverse top_height amount prev_unlock txid) signer
        delegate.funds)
  let new : DelegatedFund = record {
    owner = signer;
    amount = amount;
    unlock = add64 top_height stake_unlock_time;
  }
  stats_staked amount
  set_delegate (record delegate { funds = funds_or_new delegate.funds new changed })

abbrev or_nothing : Option (List DelegatedFund) → Result Error (List DelegatedFund)
or_nothing none = err nothing_to_unstake
or_nothing (some fs) = ok fs

unfoldable pub apply_unstake :
    (amount delegate_id signer : ℕ) (reverse : Bool) (prev_unlock : ℕ) → Do (Unit {0})
apply_unstake amount delegate_id signer reverse prev_unlock = do
  delegate ← get_delegate delegate_id
  top_height ← gets (λ s. s.stats.top_height)
  changed ←
      lift (
        change_fund true (unstake_fund reverse top_height amount prev_unlock) signer delegate.funds)
  funds ← lift (or_nothing changed)
  stats_unstaked amount
  set_delegate (record delegate { funds = funds })
