-- ===== src/Ledger/Backing/Steps.antt =====
-- The steps of a transaction's version keep the staked amount backed.
use virel_blockchain.Base.{
  ℕ, ◌+◌, ◌^◌, ◌<◌, ◌≡◌, refl, ◌∙◌, sym, Bool, true, false, Option, none, some, List, [], ◌∷◌,
  Result, ok, err, panic, arith, ltb, if◌then◌else◌, IsU64, ◌⊎◌, add64, sub64, Option-cases,
  Bool-cases, subst, ◌-◌, inl, inr,
}
use virel_blockchain.Base.Dict.{lookup, insert}
use virel_blockchain.Chaintype.{Delegate, DelegatedFund}
use virel_blockchain.Chaintype.Totals.{sum_funds, sum_funds-append}
use virel_blockchain.Config.{stake_unlock_time}
use virel_blockchain.Stats
use virel_blockchain.Ledger.{
  Ledger, Error, get_delegate, set_delegate, stats_staked, stats_unstaked,
}
use virel_blockchain.Ledger.Stakes.{
  stake_fund, unstake_fund, change_fund, funds_or_new, apply_stake, apply_unstake,
}
use virel_blockchain.Ledger.Backing.{IsBacked, replaced-IsBacked, stake-le}
use virel_blockchain.Ledger.Backing.Funds.{staked-sum_funds, unstaked-sum_funds}

-- The funds after a stake, whether the owner had a fund or not.
new_funds :
    (reverse : Bool) (top amount prev txid owner : ℕ) (fs : List DelegatedFund)
    (o : Option (List DelegatedFund)) (new : DelegatedFund)
    → sum_funds fs < 2 ^ 64
    → IsU64 amount
    → new.amount ≡ amount
    → change_fund false (stake_fund reverse top amount prev txid) owner fs ≡ ok o
    → sum_funds (funds_or_new fs new o) ≡ sum_funds fs + amount
new_funds reverse top amount prev txid owner fs none new h ha e c =
    omega (arith, sum_funds-append fs (new ∷ []))
new_funds reverse top amount prev txid owner fs (some gs) new h ha e c =
    staked-sum_funds reverse top amount prev txid owner fs gs h ha c

-- The ledger once the delegate has the funds `gs` and the staked amount is `n`.
abbrev after_change : Delegate → List DelegatedFund → ℕ → Ledger → Ledger
after_change d gs n s = record s {
  delegates = insert d.id (record d { funds = gs }) s.delegates;
  stats = record (s.stats) { staked_amount = n };
}

after_change-IsBacked :
    (k : ℕ) (d : Delegate) (gs : List DelegatedFund) (n : ℕ) (s : Ledger)
    → IsBacked s
    → lookup k s.delegates ≡ some d
    → n + sum_funds d.funds ≡ s.stats.staked_amount + sum_funds gs
    → IsU64 n
    → IsBacked (after_change d gs n s)
after_change-IsBacked k d gs n s b known amount word =
    replaced-IsBacked s (after_change d gs n s) k d (record d { funds = gs }) b known refl refl
      amount word

module _ (amount delegate_id prev signer txid : ℕ) (reverse : Bool) (s : Ledger) where
  abbrev staked_change : Delegate → Result Error (Option (List DelegatedFund))
  staked_change d =
      change_fund false (stake_fund reverse s.stats.top_height amount prev txid) signer d.funds

  abbrev new_fund : DelegatedFund
  new_fund = record {
    owner = signer;
    amount = amount;
    unlock = add64 s.stats.top_height stake_unlock_time;
  }

  abbrev after_stake : Ledger
  after_stake = (apply_stake amount delegate_id prev signer txid reverse s).1

  stake_kept :
      (d : Delegate) (e : Error)
      → lookup delegate_id s.delegates ≡ some d
      → (staked_change d ≡ err e) ⊎ (staked_change d ≡ panic)
      → after_stake ≡ s
  unfolding apply_stake get_delegate
  stake_kept d e known (inl c) = ground arith
  stake_kept d e known (inr c) = ground arith

  stake_done :
      (d : Delegate) (o : Option (List DelegatedFund))
      → lookup delegate_id s.delegates ≡ some d
      → staked_change d ≡ ok o
      → after_stake ≡ (
          if ltb (add64 s.stats.staked_amount amount) s.stats.staked_amount
          then s
          else after_change d
              (funds_or_new d.funds new_fund o)
              (add64 s.stats.staked_amount amount)
              s)
  unfolding apply_stake get_delegate set_delegate stats_staked Stats.staked
  stake_done d o known c = ground arith

  stake_absent : lookup delegate_id s.delegates ≡ none → after_stake ≡ s
  unfolding apply_stake get_delegate
  stake_absent absent = ground arith

  stake_result :
      (d : Delegate) (r : Result Error (Option (List DelegatedFund)))
      → IsU64 amount
      → IsBacked s
      → lookup delegate_id s.delegates ≡ some d
      → staked_change d ≡ r
      → IsBacked after_stake
  stake_result d (err e) ha b known c = subst IsBacked (sym (stake_kept d e known (inl c))) b
  stake_result d panic ha b known c =
      subst IsBacked (sym (stake_kept d Error.no_stake known (inr c))) b
  stake_result d (ok o) ha b known c =
      subst IsBacked (sym (stake_done d o known c))
        (elim (Bool-cases (ltb (add64 s.stats.staked_amount amount) s.stats.staked_amount)) [
          | inl wraps ↦ rw wraps b
          | inr exact ↦ rw exact (
              after_change-IsBacked delegate_id d (funds_or_new d.funds new_fund o)
                (add64 s.stats.staked_amount amount) s b known
                (ground (
                  arith,
                  b.fits,
                  new_funds reverse s.stats.top_height amount prev txid signer d.funds o new_fund
                      (omega (arith, stake-le s delegate_id d b known, b.fits)) ha refl c,
                ))
                (omega arith))
        ])

  -- Staking, or undoing an unstake, keeps the staked amount backed, however it ends.
  pub apply_stake-IsBacked : IsU64 amount → IsBacked s → IsBacked after_stake
  apply_stake-IsBacked ha b = elim (Option-cases (lookup delegate_id s.delegates)) [
    | inl absent ↦ subst IsBacked (sym (stake_absent absent)) b
    | inr (d, known) ↦ stake_result d (staked_change d) ha b known refl
  ]

module _ (amount delegate_id signer : ℕ) (reverse : Bool) (prev : ℕ) (s : Ledger) where
  abbrev unstaked_change : Delegate → Result Error (Option (List DelegatedFund))
  unstaked_change d =
      change_fund true (unstake_fund reverse s.stats.top_height amount prev) signer d.funds

  abbrev after_unstake : Ledger
  after_unstake = (apply_unstake amount delegate_id signer reverse prev s).1

  unstake_absent : lookup delegate_id s.delegates ≡ none → after_unstake ≡ s
  unfolding apply_unstake get_delegate
  unstake_absent absent = ground arith

  unstake_kept :
      (d : Delegate) (e : Error)
      → lookup delegate_id s.delegates ≡ some d
      → (unstaked_change d ≡ err e) ⊎ (unstaked_change d ≡ panic) ⊎ (unstaked_change d ≡ ok none)
      → after_unstake ≡ s
  unfolding apply_unstake get_delegate
  unstake_kept d e known (inl c) = ground arith
  unstake_kept d e known (inr (inl c)) = ground arith
  unstake_kept d e known (inr (inr c)) = ground arith

  unstake_done :
      (d : Delegate) (gs : List DelegatedFund)
      → lookup delegate_id s.delegates ≡ some d
      → unstaked_change d ≡ ok (some gs)
      → after_unstake ≡ (
          if ltb s.stats.staked_amount (sub64 s.stats.staked_amount amount)
          then s
          else after_change d gs (sub64 s.stats.staked_amount amount) s)
  unfolding apply_unstake get_delegate set_delegate stats_unstaked Stats.unstaked
  unstake_done d gs known c = ground arith

  unstake_result :
      (d : Delegate) (r : Result Error (Option (List DelegatedFund)))
      → IsBacked s
      → lookup delegate_id s.delegates ≡ some d
      → unstaked_change d ≡ r
      → IsBacked after_unstake
  unstake_result d (err e) b known c = subst IsBacked (sym (unstake_kept d e known (inl c))) b
  unstake_result d panic b known c =
      subst IsBacked (sym (unstake_kept d Error.no_stake known (inr (inl c)))) b
  unstake_result d (ok none) b known c =
      subst IsBacked (sym (unstake_kept d Error.no_stake known (inr (inr c)))) b
  unstake_result d (ok (some gs)) b known c =
      let moved = unstaked-sum_funds reverse s.stats.top_height amount prev signer d.funds gs c in
      let enough = stake-le s delegate_id d b known in
      let exact : sub64 s.stats.staked_amount amount ≡ s.stats.staked_amount - amount =
        omega (arith, b.fits) in
      subst IsBacked (sym (unstake_done d gs known c ∙ ground (arith, exact))) (
        after_change-IsBacked delegate_id d gs (s.stats.staked_amount - amount) s b known
          (omega arith) (omega (arith, b.fits)))

  -- Unstaking, or undoing a stake, keeps the staked amount backed, however it ends.
  pub apply_unstake-IsBacked : IsBacked s → IsBacked after_unstake
  apply_unstake-IsBacked b = elim (Option-cases (lookup delegate_id s.delegates)) [
    | inl absent ↦ subst IsBacked (sym (unstake_absent absent)) b
    | inr (d, known) ↦ unstake_result d (unstaked_change d) b known refl
  ]
