-- ===== src/Ledger/Backing/Funds.antt =====
-- What staking and unstaking do to a delegate's funds.
use virel_blockchain.Base.{
  ℕ, ◌+◌, ◌^◌, ◌<◌, ◌≡◌, refl, Bool, true, false, Option, some, List, [], ◌∷◌, Result, ok, arith,
  IsU64, safe_add,
}
use virel_blockchain.Chaintype.{DelegatedFund}
use virel_blockchain.Chaintype.Totals.{sum_funds}
use virel_blockchain.Ledger.{Error}
use virel_blockchain.Ledger.Stakes.{stake_fund, unstake_fund, change_fund}

stake_fund-amount :
    (reverse : Bool) (top amount prev txid : ℕ) (f g : DelegatedFund)
    → IsU64 f.amount
    → IsU64 amount
    → stake_fund reverse top amount prev txid f ≡ ok g
    → g.amount ≡ f.amount + amount
unfolding stake_fund safe_add
stake_fund-amount true top amount prev txid f g hf ha e = ground arith
stake_fund-amount false top amount prev txid f g hf ha e = ground arith

unstake_fund-amount :
    (reverse : Bool) (top amount prev : ℕ) (f g : DelegatedFund)
    → unstake_fund reverse top amount prev f ≡ ok g
    → g.amount + amount ≡ f.amount
unfolding unstake_fund
unstake_fund-amount reverse top amount prev f g e = ground arith

-- A change that adds `amount` to a fund adds it to the funds.
pub staked-sum_funds :
    (reverse : Bool) (top amount prev txid owner : ℕ) (fs gs : List DelegatedFund)
    → sum_funds fs < 2 ^ 64
    → IsU64 amount
    → change_fund false (stake_fund reverse top amount prev txid) owner fs ≡ ok (some gs)
    → sum_funds gs ≡ sum_funds fs + amount
unfolding change_fund
staked-sum_funds reverse top amount prev txid owner [] gs h ha e = cc
staked-sum_funds reverse top amount prev txid owner (f ∷ fs) gs h ha e =
    go (stake_fund reverse top amount prev txid f) refl
      (change_fund false (stake_fund reverse top amount prev txid) owner fs) refl
      (λ hs c. staked-sum_funds reverse top amount prev txid owner fs hs (omega arith) ha c)
  where
    go :
        (r : Result Error DelegatedFund)
        → stake_fund reverse top amount prev txid f ≡ r
        → (q : Result Error (Option (List DelegatedFund)))
        → change_fund false (stake_fund reverse top amount prev txid) owner fs ≡ q
        → ((hs : List DelegatedFund)
            → change_fund false (stake_fund reverse top amount prev txid) owner fs ≡ ok (some hs)
            → sum_funds hs ≡ sum_funds fs + amount)
        → sum_funds gs ≡ sum_funds (f ∷ fs) + amount
    go (ok g) d (ok (some hs)) c ih =
        ground
          (arith, stake_fund-amount reverse top amount prev txid f g (omega arith) ha d, ih hs c)
    go (ok g) d q c ih =
        ground (arith, stake_fund-amount reverse top amount prev txid f g (omega arith) ha d)
    go r d (ok (some hs)) c ih = ground (arith, ih hs c)
    go r d q c ih = ground arith

-- A change that takes `amount` from a fund takes it from the funds, whether the fund is left empty or not.
pub unstaked-sum_funds :
    (reverse : Bool) (top amount prev owner : ℕ) (fs gs : List DelegatedFund)
    → change_fund true (unstake_fund reverse top amount prev) owner fs ≡ ok (some gs)
    → sum_funds gs + amount ≡ sum_funds fs
unfolding change_fund
unstaked-sum_funds reverse top amount prev owner [] gs e = cc
unstaked-sum_funds reverse top amount prev owner (f ∷ fs) gs e =
    go (unstake_fund reverse top amount prev f) refl
      (change_fund true (unstake_fund reverse top amount prev) owner fs) refl
      (λ hs c. unstaked-sum_funds reverse top amount prev owner fs hs c)
  where
    go :
        (r : Result Error DelegatedFund)
        → unstake_fund reverse top amount prev f ≡ r
        → (q : Result Error (Option (List DelegatedFund)))
        → change_fund true (unstake_fund reverse top amount prev) owner fs ≡ q
        → ((hs : List DelegatedFund)
            → change_fund true (unstake_fund reverse top amount prev) owner fs ≡ ok (some hs)
            → sum_funds hs + amount ≡ sum_funds fs)
        → sum_funds gs + amount ≡ sum_funds (f ∷ fs)
    go (ok g) d (ok (some hs)) c ih =
        ground (arith, unstake_fund-amount reverse top amount prev f g d, ih hs c)
    go (ok g) d q c ih = ground (arith, unstake_fund-amount reverse top amount prev f g d)
    go r d (ok (some hs)) c ih = ground (arith, ih hs c)
    go r d q c ih = ground arith
