-- ===== src/Chaintype/Totals.antt =====
-- The sum of a delegate's funds.
use virel_blockchain.Base.{
  ℕ, ◌+◌, ◌^◌, ◌≡◌, none, some, List, [], ◌∷◌, ◌++◌, arith, add64, IsU64, ltb, if◌then◌else◌, All,
}
use virel_blockchain.Chaintype.{DelegatedFund, Delegate, total_loop, total_amount}

-- The sum of the amounts as a natural number.
abbrev pub sum_funds : List DelegatedFund → ℕ
sum_funds [] = 0
sum_funds (f ∷ fs) = f.amount + sum_funds fs

pub sum_funds-append :
    (fs gs : List DelegatedFund) → sum_funds (fs ++ gs) ≡ sum_funds fs + sum_funds gs
sum_funds-append [] gs = omega arith
sum_funds-append (f ∷ fs) gs = omega (arith, sum_funds-append fs gs)

abbrev pub IsWordFunds : List DelegatedFund → Type 0
IsWordFunds = All (λ f. IsU64 (f.amount))

total_loop_exact :
    (t : ℕ) (fs : List DelegatedFund)
    → IsU64 t
    → IsWordFunds fs
    → total_loop t fs ≡ (if ltb (t + sum_funds fs) (2 ^ 64) then some (t + sum_funds fs) else none)
unfolding total_loop
total_loop_exact t [] h w = ground arith
total_loop_exact t (f ∷ fs) h w = ground (arith, total_loop_exact (add64 t f.amount) fs)

-- TotalAmount of a delegate whose funds are words is the sum of the funds, and panics exactly when that
-- does not fit a word.
pub total_amount-sum_funds :
    (d : Delegate)
    → IsWordFunds d.funds
    → total_amount d ≡ (if ltb (sum_funds d.funds) (2 ^ 64) then some (sum_funds d.funds) else none)
unfolding total_amount
total_amount-sum_funds d w = ground (arith, total_loop_exact 0 d.funds (omega arith) w)
