-- ===== src/Ledger/Rewards/Shares.antt =====
-- The shares of a delegate's reward: the loop of ApplyPosReward in blockchain/bc-stateadd.go.
use virel_blockchain.Base.{
  ℕ, ◌+◌, ◌*◌, ◌/◌, ◌%◌, ◌^◌, ◌≤◌, ◌<◌, ◌≡◌, refl, ap, ◌∙◌, some, Bool-cases, inl, inr, List, [],
  ◌∷◌, ok, arith, ◌==◌, add64, safe_add_exact, IsU64,
}
use virel_blockchain.Uint128
use virel_blockchain.Uint128.{Uint128, IsWord, value, of_value, from_64}
use virel_blockchain.Uint128.Product.{mul_64-checked}
use virel_blockchain.Uint128.Division.{div_64-exact}
use virel_blockchain.Chaintype.{DelegatedFund}
use virel_blockchain.Chaintype.Totals.{sum_funds}
use virel_blockchain.Ledger.Rewards.{fund_share, distribute, pay_owner}
use native.Mathlib.Nat.{mul-div-le}

-- 99 of 100 parts of what is due to a stake of `amount`, rounded down twice.
abbrev pub share : (reward total amount : ℕ) → ℕ
share reward total amount = amount * reward / 100 * 99 / total

share_part : (reward total amount : ℕ) → share reward total amount * total ≤ amount * reward
share_part reward total amount =
    let below = mul-div-le (amount * reward / 100 * 99) total in grind arith

of_value-IsWord : (n : ℕ) → n < 2 ^ 128 → IsWord (of_value n)
of_value-IsWord n h = record { lo_word = omega arith; hi_word = omega arith }

product_fits : (a b : ℕ) → IsU64 a → IsU64 b → a * b < 2 ^ 128
product_fits a b ha hb = grind arith

le_of_mul-le : (a b t : ℕ) → 0 < t → a * t ≤ b * t → a ≤ b
le_of_mul-le a b t p h = grind arith

pub share-le :
    (reward total amount : ℕ) → 0 < total → amount ≤ total → share reward total amount ≤ reward
share-le reward total amount p h =
    let part = share_part reward total amount in
    le_of_mul-le (share reward total amount) reward total p (grind arith)

value-of_value : (n : ℕ) → value (of_value n) ≡ n
value-of_value n = omega arith

mul_64-of_value :
    (n v : ℕ)
    → n < 2 ^ 128
    → IsU64 v
    → n * v < 2 ^ 128
    → Uint128.mul_64 (of_value n) v ≡ some (of_value (n * v))
mul_64-of_value n v hn hv room = ground (
  arith,
  mul_64-checked (of_value n) v (of_value-IsWord n hn) hv,
  ap (λ (t : ℕ). t * v) (value-of_value n),
)

div_64-of_value :
    (n v : ℕ)
    → n < 2 ^ 128
    → IsU64 v
    → 0 < v
    → Uint128.div_64 (of_value n) v ≡ some (of_value (n / v))
div_64-of_value n v hn hv p =
    div_64-exact (of_value n) v (of_value-IsWord n hn) hv p
    ∙ ap (λ (t : ℕ). some (of_value (t / v))) (value-of_value n)

from_64-of_value : (n : ℕ) → IsU64 n → from_64 n ≡ of_value n
from_64-of_value n h = ground arith

-- The product with 99 after the division by 100 fits, and nothing of the computation is lost.
pub fund_share-share :
    (amount reward total : ℕ)
    → IsU64 reward
    → IsU64 total
    → 0 < total
    → amount ≤ total
    → fund_share amount reward total ≡ some (share reward total amount)
unfolding fund_share
fund_share-share amount reward total hr ht p le =
    let fits = product_fits amount reward (omega arith) hr in
    let cap = share-le reward total amount p le in
    rw
      (
        from_64-of_value amount (omega arith),
        mul_64-of_value amount reward (omega arith) hr fits,
        div_64-of_value (amount * reward) 100 fits (omega arith) (omega arith),
        mul_64-of_value (amount * reward / 100) 99 (omega arith) (omega arith) (omega arith),
        div_64-of_value (amount * reward / 100 * 99) total (omega arith) ht p,
      )
      (ap (λ (t : ℕ). some t) {x = share reward total amount % 2 ^ 64}
        {y = share reward total amount} (omega arith))

-- The shares of all funds, and the funds with their shares.
abbrev pub sum_shares : (reward total : ℕ) → List DelegatedFund → ℕ
sum_shares reward total [] = 0
sum_shares reward total (f ∷ fs) = share reward total f.amount + sum_shares reward total fs

abbrev pub with_shares : (reward total : ℕ) → List DelegatedFund → List DelegatedFund
with_shares reward total [] = []
with_shares reward total (f ∷ fs) =
    record f { amount = f.amount + share reward total f.amount } ∷ with_shares reward total fs

sum_shares_part :
    (reward total : ℕ) (fs : List DelegatedFund)
    → sum_shares reward total fs * total ≤ sum_funds fs * reward
sum_shares_part reward total [] = omega arith
sum_shares_part reward total (f ∷ fs) =
    grind (arith, share_part reward total f.amount, sum_shares_part reward total fs)

-- Together the shares are at most the reward, so the error "should never happen" never does.
pub sum_shares-le :
    (reward total : ℕ) (fs : List DelegatedFund)
    → 0 < total
    → sum_funds fs ≤ total
    → sum_shares reward total fs ≤ reward
sum_shares-le reward total fs p h =
    let part = sum_shares_part reward total fs in
    le_of_mul-le (sum_shares reward total fs) reward total p (grind arith)

pub sum_funds-with_shares :
    (reward total : ℕ) (fs : List DelegatedFund)
    → sum_funds (with_shares reward total fs) ≡ sum_funds fs + sum_shares reward total fs
sum_funds-with_shares reward total [] = refl
sum_funds-with_shares reward total (f ∷ fs) = omega (arith, sum_funds-with_shares reward total fs)

-- The loop gives every fund its share.
pub distribute-with_shares :
    (reward total added : ℕ) (fs : List DelegatedFund)
    → IsU64 reward
    → 0 < total
    → sum_funds fs ≤ total
    → total + reward < 2 ^ 64
    → added + sum_shares reward total fs < 2 ^ 64
    → distribute reward total added fs
      ≡ ok (with_shares reward total fs, added + sum_shares reward total fs)
unfolding distribute
distribute-with_shares reward total added [] hr p h room small = ground arith
distribute-with_shares reward total added (f ∷ fs) hr p h room small =
    let s = share reward total f.amount in
    let cap : s ≤ reward = share-le reward total f.amount p (omega arith) in
    let exact : add64 f.amount s ≡ f.amount + s = omega arith in
    let next : add64 added s ≡ added + s = omega arith in
    ground (
      arith,
      fund_share-share f.amount reward total hr (omega arith) p (omega arith),
      distribute-with_shares reward total (added + s) fs hr p (omega arith) room (omega arith),
    )

-- The owner's fund, or a new one, takes the rest.
pub pay_owner-sum_funds :
    (owner rest : ℕ) (fs : List DelegatedFund)
    → sum_funds fs + rest < 2 ^ 64
    → (gs : List DelegatedFund) × (pay_owner owner rest fs ≡ ok gs)
      × (sum_funds gs ≡ sum_funds fs + rest)
unfolding pay_owner
pay_owner-sum_funds owner rest [] room = (_, refl, omega arith)
pay_owner-sum_funds owner rest (f ∷ fs) room = elim (Bool-cases (f.owner == owner)) [
  | inl here ↦ (
    record f { amount = f.amount + rest } ∷ fs,
    ground (arith, safe_add_exact f.amount rest (omega arith) (omega arith) (omega arith)),
    omega arith,
  )
  | inr later ↦
      let (gs, e, total) = pay_owner-sum_funds owner rest fs (omega arith) in
      (f ∷ gs, ground (arith, e), omega arith)
]
