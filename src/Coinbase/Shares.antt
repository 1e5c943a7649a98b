-- ===== src/Coinbase/Shares.antt =====
-- What the outputs of a coinbase transaction add up to.
use virel_blockchain.Base.{ℕ, zero, suc, ◌+◌, ◌≡◌, List, [], ◌∷◌, some, arith, IsU64}
use virel_blockchain.Coinbase.{CoinbaseOutput, coinbase_at, coinbase_transaction}
use virel_blockchain.Block.{Block}

abbrev pub sum_outputs : List CoinbaseOutput → ℕ
sum_outputs [] = 0
sum_outputs (o ∷ os) = o.amount + sum_outputs os

-- At both versions, where the coinbase has outputs at all, they pay out the whole of the reward, neither more nor less, whether the
-- block is signed by its delegate or not, and for every reward that a uint64 holds.
pub coinbase_transaction_conserves :
    (genesis_address : ℕ) (b : Block) (total_reward : ℕ) {outs : List CoinbaseOutput}
    → IsU64 total_reward
    → coinbase_transaction genesis_address b total_reward ≡ some outs
    → sum_outputs outs ≡ total_reward
unfolding coinbase_transaction
coinbase_transaction_conserves g b r {outs} h e = go b.version e
  where
    go : (v : ℕ) → coinbase_at v g b r ≡ some outs → sum_outputs outs ≡ r
    go zero e = ground arith
    go (suc zero) e = ground arith
    go (suc (suc v)) e = cc
