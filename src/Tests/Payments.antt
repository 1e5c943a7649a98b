-- ===== src/Tests/Payments.antt =====
-- A payment, a coinbase transaction, delegates that stake and the retarget.
use virel_blockchain.Base.{
  ℕ, ◌^◌, ◌≡◌, ◌≢◌, refl, Bool, true, Option, none, some, List, [], ◌∷◌, ok, err, panic, arith, ltb,
  if◌then◌else◌,
}
use virel_blockchain.Config.{min_difficulty}
use virel_blockchain.Transaction.{Transaction, StateOutput}
use virel_blockchain.Transaction.Amounts.{
  total_amount, data_total_amount, sum_loop, state_outputs, vsize, get_virtual_size,
}
use virel_blockchain.Transaction.Balance.{IsWordTransaction, IsBalanced, total_amount-IsBalanced}
use virel_blockchain.Transaction.Validity.{
  Invalid, prevalidate, version_allowed, data_prevalidate, check_sums, state_sum,
}
use virel_blockchain.Transaction.Validity.Fees.{
  IsAccepted, prevalidate-IsAccepted, prevalidate_sums_agree,
}
use virel_blockchain.Coinbase.{coinbase_transaction, coinbase_at, CoinbaseOutput}
use virel_blockchain.Coinbase.Shares
use virel_blockchain.Coinbase.Shares.{coinbase_transaction_conserves}
use virel_blockchain.Chaintype
use virel_blockchain.Chaintype.{Delegate, DelegatedFund}
use virel_blockchain.Chaintype.Totals.{sum_funds, total_amount-sum_funds}
use virel_blockchain.Staking.{get_staker}
use virel_blockchain.Staking.Selection.{IsDrawn, drawn, get_staker-IsDrawn}
use virel_blockchain.Block.{Block}
use virel_blockchain.Uint128.{Uint128, of_value, value}
use virel_blockchain.Difficulty.{get_next_difficulty}
use virel_blockchain.Difficulty.Retarget.{retarget, gap, get_next_difficulty-retarget}
use virel_blockchain.Transaction.Amounts.{transfer_outputs}
use virel_blockchain.Tests.Data.{key_hash, payment, block_at}

payment_total : total_amount payment ≡ some 6_000_000_000
unfolding total_amount data_total_amount sum_loop
payment_total = refl

payment_words : IsWordTransaction payment
payment_words = record { body_words = (omega arith, tt); fee_word = omega arith }

total_amount-IsBalanced_example :
    (outs : List StateOutput) × (state_outputs payment.body payment 1007 ≡ some outs)
    × IsBalanced key_hash payment 1007 6_000_000_000 outs
total_amount-IsBalanced_example =
    total_amount-IsBalanced key_hash payment 1007 6_000_000_000 payment_words payment_total

abbrev all_signed : Transaction → Bool
all_signed t = true

payment_accepted : prevalidate key_hash all_signed 300_000 payment ≡ ok tt
unfolding prevalidate version_allowed data_prevalidate check_sums state_sum total_amount
    data_total_amount sum_loop state_outputs transfer_outputs vsize get_virtual_size
payment_accepted = refl

prevalidate-IsAccepted_example :
    (total : ℕ) × (outs : List StateOutput) × IsAccepted key_hash all_signed 300_000 payment total
      outs
prevalidate-IsAccepted_example =
    prevalidate-IsAccepted key_hash all_signed 300_000 payment payment_words payment_accepted

prevalidate_sums_agree_example :
    (prevalidate key_hash all_signed 300_000 payment ≢ panic)
    × (prevalidate key_hash all_signed 300_000 payment ≢ err Invalid.sums_differ)
prevalidate_sums_agree_example =
    prevalidate_sums_agree key_hash all_signed 300_000 payment payment_words

-- An unsigned block of version 1, with a reward that does not divide evenly.
abbrev unsigned_block : Block
unsigned_block = record (block_at 5 0 1007 []) { version = 1 }

abbrev paid : Option (List CoinbaseOutput) → List CoinbaseOutput
paid none = []
paid (some os) = os

unsigned_paid :
    coinbase_transaction 500 unsigned_block 175_000_000_123
    ≡ some (paid (coinbase_transaction 500 unsigned_block 175_000_000_123))
unfolding coinbase_transaction coinbase_at
unsigned_paid = refl

coinbase_transaction_conserves_example :
    Shares.sum_outputs (paid (coinbase_transaction 500 unsigned_block 175_000_000_123))
    ≡ 175_000_000_123
coinbase_transaction_conserves_example =
    coinbase_transaction_conserves 500 unsigned_block 175_000_000_123 (omega arith) unsigned_paid

abbrev staker : ℕ → ℕ → Delegate
staker id amount = record {
  id = id;
  owner = id;
  name = [];
  funds = record { owner = 3; amount = amount; unlock = 9 } ∷ [];
}

total_amount-sum_funds_example : Chaintype.total_amount (staker 4 70) ≡ (
    if ltb (sum_funds (staker 4 70).funds) (2 ^ 64)
    then some (sum_funds (staker 4 70).funds)
    else none)
total_amount-sum_funds_example = total_amount-sum_funds (staker 4 70) (omega arith, tt)

get_staker-IsDrawn_example :
    IsDrawn
      (drawn 123_456 100)
      (staker 4 70 ∷ staker 5 30 ∷ [])
      (get_staker 123_456 100 (staker 4 70 ∷ staker 5 30 ∷ []))
get_staker-IsDrawn_example =
    get_staker-IsDrawn 123_456 100 (staker 4 70 ∷ staker 5 30 ∷ [])
      ((omega arith, tt), ((omega arith, tt), tt)) refl (omega arith) (omega arith)

abbrev parent : Block
parent = block_at 8 0 1007 []

abbrev child : Block
child = block_at 9 21 1007 []

get_next_difficulty-retarget_example :
    get_next_difficulty ((21, parent) ∷ []) child
    ≡ ok (
        let n =
          retarget (value child.difficulty) (gap child.height child.timestamp parent.timestamp) in
        of_value (if ltb n min_difficulty then min_difficulty else n))
get_next_difficulty-retarget_example =
    get_next_difficulty-retarget ((21, parent) ∷ []) child parent refl (omega arith) (omega arith)
      (omega arith) (omega arith) (record { lo_word = omega arith; hi_word = omega arith })
      (omega arith)
