-- ===== src/Coinbase.antt =====
-- CoinbaseTransaction of block/coinbase.go: how a block's reward and fees are divided.
pub mod Shares
use virel_blockchain.Base.{
  ℕ, zero, suc, ◌*◌, ◌/◌, Option, none, some, List, [], ◌∷◌, ◌++◌, mul64, sub64, ◌==◌,
  if◌then◌else◌,
}
use virel_blockchain.Config.{block_reward_fee_percent}
use virel_blockchain.Transaction.{
  StateOutputType, out_coinbase_dev, out_coinbase_pow, out_coinbase_pos, out_coinbase_burn,
  invalid_address, new_delegate_address,
}
use virel_blockchain.Block.{Block, is_unsigned}

pub record CoinbaseOutput : Type 0 where
  pub recipient : ℕ
  pub amount : ℕ
  pub delegate_id : ℕ
  pub kind : StateOutputType

abbrev governance_reward : ℕ → ℕ
governance_reward total_reward = mul64 total_reward block_reward_fee_percent / 100

-- The outputs of version 1 from the amounts: those of zero are left out after the first two.
abbrev hybrid_outputs : ℕ → Block → ℕ → ℕ → ℕ → ℕ → List CoinbaseOutput
hybrid_outputs genesis_address b governance pow pos burn =
    record {
      recipient = genesis_address;
      amount = governance;
      delegate_id = 0;
      kind = out_coinbase_dev;
    }
    ∷ record { recipient = b.recipient; amount = pow; delegate_id = 0; kind = out_coinbase_pow }
    ∷ ((if pos == 0
          then []
          else record {
            recipient = new_delegate_address b.delegate_id;
            amount = pos;
            delegate_id = b.delegate_id;
            kind = out_coinbase_pos;
          }
            ∷ [])
        ++ (if burn == 0
            then []
            else record {
              recipient = invalid_address;
              amount = burn;
              delegate_id = 0;
              kind = out_coinbase_burn;
            }
              ∷ []))

-- The outputs at each version; any version other than 0 and 1 panics.
unfoldable pub coinbase_at : ℕ → ℕ → Block → ℕ → Option (List CoinbaseOutput)
coinbase_at zero genesis_address b total_reward =
    let governance = governance_reward total_reward in
    some (
      record {
        recipient = genesis_address;
        amount = governance;
        delegate_id = 0;
        kind = out_coinbase_dev;
      }
      ∷ record {
        recipient = b.recipient;
        amount = sub64 total_reward governance;
        delegate_id = 0;
        kind = out_coinbase_pow;
      }
      ∷ [])
coinbase_at (suc zero) genesis_address b total_reward =
    let governance = governance_reward total_reward in
    let pow = total_reward / 2 in
    let pos = sub64 (sub64 total_reward pow) governance in
    let pow_unsigned = mul64 pow 3 / 4 in
    let burn = sub64 (sub64 total_reward governance) pow_unsigned in
    some (
      if is_unsigned b
      then hybrid_outputs genesis_address b governance pow_unsigned 0 burn
      else hybrid_outputs genesis_address b governance pow pos 0)
coinbase_at (suc (suc version)) genesis_address b total_reward = none

-- GenesisAddress is parsed from the configuration when the program starts.
unfoldable pub coinbase_transaction : ℕ → Block → ℕ → Option (List CoinbaseOutput)
unfolding coinbase_at
coinbase_transaction genesis_address b = coinbase_at b.version genesis_address b
