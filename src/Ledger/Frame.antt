-- ===== src/Ledger/Frame.antt =====
-- The part of the ledger that says what the chain is: the blocks, the top and the tips.
-- Applying and undoing blocks leaves it alone.
pub mod Rules
pub mod Transactions
pub mod Blocks
use virel_blockchain.Base.{ℕ, ◌≡◌}
use virel_blockchain.Base.Dict.{Dict}
use virel_blockchain.Uint128.{Uint128}
use virel_blockchain.Block.{Block}
use virel_blockchain.Stats.{AltchainTip}
use virel_blockchain.Ledger.{Ledger, Do}

pub record View : Type 0 where
  pub blocks : Dict Block
  pub top_hash : ℕ
  pub top_height : ℕ
  pub cumulative_diff : Uint128
  pub tips : Dict AltchainTip

abbrev pub view : Ledger → View
view s = record {
  blocks = s.blocks;
  top_hash = s.stats.top_hash;
  top_height = s.stats.top_height;
  cumulative_diff = s.stats.cumulative_diff;
  tips = s.stats.tips;
}

-- The action leaves the chain's view alone, however it ends.
pub record Keeps {ℓ} {A : Type ℓ} (m : Do A) : Type ℓ where
  pub run : (s : Ledger) → view (m s).1 ≡ view s
