-- ===== src/Chain/Add.antt =====
-- AddBlock and addAltchainBlock of blockchain/blockchain.go. The block was prevalidated, and the queue
-- of blocks to download is in Queue.
use virel_blockchain.Base.{
  ℕ, Bool, true, false, ◌==◌, if◌then◌else◌, Option, none, some, ◌>>=◌, ◌>>◌, pure, fail_if, lift,
  gets, modify, or_fail, add64,
}
use virel_blockchain.Base.Dict.{Dict, lookup, insert}
use virel_blockchain.Block.{Block, prev_hash}
use virel_blockchain.Stats.{AltchainTip}
use virel_blockchain.Ledger.{Do, duplicate_block, orphan_block}
use virel_blockchain.Ledger.Blocks.{add_mainchain_block}
use virel_blockchain.Chain.{Node}
use virel_blockchain.Chain.Check.{check_block}
use virel_blockchain.Chain.Reorg.{check_reorgs}

-- A tip that the block extends stays under its key; a block that extends none is a new tip.
unfoldable pub extend_with :
    Block → (hash : ℕ) → Dict AltchainTip → Option AltchainTip → Dict AltchainTip
extend_with bl hash tips (some tip) =
    insert (prev_hash bl)
      record { hash = hash; height = add64 tip.height 1; cumulative_diff = bl.cumulative_diff } tips
extend_with bl hash tips none =
    insert hash record { hash = hash; height = bl.height; cumulative_diff = bl.cumulative_diff }
      tips

unfoldable pub extend_tips : Block → (hash : ℕ) → Dict AltchainTip → Dict AltchainTip
extend_tips bl hash tips = extend_with bl hash tips (lookup (prev_hash bl) tips)

unfoldable pub insert_block : Block → (hash : ℕ) → Do (Unit {0})
insert_block bl hash = modify (λ s. record s { blocks = insert hash bl s.blocks })

unfoldable pub add_altchain_block : Node → Block → (hash : ℕ) → Do (Unit {0})
add_altchain_block node bl hash = do
  modify (λ s. record s { stats = record (s.stats) { tips = extend_tips bl hash s.stats.tips } })
  insert_block bl hash
  changed ← check_reorgs node
  pure tt

abbrev pub is_present : Option Block → Bool
is_present none = false
is_present (some b) = true

unfoldable pub add_block : Node → Block → (hash : ℕ) → Do (Unit {0})
add_block node bl hash = do
  present ← gets (λ s. is_present (lookup hash s.blocks))
  fail_if present duplicate_block
  prev ← (gets (λ s. lookup (prev_hash bl) s.blocks) >>= λ o. or_fail o orphan_block)
  verdict ← gets (λ s. check_block node s bl prev)
  lift verdict
  top ← gets (λ s. s.stats.top_hash)
  if prev_hash bl == top
      then add_mainchain_block node.env bl hash
      else add_altchain_block node bl hash
