-- ===== src/Chain/Reorg.antt =====
-- CheckReorgs of blockchain/blockchain.go: the choice of the heaviest chain and the change to it. The
-- order of a list of tips stands for the order in which the loop over the map meets them. Loops run on
-- fuel that the heights bound: an error `out_of_fuel` is no error of the code.
use virel_blockchain.Base.{
  ℕ, zero, suc, Bool, true, false, ◌==◌, if◌then◌else◌, none, some, List, [], ◌∷◌, Result, ok, err,
  ◌>>=◌, ◌>>◌, pure, fail, lift, gets, modify,
}
use virel_blockchain.Base.Dict.{Dict, lookup, insert, erase}
use virel_blockchain.Uint128
use virel_blockchain.Uint128.{Uint128, Comparison, less, same, greater}
use virel_blockchain.Block.{Block, prev_hash}
use virel_blockchain.Stats.{AltchainTip, Stats}
use virel_blockchain.Ledger.{Ledger, Do, Error, unknown_block, no_common_block, out_of_fuel}
use virel_blockchain.Ledger.Blocks.{apply_block_to_state, remove_block_from_state}
use virel_blockchain.Chain.{Node, get_block, or_zero_hash}
use virel_blockchain.Chain.Check.{check_block}

abbrev pub is_greater : Comparison → Bool
is_greater less = false
is_greater same = false
is_greater greater = true

-- The first loop: a tip that is heavier than the best so far takes its place.
unfoldable pub better : AltchainTip → AltchainTip → AltchainTip
better best v = if is_greater (Uint128.cmp v.cumulative_diff best.cumulative_diff) then v else best

unfoldable pub best_tip : AltchainTip → Dict AltchainTip → AltchainTip
best_tip best [] = best
best_tip best ((key, v) ∷ tips) = best_tip (better best v) tips

abbrev pub main_tip : Stats → AltchainTip
main_tip stats = record {
  hash = stats.top_hash;
  height = stats.top_height;
  cumulative_diff = stats.cumulative_diff;
}

-- Step 1: down from the alternative tip until a block that is on the main chain. `branch` holds the
-- blocks above it, the lowest first.
unfoldable pub search_common :
    (fuel : ℕ) → Ledger → Block → (branch : List (ℕ × Block)) → Result Error (ℕ × List (ℕ × Block))
search_common zero s current branch = err out_of_fuel
search_common (suc n) s current branch = elim (lookup (prev_hash current) s.blocks) [
  | none ↦ err unknown_block
  | some common ↦
      let rest = search_common n s common ((prev_hash current, common) ∷ branch) in
      if common.height == 0
      then err no_common_block
      else if or_zero_hash (lookup common.height s.topo) == prev_hash current
      then ok (prev_hash current, branch)
      else rest
]

unfoldable pub del_topo : (height : ℕ) → Do (Unit {0})
del_topo height = modify (λ s. record s { topo = erase height s.topo })

unfoldable pub set_topo : (height hash : ℕ) → Do (Unit {0})
set_topo height hash = modify (λ s. record s { topo = insert height hash s.topo })

-- Step 2: the blocks of the main chain are undone from the top down; `last` is the one before.
unfoldable pub undo_blocks : (fuel : ℕ) → Node → (common hash : ℕ) → (last : Block) → Do (Unit {0})
undo_blocks zero node common hash last = fail out_of_fuel
undo_blocks (suc k) node common hash last =
    if hash == common
    then pure tt
    else if last.height == 0
    then fail no_common_block
    else (get_block hash >>= λ n.
        del_topo n.height
        >> (remove_block_from_state node.env n hash >> undo_blocks k node common (prev_hash n) n))

unfoldable pub undo_main : Node → (common : ℕ) → Do (Unit {0})
undo_main node common = do
  top ← gets (λ s. s.stats.top_hash)
  if top == common
      then pure tt
      else (get_block top >>= λ n.
          if node.block_hash n == common
          then pure tt
          else undo_blocks (suc (suc n.height)) node common top n)

-- Step 3: the blocks of the branch are checked and applied from the lowest up.
unfoldable pub apply_branch : Node → List (ℕ × Block) → Do (Unit {0})
apply_branch node [] = pure tt
apply_branch node ((hash, bl) ∷ branch) = do
  set_topo bl.height hash
  prev ← get_block (prev_hash bl)
  verdict ← gets (λ s. check_block node s bl prev)
  lift verdict
  apply_block_to_state node.env bl hash
  apply_branch node branch

-- Step 4: the old top becomes a tip, and the alternative tip the top.
unfoldable pub switch_top : AltchainTip → Do (Unit {0})
switch_top best = modify (λ s. record s {
  stats = record (s.stats) {
    tips = insert s.stats.top_hash (main_tip s.stats) (erase best.hash s.stats.tips);
    top_hash = best.hash;
    cumulative_diff = best.cumulative_diff;
    top_height = best.height;
  };
})

-- Steps 1 to 3.
unfoldable pub move_state : Node → AltchainTip → Do (Unit {0})
move_state node best = do
  tip ← get_block best.hash
  found ← gets (λ s. search_common (suc tip.height) s tip ((best.hash, tip) ∷ []))
  (common, branch) ← lift found
  undo_main node common
  apply_branch node branch

unfoldable pub reorganize : Node → AltchainTip → Do Bool
reorganize node best = do move_state node best; switch_top best; pure true

-- The result says whether the chain was reorganised.
unfoldable pub check_reorgs : Node → Do Bool
check_reorgs node = do
  stats ← gets (λ s. s.stats)
  let best = best_tip (main_tip stats) stats.tips
  if best.hash == stats.top_hash then pure false else reorganize node best
