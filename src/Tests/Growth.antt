-- ===== src/Tests/Growth.antt =====
-- A fork that outgrows the main chain.
use virel_blockchain.Base.{
  ℕ, ◌≡◌, ◌≤◌, ◌<◌, ◌⊎◌, inr, refl, true, false, [], ◌∷◌, some, ok, err, arith,
}
use virel_blockchain.Base.Dict.{lookup}
use virel_blockchain.Block.{Block}
use virel_blockchain.Uint128
use virel_blockchain.Difficulty.{
  get_next_difficulty, difficulty_ema, corrected_time, at_least_minimum,
}
use virel_blockchain.Uint128.{value, IsWord}
use virel_blockchain.Base.{safe_add}
use virel_blockchain.Emission.{reward, reduce}
use virel_blockchain.Coinbase.{coinbase_transaction, coinbase_at}
use virel_blockchain.Stats.{drop_expired, delete_entry}
use virel_blockchain.Ledger.{Ledger, duplicate_block, get_state, set_state, set_tx_topo_inc}
use virel_blockchain.Ledger.Outputs.{
  apply_tx_outputs_to_state, apply_output, remove_tx_outputs_from_state, remove_output,
}
use virel_blockchain.Ledger.Blocks.{
  apply_block_to_state, remove_block_from_state, collect_transactions, write_pool,
  remove_transactions, coinbase_state_outputs, check_next_delegate, set_mempool, delete_entries,
  apply_transactions, apply_coinbase, update_sync,
}
use virel_blockchain.Ledger.Frame.{view}
use virel_blockchain.Chain.{get_block}
use virel_blockchain.Chain.Check
use virel_blockchain.Chain.Check.{check_block}
use virel_blockchain.Chain.Reorg
use virel_blockchain.Chain.Reorg.{check_reorgs, search_common}
use virel_blockchain.Chain.Add.{
  add_block, add_altchain_block, insert_block, extend_tips, extend_with,
}
use virel_blockchain.Block.Work.{contribution}
use virel_blockchain.Chain.Kept.{IsSized, add_block-IsHeaviest}
use virel_blockchain.Chain.Consistent.{IsConsistent, IsHeaviest, check_reorgs-IsHeaviest}
use virel_blockchain.Chain.Search.{IsDescending, IsSearched, search_common-IsSearched}
use virel_blockchain.Chain.Repeated.{add_block-add_block}
use virel_blockchain.Tests.Fork.{node, block_15, tip_15, forked}

abbrev grown : Ledger
grown = (add_block node block_15 15 forked).1

-- The ledger on which the reorganisation starts.
abbrev waiting : Ledger
waiting = record forked {
  blocks = (15, block_15) ∷ forked.blocks;
  stats = record (forked.stats) { tips = (14, tip_15) ∷ [] };
}

abbrev reorganized : Ledger
reorganized = (check_reorgs node waiting).1

block_15-IsSized : IsSized block_15
block_15-IsSized = record {
  difficulty_word = record { lo_word = omega arith; hi_word = omega arith };
  difficulty_small = omega arith;
  few_sides = omega arith;
  cumulative_word = record { lo_word = omega arith; hi_word = omega arith };
}

forked-IsConsistent : IsConsistent (view forked)
forked-IsConsistent = record {
  top_known = record {
    known = refl;
    word = record { lo_word = omega arith; hi_word = omega arith };
  };
  tips_known =
      (record { known = refl; word = record { lo_word = omega arith; hi_word = omega arith } }, tt);
}

forked-IsHeaviest : IsHeaviest (view forked)
forked-IsHeaviest = record { within = (omega arith, tt) }

runs :
    (add_block node block_15 15 forked ≡ (ok tt, grown))
    × (check_reorgs node waiting ≡ (ok true, reorganized))
unfolding add_block check_block Check.check_difficulty Check.expect_difficulty get_next_difficulty
    difficulty_ema Uint128.mul_64 Uint128.div_64 Uint128.quo_rem_64 Uint128.low_quotient Uint128.add
    corrected_time Uint128.equals at_least_minimum Uint128.cmp_64 Check.check_side_blocks
    Check.check_cumulative_diff Check.expect_cumulative contribution Check.check_stake
    add_altchain_block insert_block check_reorgs Reorg.best_tip extend_tips extend_with Reorg.better
    Uint128.cmp Reorg.reorganize Reorg.move_state Reorg.search_common Reorg.undo_main
    Reorg.undo_blocks Reorg.apply_branch Reorg.switch_top Reorg.set_topo Reorg.del_topo get_block
    apply_block_to_state remove_block_from_state collect_transactions write_pool remove_transactions
    reward coinbase_transaction remove_tx_outputs_from_state coinbase_state_outputs remove_output
    get_state set_state check_next_delegate set_mempool delete_entries apply_transactions
    apply_coinbase update_sync apply_tx_outputs_to_state apply_output safe_add coinbase_at
    set_tx_topo_inc reduce drop_expired delete_entry
runs = (refl, refl)

add_block-IsHeaviest_example :
    IsConsistent (view grown)
    × IsHeaviest (view grown)
    × (value forked.stats.cumulative_diff ≤ value grown.stats.cumulative_diff)
add_block-IsHeaviest_example =
    add_block-IsHeaviest node forked grown block_15 15 block_15-IsSized forked-IsConsistent
      forked-IsHeaviest runs.0

waiting-IsConsistent : IsConsistent (view waiting)
waiting-IsConsistent = record {
  top_known = record {
    known = refl;
    word = record { lo_word = omega arith; hi_word = omega arith };
  };
  tips_known =
      (record { known = refl; word = record { lo_word = omega arith; hi_word = omega arith } }, tt);
}

check_reorgs-IsHeaviest_example :
    IsConsistent (view reorganized)
    × IsHeaviest (view reorganized)
    × (((true ≡ false) × (reorganized ≡ waiting))
        ⊎ ((true ≡ true)
            × (value waiting.stats.cumulative_diff < value reorganized.stats.cumulative_diff)))
check_reorgs-IsHeaviest_example =
    check_reorgs-IsHeaviest node waiting reorganized true waiting-IsConsistent runs.1

add_block-add_block_example :
    (lookup 15 grown.blocks ≡ some block_15)
    × ((k : ℕ) (b : Block) → lookup k forked.blocks ≡ some b → lookup k grown.blocks ≡ some b)
    × ((later : Block) → add_block node later 15 grown ≡ (err duplicate_block, grown))
add_block-add_block_example = add_block-add_block node forked grown block_15 15 runs.0

waiting-IsDescending : IsDescending waiting.blocks
waiting-IsDescending =
    (inr (omega arith), (tt, (inr (omega arith), (inr (omega arith), (inr (omega arith), tt)))))

search_common-IsSearched_example :
    IsSearched waiting
      ((15, block_15) ∷ [])
      (search_common 4 waiting block_15 ((15, block_15) ∷ []))
search_common-IsSearched_example =
    search_common-IsSearched 3 waiting 15 block_15 [] waiting-IsDescending refl
      (λ e. omega (arith, e)) (omega arith) tt
