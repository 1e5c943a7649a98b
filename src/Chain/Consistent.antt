-- ===== src/Chain/Consistent.antt =====
-- The top and the tips agree with the stored blocks, and no tip is heavier than the top: what AddBlock
-- and CheckReorgs of blockchain/blockchain.go keep.
use virel_blockchain.Base.{
  ℕ, zero, suc, ◌≤◌, ◌<◌, ◌≡◌, refl, sym, ap, subst, ◌⊎◌, inl, inr, Bool, true, false, ◌==◌, ==→eq,
  Option, none, some, List, [], ◌∷◌, All, ok, arith, Bool-cases,
}
use virel_blockchain.Base.Dict.{Dict, lookup, insert, erase, All-insert, All-erase}
use virel_blockchain.Uint128.{Uint128, IsWord, value}
use virel_blockchain.Block.{Block, prev_hash}
use virel_blockchain.Stats.{AltchainTip}
use virel_blockchain.Ledger.{Ledger}
use virel_blockchain.Ledger.Frame.{View, view, Keeps}
use virel_blockchain.Ledger.Frame.Rules.{
  keeps_rules, Keeps-pure, Keeps-fail, Keeps-gets, Keeps-lift, Keeps-bind,
}
use virel_blockchain.Ledger.Frame.Blocks.{Keeps-apply_block_to_state, Keeps-remove_block_from_state}
use virel_blockchain.Chain.{Node, get_block}
use virel_blockchain.Chain.Check.{check_block}
use virel_blockchain.Chain.Reorg.{
  best_tip, main_tip, del_topo, set_topo, undo_blocks, undo_main, apply_branch, switch_top,
  move_state, reorganize, check_reorgs,
}
use virel_blockchain.Chain.Heaviest.{
  IsWithin, IsWordTip, best_tip_heaviest, best_tip_induction, best_tip_same_or_heavier,
}

Keeps-get_block : (hash : ℕ) → Keeps (get_block hash)
unfolding get_block
Keeps-get_block hash = search keeps_rules depth 24

Keeps-del_topo : (height : ℕ) → Keeps (del_topo height)
unfolding del_topo
Keeps-del_topo height = record { run = λ s. refl }

Keeps-set_topo : (height hash : ℕ) → Keeps (set_topo height hash)
unfolding set_topo
Keeps-set_topo height hash = record { run = λ s. refl }

ruleset chain_rules = (
  keeps_rules, Keeps-get_block, Keeps-del_topo, Keeps-set_topo, Keeps-apply_block_to_state,
  Keeps-remove_block_from_state,
)

Keeps-undo_blocks :
    (fuel : ℕ) (node : Node) (common hash : ℕ) (last : Block)
    → Keeps (undo_blocks fuel node common hash last)
unfolding undo_blocks
Keeps-undo_blocks zero node common hash last = Keeps-fail _
Keeps-undo_blocks (suc k) node common hash last =
    let rest = λ (h : ℕ) (n : Block). Keeps-undo_blocks k node common h n in
    search (chain_rules, rest) depth 24

Keeps-undo_main : (node : Node) (common : ℕ) → Keeps (undo_main node common)
unfolding undo_main
Keeps-undo_main node common = search (chain_rules, Keeps-undo_blocks) depth 24

Keeps-apply_branch : (node : Node) (branch : List (ℕ × Block)) → Keeps (apply_branch node branch)
unfolding apply_branch
Keeps-apply_branch node [] = Keeps-pure tt
Keeps-apply_branch node ((hash, bl) ∷ branch) = Keeps-bind _ _ (Keeps-set_topo bl.height hash) (λ _.
    Keeps-bind _ _ (Keeps-get_block (prev_hash bl)) (λ prev.
      Keeps-bind _ _ (Keeps-gets (λ (s : Ledger). check_block node s bl prev)) (λ verdict.
        Keeps-bind _ _ (Keeps-lift verdict) (λ _.
          Keeps-bind _ _ (Keeps-apply_block_to_state node.env bl hash)
            (λ _. Keeps-apply_branch node branch)))))

Keeps-move_state : (node : Node) (best : AltchainTip) → Keeps (move_state node best)
unfolding move_state
Keeps-move_state node best = search (chain_rules, Keeps-undo_main, Keeps-apply_branch) depth 24

abbrev pub diff_of : Option Block → Option Uint128
diff_of none = none
diff_of (some b) = some (b.cumulative_diff)

-- The tip's block is stored, with the tip's cumulative difficulty, a pair of words.
pub record IsTip (blocks : Dict Block) (t : AltchainTip) : Type 0 where
  pub known : diff_of (lookup t.hash blocks) ≡ some t.cumulative_diff
  pub word : IsWord t.cumulative_diff

abbrev pub top_of : View → AltchainTip
top_of v = record { hash = v.top_hash; height = v.top_height; cumulative_diff = v.cumulative_diff }

-- The top and all tips are so.
pub record IsConsistent (v : View) : Type 0 where
  pub top_known : IsTip v.blocks (top_of v)
  pub tips_known : All (λ (p : ℕ × AltchainTip). IsTip v.blocks (p.1)) v.tips

-- No tip is heavier than the top.
pub record IsHeaviest (v : View) : Type 0 where
  pub within : All (IsWithin v.cumulative_diff) v.tips

-- The view after step 4.
abbrev switched : AltchainTip → View → View
switched best v = record {
  blocks = v.blocks;
  top_hash = best.hash;
  top_height = best.height;
  cumulative_diff = best.cumulative_diff;
  tips = insert v.top_hash (top_of v) (erase best.hash v.tips);
}

reorganize_switches :
    (node : Node) (best : AltchainTip) (s t : Ledger) (r : Bool)
    → reorganize node best s ≡ (ok r, t)
    → (r ≡ true) × (view t ≡ switched best (view s))
unfolding reorganize switch_top
reorganize_switches node best s t r e = ground (arith, (Keeps-move_state node best).run s)

abbrev pub best_of : Ledger → AltchainTip
best_of s = best_tip (main_tip s.stats) s.stats.tips

-- A reorganisation stores no block and drops none.
pub check_reorgs-blocks :
    (node : Node) (s t : Ledger) (r : Bool) → check_reorgs node s ≡ (ok r, t) → t.blocks ≡ s.blocks
check_reorgs-blocks node s t r e = elim (Bool-cases ((best_of s).hash == s.stats.top_hash)) [
  | inl at_top ↦
      let same : t ≡ s = unfold check_reorgs in ground (arith, e, at_top) in
      ap (λ (l : Ledger). l.blocks) same
  | inr away ↦
      let run : reorganize node (best_of s) s ≡ (ok r, t) =
        unfold check_reorgs in ground (arith, e, away) in
      ap (λ (v : View). v.blocks) (reorganize_switches node (best_of s) s t r run).1
]

All-words :
    (blocks : Dict Block) (tips : Dict AltchainTip)
    → All (λ (p : ℕ × AltchainTip). IsTip blocks (p.1)) tips
    → All IsWordTip tips
All-words blocks [] h = tt
All-words blocks (p ∷ tips) (h, hs) = (h.word, All-words blocks tips hs)

-- A best tip with the top's hash is as heavy as the top.
tip_of_top :
    (blocks : Dict Block) (a b : AltchainTip)
    → IsTip blocks a
    → IsTip blocks b
    → a.hash ≡ b.hash
    → a.cumulative_diff ≡ b.cumulative_diff
tip_of_top blocks a b ha hb e = cc (ha.known, hb.known, ap (λ h. lookup h blocks) e)

module _ (node : Node) (s : Ledger) (c : IsConsistent (view s)) where
  best_known : IsTip s.blocks (best_of s)
  best_known =
      best_tip_induction (IsTip s.blocks) (main_tip s.stats) s.stats.tips c.top_known c.tips_known

  words : All IsWordTip s.stats.tips
  words = All-words s.blocks s.stats.tips c.tips_known

  best_heaviest :
      (value s.stats.cumulative_diff ≤ value ((best_of s).cumulative_diff))
      × All (IsWithin ((best_of s).cumulative_diff)) s.stats.tips
  best_heaviest = best_tip_heaviest (main_tip s.stats) s.stats.tips c.top_known.word words

  at_top_IsHeaviest : ((best_of s).hash == s.stats.top_hash) ≡ true → IsHeaviest (view s)
  at_top_IsHeaviest at_top =
      let level =
        tip_of_top s.blocks (best_of s) (main_tip s.stats) best_known c.top_known
          (==→eq _ _ at_top) in
      record { within = subst (λ d. All (IsWithin d) s.stats.tips) level best_heaviest.1 }

  switched-IsConsistent : IsConsistent (switched (best_of s) (view s))
  switched-IsConsistent = record {
    top_known = best_known;
    tips_known =
        All-insert (λ (p : ℕ × AltchainTip). IsTip s.blocks (p.1)) s.stats.top_hash
          (main_tip s.stats) (erase ((best_of s).hash) s.stats.tips) c.top_known
          (All-erase (λ (p : ℕ × AltchainTip). IsTip s.blocks (p.1)) ((best_of s).hash) s.stats.tips
            c.tips_known);
  }

  switched-IsHeaviest : IsHeaviest (switched (best_of s) (view s))
  switched-IsHeaviest = record {
    within =
        All-insert (IsWithin ((best_of s).cumulative_diff)) s.stats.top_hash (main_tip s.stats)
          (erase ((best_of s).hash) s.stats.tips) best_heaviest.0
          (All-erase (IsWithin ((best_of s).cumulative_diff)) ((best_of s).hash) s.stats.tips
            best_heaviest.1);
  }

  away_heavier :
      ((best_of s).hash == s.stats.top_hash) ≡ false
      → value s.stats.cumulative_diff < value ((best_of s).cumulative_diff)
  away_heavier away =
      elim (best_tip_same_or_heavier (main_tip s.stats) s.stats.tips c.top_known.word words) [
        | inl e ↦ absurd (ground (arith, ap (λ (t : AltchainTip). t.hash) e))
        | inr lt ↦ lt
      ]

-- On a consistent ledger, a call of CheckReorgs that returns no error leaves a consistent ledger whose
-- top is as heavy as every tip. Either it changes nothing, or it reports a reorganisation, and then
-- the new top is heavier than the old one.
pub check_reorgs-IsHeaviest :
    (node : Node) (s t : Ledger) (r : Bool)
    → IsConsistent (view s)
    → check_reorgs node s ≡ (ok r, t)
    → IsConsistent (view t)
      × IsHeaviest (view t)
      × (((r ≡ false) × (t ≡ s))
          ⊎ ((r ≡ true) × (value s.stats.cumulative_diff < value t.stats.cumulative_diff)))
check_reorgs-IsHeaviest node s t r c e = elim (Bool-cases ((best_of s).hash == s.stats.top_hash)) [
  | inl at_top ↦
      let kept : (r ≡ false) × (t ≡ s) =
        unfold check_reorgs in (ground (arith, e, at_top), ground (arith, e, at_top)) in
      (
        subst (λ l. IsConsistent (view l)) (sym kept.1) c,
        subst (λ l. IsHeaviest (view l)) (sym kept.1) (at_top_IsHeaviest node s c at_top),
        inl kept,
      )
  | inr away ↦
      let run : reorganize node (best_of s) s ≡ (ok r, t) =
        unfold check_reorgs in ground (arith, e, away) in
      let moved = reorganize_switches node (best_of s) s t r run in
      (
        subst IsConsistent (sym moved.1) (switched-IsConsistent node s c),
        subst IsHeaviest (sym moved.1) (switched-IsHeaviest node s c),
        inr (
          moved.0,
          subst (λ d. value s.stats.cumulative_diff < value d)
              (sym (ap (λ (v : View). v.cumulative_diff) moved.1)) (away_heavier node s c away),
        ),
      )
]
