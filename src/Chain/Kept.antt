-- ===== src/Chain/Kept.antt =====
-- AddBlock of blockchain/blockchain.go keeps the top the heaviest of the chain's tips.
use virel_blockchain.Base.{
  ℕ, ◌+◌, ◌≤◌, ◌<◌, ◌^◌, ◌≡◌, refl, sym, ◌∙◌, ap, subst, ◌⊎◌, inl, inr, Bool, true, ◌==◌, ==→eq,
  ltb, Option, none, some, [], ◌∷◌, All, length, Result, ok, err, panic, arith, Bool-cases,
  Option-cases,
}
use virel_blockchain.Base.Dict.{Dict, lookup, insert, lookup-insert, All-insert}
use virel_blockchain.Uint128
use virel_blockchain.Uint128.{Uint128, IsWord, value, checked, of_value}
use virel_blockchain.Uint128.Arith.{add-checked}
use virel_blockchain.Block.{Block, prev_hash}
use virel_blockchain.Block.Work.{and_then}
use virel_blockchain.Block.Work.Value.{
  work, work_bound, contribution-work, of_value-IsWord, value-of_value,
}
use virel_blockchain.Stats.{AltchainTip}
use virel_blockchain.Ledger.{Ledger}
use virel_blockchain.Ledger.Blocks.{Environment, insert_block_main, add_mainchain_block}
use virel_blockchain.Ledger.Frame.{View, view}
use virel_blockchain.Ledger.Frame.Blocks.{Keeps-apply_block_to_state}
use virel_blockchain.Chain.{Node}
use virel_blockchain.Chain.Check.{check_block}
use virel_blockchain.Chain.Accepted.{IsAccepted, check_block-IsAccepted}
use virel_blockchain.Chain.Reorg.{check_reorgs}
use virel_blockchain.Chain.Add.{
  extend_with, extend_tips, insert_block, add_altchain_block, add_block,
}
use virel_blockchain.Chain.Heaviest.{IsWithin-mono}
use virel_blockchain.Chain.Consistent.{
  diff_of, IsTip, IsConsistent, IsHeaviest, check_reorgs-IsHeaviest,
}

-- The block's numbers are in range: 128-bit values, a difficulty below 2 ^ 125, two side blocks at most.
pub record IsSized (bl : Block) : Type 0 where
  pub difficulty_word : IsWord bl.difficulty
  pub difficulty_small : value bl.difficulty < 2 ^ 125
  pub few_sides : length bl.side_blocks ≤ 2
  pub cumulative_word : IsWord bl.cumulative_diff

value-checked : (n : ℕ) (c : Uint128) → checked n ≡ some c → value c ≡ n
value-checked n c e = elim (Bool-cases (ltb n (2 ^ 128))) [
  | inl h ↦ ground (arith, value-of_value n, h, e)
  | inr h ↦ absurd (ground (arith, h, e))
]

-- An accepted block adds its work to its predecessor's cumulative difficulty, without an overflow.
pub cumulative_adds_work :
    (node : Node) (s : Ledger) (bl prev : Block)
    → IsSized bl
    → IsWord prev.cumulative_diff
    → IsAccepted node s bl prev
    → value bl.cumulative_diff ≡ value prev.cumulative_diff + work bl
cumulative_adds_work node s bl prev sized word accepted =
    value-checked (value prev.cumulative_diff + work bl) bl.cumulative_diff (
      ap (λ k. checked (value prev.cumulative_diff + k)) (sym (value-of_value (work bl)))
      ∙ sym (
          add-checked prev.cumulative_diff (of_value (work bl)) word
            (of_value-IsWord (work bl) (work_bound bl sized.difficulty_small sized.few_sides)))
      ∙ ap (λ o. and_then o (Uint128.add prev.cumulative_diff))
          (sym (contribution-work bl sized.difficulty_word sized.difficulty_small sized.few_sides))
      ∙ accepted.cumulative)

unfoldable pub main_view : Block → (hash : ℕ) → View → View
main_view bl hash v = record {
  blocks = insert hash bl v.blocks;
  top_hash = hash;
  top_height = bl.height;
  cumulative_diff = bl.cumulative_diff;
  tips = v.tips;
}

pub add_mainchain_block-view :
    (env : Environment) (bl : Block) (hash : ℕ) (s t : Ledger)
    → add_mainchain_block env bl hash s ≡ (ok tt, t)
    → view t ≡ main_view bl hash (view s)
unfolding add_mainchain_block insert_block_main main_view
add_mainchain_block-view env bl hash s t e =
    ground (arith, (Keeps-apply_block_to_state env bl hash).run s)

-- A block under a new hash does not hide the block of a tip.
insert-IsTip :
    (hash : ℕ) (bl : Block) (blocks : Dict Block) (t : AltchainTip)
    → lookup hash blocks ≡ none
    → IsTip blocks t
    → IsTip (insert hash bl blocks) t
insert-IsTip hash bl blocks t fresh h = record {
  known = elim (Bool-cases (t.hash == hash)) [
    | inl e ↦
        absurd (ground (arith, h.known, ap (λ k. lookup k blocks) (==→eq t.hash hash e), fresh))
    | inr e ↦ ground (arith, lookup-insert t.hash hash bl blocks, e, h.known)
  ];
  word = h.word;
}

insert-All :
    (hash : ℕ) (bl : Block) (blocks : Dict Block) (tips : Dict AltchainTip)
    → lookup hash blocks ≡ none
    → All (λ (p : ℕ × AltchainTip). IsTip blocks (p.1)) tips
    → All (λ (p : ℕ × AltchainTip). IsTip (insert hash bl blocks) (p.1)) tips
insert-All hash bl blocks [] fresh h = tt
insert-All hash bl blocks (p ∷ tips) fresh (h, hs) =
    (insert-IsTip hash bl blocks (p.1) fresh h, insert-All hash bl blocks tips fresh hs)

-- The tip of the block itself.
new-IsTip :
    (hash height : ℕ) (bl : Block) (blocks : Dict Block)
    → IsWord bl.cumulative_diff
    → IsTip
        (insert hash bl blocks)
        (record { hash = hash; height = height; cumulative_diff = bl.cumulative_diff })
new-IsTip hash height bl blocks word = record {
  known = ground (arith, lookup-insert hash hash bl blocks);
  word = word;
}

-- What a call without an error has found, and which way it went.
pub record IsAdded (node : Node) (s : Ledger) (bl : Block) (hash : ℕ) (t : Ledger) : Type 0 where
  pub fresh : lookup hash s.blocks ≡ none
  pub prev : Block
  pub stored : lookup (prev_hash bl) s.blocks ≡ some prev
  pub checked : check_block node s bl prev ≡ ok tt
  pub way :
      (((prev_hash bl == s.stats.top_hash) ≡ true)
        × (add_mainchain_block node.env bl hash s ≡ (ok tt, t)))
      ⊎ (add_altchain_block node bl hash s ≡ (ok tt, t))

Verdict-cases :
    {E A : Type 0} (r : Result E A)
    → ((a : A) × (r ≡ ok a)) ⊎ ((r ≡ panic) ⊎ ((x : E) × (r ≡ err x)))
Verdict-cases (ok a) = inl (a, refl)
Verdict-cases (err x) = inr (inr (x, refl))
Verdict-cases panic = inr (inl refl)

pub add_block-IsAdded :
    (node : Node) (s t : Ledger) (bl : Block) (hash : ℕ)
    → add_block node bl hash s ≡ (ok tt, t)
    → IsAdded node s bl hash t
unfolding add_block
add_block-IsAdded node s t bl hash e = elim (Option-cases (lookup hash s.blocks)) [
  | inr (b, present) ↦ absurd (ground (arith, e, present))
  | inl fresh ↦ elim (Option-cases (lookup (prev_hash bl) s.blocks)) [
    | inl orphan ↦ absurd (ground (arith, e, fresh, orphan))
    | inr (prev, stored) ↦ elim (Verdict-cases (check_block node s bl prev)) [
      | inr (inl crashed) ↦ absurd (ground (arith, e, fresh, stored, crashed))
      | inr (inr (x, refused)) ↦ absurd (ground (arith, e, fresh, stored, refused))
      | inl (u, passed) ↦ record {
        fresh = fresh;
        prev = prev;
        stored = stored;
        checked = passed;
        way = elim (Bool-cases (prev_hash bl == s.stats.top_hash)) [
          | inl top ↦ inl (top, ground (arith, e, fresh, stored, passed, top))
          | inr side ↦ inr (ground (arith, e, fresh, stored, passed, side))
        ];
      }
    ]
  ]
]

extend_with-IsTip :
    (bl : Block) (hash : ℕ) (blocks : Dict Block) (tips : Dict AltchainTip) (o : Option AltchainTip)
    → IsWord bl.cumulative_diff
    → All (λ (p : ℕ × AltchainTip). IsTip (insert hash bl blocks) (p.1)) tips
    → All
        (λ (p : ℕ × AltchainTip). IsTip (insert hash bl blocks) (p.1))
        (extend_with bl hash tips o)
unfolding extend_with
extend_with-IsTip bl hash blocks tips (some tip) word h =
    All-insert (λ (p : ℕ × AltchainTip). IsTip (insert hash bl blocks) (p.1)) (prev_hash bl) _ tips
      (new-IsTip hash _ bl blocks word) h
extend_with-IsTip bl hash blocks tips none word h =
    All-insert (λ (p : ℕ × AltchainTip). IsTip (insert hash bl blocks) (p.1)) hash _ tips
      (new-IsTip hash bl.height bl blocks word) h

-- The ledger on which addAltchainBlock calls CheckReorgs.
abbrev pub with_tip : Block → (hash : ℕ) → Ledger → Ledger
with_tip bl hash s = record s {
  stats = record (s.stats) { tips = extend_tips bl hash s.stats.tips };
  blocks = insert hash bl s.blocks;
}

with_tip-IsConsistent :
    (bl : Block) (hash : ℕ) (s : Ledger)
    → IsWord bl.cumulative_diff
    → lookup hash s.blocks ≡ none
    → IsConsistent (view s)
    → IsConsistent (view (with_tip bl hash s))
unfolding extend_tips
with_tip-IsConsistent bl hash s word fresh c = record {
  top_known = insert-IsTip hash bl s.blocks _ fresh c.top_known;
  tips_known =
      extend_with-IsTip bl hash s.blocks s.stats.tips (lookup (prev_hash bl) s.stats.tips) word
        (insert-All hash bl s.blocks s.stats.tips fresh c.tips_known);
}

pub check_reorgs_of_add :
    (node : Node) (bl : Block) (hash : ℕ) (s t : Ledger)
    → add_altchain_block node bl hash s ≡ (ok tt, t)
    → (r : Bool) × (check_reorgs node (with_tip bl hash s) ≡ (ok r, t))
unfolding add_altchain_block insert_block
check_reorgs_of_add node bl hash s t e =
    elim (Verdict-cases ((check_reorgs node (with_tip bl hash s)).0)) [
      | inl (r, done) ↦ (r, ground (arith, e, done))
      | inr (inl crashed) ↦ absurd (ground (arith, e, crashed))
      | inr (inr (x, failed)) ↦ absurd (ground (arith, e, failed))
    ]

main_view-IsConsistent :
    (bl : Block) (hash : ℕ) (s : Ledger)
    → IsWord bl.cumulative_diff
    → lookup hash s.blocks ≡ none
    → IsConsistent (view s)
    → IsConsistent (main_view bl hash (view s))
unfolding main_view
main_view-IsConsistent bl hash s word fresh c = record {
  top_known = new-IsTip hash bl.height bl s.blocks word;
  tips_known = insert-All hash bl s.blocks s.stats.tips fresh c.tips_known;
}

-- The block before is the top, and the new one is at least as heavy.
main_heavier :
    (node : Node) (s t : Ledger) (bl : Block) (hash : ℕ)
    → IsSized bl
    → IsConsistent (view s)
    → (a : IsAdded node s bl hash t) → (prev_hash bl == s.stats.top_hash) ≡ true
    → value s.stats.cumulative_diff ≤ value bl.cumulative_diff
main_heavier node s t bl hash sized c a top =
    let at_top : diff_of (lookup (prev_hash bl) s.blocks) ≡ some s.stats.cumulative_diff =
      ap (λ k. diff_of (lookup k s.blocks)) (==→eq _ _ top) ∙ c.top_known.known in
    let level : s.stats.cumulative_diff ≡ a.prev.cumulative_diff = cc (at_top, a.stored) in
    let word : IsWord a.prev.cumulative_diff = subst IsWord level c.top_known.word in
    omega (
      arith,
      ap (λ d. value d) level,
      cumulative_adds_work node s bl a.prev sized word
          (check_block-IsAccepted node s bl a.prev a.checked),
    )

main_view-IsHeaviest :
    (bl : Block) (hash : ℕ) (s : Ledger)
    → value s.stats.cumulative_diff ≤ value bl.cumulative_diff
    → IsHeaviest (view s)
    → IsHeaviest (main_view bl hash (view s))
unfolding main_view
main_view-IsHeaviest bl hash s heavier h = record {
  within = IsWithin-mono s.stats.cumulative_diff bl.cumulative_diff s.stats.tips heavier h.within;
}

-- On a ledger whose top and tips agree with the stored blocks and whose top is as heavy as every tip,
-- adding a block without an error, on the main chain or beside it, leaves such a ledger again, and a
-- top that is at least as heavy as before. The block's numbers are in range: 128-bit values, a
-- difficulty below 2 ^ 125, two side blocks at most.
pub add_block-IsHeaviest :
    (node : Node) (s t : Ledger) (bl : Block) (hash : ℕ)
    → IsSized bl
    → IsConsistent (view s)
    → IsHeaviest (view s)
    → add_block node bl hash s ≡ (ok tt, t)
    → IsConsistent (view t)
      × IsHeaviest (view t)
      × (value s.stats.cumulative_diff ≤ value t.stats.cumulative_diff)
add_block-IsHeaviest node s t bl hash sized c h e =
    let a = add_block-IsAdded node s t bl hash e in
    elim a.way [
      | inl (top, run) ↦
          let after = add_mainchain_block-view node.env bl hash s t run in
          let heavier = main_heavier node s t bl hash sized c a top in
          (
            subst IsConsistent (sym after)
                (main_view-IsConsistent bl hash s sized.cumulative_word a.fresh c),
            subst IsHeaviest (sym after) (main_view-IsHeaviest bl hash s heavier h),
            subst (λ d. value s.stats.cumulative_diff ≤ value d)
                (sym (ap (λ (v : View). v.cumulative_diff) after)) (unfold main_view in heavier),
          )
      | inr run ↦
          let (r, call) = check_reorgs_of_add node bl hash s t run in
          let kept =
            check_reorgs-IsHeaviest node (with_tip bl hash s) t r
              (with_tip-IsConsistent bl hash s sized.cumulative_word a.fresh c) call in
          (
            kept.0,
            kept.1,
            elim kept.2 [
              | inl (stays, unchanged) ↦
                  subst
                    (λ (l : Ledger).
                      value s.stats.cumulative_diff ≤ value (l.stats.cumulative_diff))
                    (sym unchanged) (omega arith)
              | inr (moved, heavier) ↦ omega arith
            ],
          )
    ]
