-- ===== src/Chain/Repeated.antt =====
-- AddBlock of blockchain/blockchain.go keeps what it takes, and refuses it the second time.
use virel_blockchain.Base.{
  ℕ, ◌≡◌, ◌∙◌, ap, inl, inr, ◌==◌, ==→eq, none, some, ok, err, arith, Bool-cases,
}
use virel_blockchain.Base.Dict.{Dict, lookup, insert, lookup-insert}
use virel_blockchain.Block.{Block}
use virel_blockchain.Ledger.{Ledger, duplicate_block}
use virel_blockchain.Ledger.Frame.{View}
use virel_blockchain.Chain.{Node}
use virel_blockchain.Chain.Add.{add_block}
use virel_blockchain.Chain.Consistent.{check_reorgs-blocks}
use virel_blockchain.Chain.Kept.{
  IsAdded, add_block-IsAdded, add_mainchain_block-view, check_reorgs_of_add, with_tip, main_view,
}

-- On the main chain and beside it, with a reorganisation and without, the blocks grow by the new one.
add_block-blocks :
    (node : Node) (s t : Ledger) (bl : Block) (hash : ℕ)
    → IsAdded node s bl hash t
    → t.blocks ≡ insert hash bl s.blocks
add_block-blocks node s t bl hash a = elim a.way [
  | inl (top, run) ↦
      let after = add_mainchain_block-view node.env bl hash s t run in
      unfold main_view in ap (λ (v : View). v.blocks) after
  | inr run ↦
      let (r, call) = check_reorgs_of_add node bl hash s t run in
      check_reorgs-blocks node (with_tip bl hash s) t r call
]

-- A block under a new hash leaves the others where they are.
lookup-insert_fresh :
    (hash k : ℕ) (bl b : Block) (blocks : Dict Block)
    → lookup hash blocks ≡ none
    → lookup k blocks ≡ some b
    → lookup k (insert hash bl blocks) ≡ some b
lookup-insert_fresh hash k bl b blocks fresh found = elim (Bool-cases (k == hash)) [
  | inl same ↦ absurd (ground (arith, found, ap (λ j. lookup j blocks) (==→eq k hash same), fresh))
  | inr other ↦ ground (arith, lookup-insert k hash bl blocks, other, found)
]

refused_again :
    (node : Node) (t : Ledger) (b later : Block) (hash : ℕ)
    → lookup hash t.blocks ≡ some b
    → add_block node later hash t ≡ (err duplicate_block, t)
unfolding add_block
refused_again node t b later hash stored = ground (arith, stored)

-- A block that AddBlock takes without an error, on the main chain or beside it, with a reorganisation
-- or without, is stored under its hash afterwards, and so is still every block that was stored before.
-- On the ledger after it, any block that comes with that hash is refused as a duplicate, and changes
-- nothing.
pub add_block-add_block :
    (node : Node) (s t : Ledger) (bl : Block) (hash : ℕ)
    → add_block node bl hash s ≡ (ok tt, t)
    → (lookup hash t.blocks ≡ some bl)
      × ((k : ℕ) (b : Block) → lookup k s.blocks ≡ some b → lookup k t.blocks ≡ some b)
      × ((later : Block) → add_block node later hash t ≡ (err duplicate_block, t))
add_block-add_block node s t bl hash e =
    let a = add_block-IsAdded node s t bl hash e in
    let grown = add_block-blocks node s t bl hash a in
    let stored : lookup hash t.blocks ≡ some bl =
      ap (lookup hash) grown ∙ ground (arith, lookup-insert hash hash bl s.blocks) in
    (
      stored,
      λ k b found. ap (lookup k) grown ∙ lookup-insert_fresh hash k bl b s.blocks a.fresh found,
      λ later. refused_again node t bl later hash stored,
    )
