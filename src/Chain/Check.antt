-- ===== src/Chain/Check.antt =====
-- checkBlock of blockchain/blockchain.go: the rules for a block behind its predecessor. It reads the
-- ledger and does not change it.
use virel_blockchain.Base.{
  ℕ, suc, ◌+◌, ◌-◌, Bool, true, false, not, ◌&&◌, ◌==◌, ltb, leb, if◌then◌else◌, Option, none, some,
  List, [], ◌∷◌, get_elem?, Result, ok, err, panic, add64,
}
use virel_blockchain.Base.Dict.{Dict, lookup}
use virel_blockchain.Config.{minidag_ancestors}
use virel_blockchain.Uint128
use virel_blockchain.Uint128.{Uint128}
use virel_blockchain.Difficulty.{get_next_difficulty}
use virel_blockchain.Chaintype.{Delegate}
use virel_blockchain.Block.{Commitment, Block, block_staked_hash, is_unsigned}
use virel_blockchain.Block.Work.{and_then, contribution, commitment, commitment_equals, to_list}
use virel_blockchain.Ledger.{
  Ledger, Error, no_difficulty, bad_difficulty, bad_height, bad_timestamp, bad_cumulative_diff,
  bad_subsequent_block, no_common_block, side_block_included, bad_delegate, nothing_at_stake,
  bad_stake_signature, unknown_block, unknown_delegate,
}
use virel_blockchain.Chain.{Node}

abbrev pub Verdict : Type 0
Verdict = Result Error (Unit {0})

-- The second check runs if the first passes.
infixr 4 ◌then_check◌
abbrev pub ◌then_check◌ :
    {E : Type 0} → Result E (Unit {0}) → Result E (Unit {0}) → Result E (Unit {0})
ok _ then_check next = next
err e then_check next = err e
panic then_check next = panic

abbrev pub refuse_if : {E : Type 0} → Bool → E → Result E (Unit {0})
refuse_if true e = err e
refuse_if false e = ok tt

unfoldable pub expect_difficulty : Uint128 → Result (Unit {0}) Uint128 → Verdict
expect_difficulty given (err e) = err no_difficulty
expect_difficulty given panic = panic
expect_difficulty given (ok expected) =
    refuse_if (not (Uint128.equals given expected)) bad_difficulty

unfoldable pub check_difficulty : Dict Block → (bl prev : Block) → Verdict
check_difficulty blocks bl prev = expect_difficulty bl.difficulty (get_next_difficulty blocks prev)

-- The inner loop: the last position `vid` from `ancid` on with the hash `anc` gives the difference of
-- heights.
unfoldable pub scan_ancestors : (anc ancid vid : ℕ) → Option ℕ → List ℕ → Option ℕ
scan_ancestors anc ancid vid found [] = found
scan_ancestors anc ancid vid found (v ∷ vs) =
    scan_ancestors anc ancid (suc vid)
      (if leb ancid vid && v == anc then some (vid - ancid) else found) vs

-- Once a common ancestor is found, those behind it have to match.
unfoldable pub match_ancestors : (bl_ancestors : List ℕ) → (position : ℕ) → List ℕ → Verdict
match_ancestors ancs position [] = ok tt
match_ancestors ancs position (v ∷ vs) = elim (get_elem? ancs position) [
  | none ↦ ok tt
  | some anc ↦
      refuse_if (not (v == anc)) bad_subsequent_block
      then_check match_ancestors ancs (suc position) vs
]

unfoldable pub check_ancestors : (bl_ancestors : List ℕ) → (ancid : ℕ) → List ℕ → Verdict
check_ancestors ancs ancid [] = err no_common_block
check_ancestors ancs ancid (v ∷ vs) =
    let rest = check_ancestors ancs (suc ancid) vs in
    elim (scan_ancestors v ancid 0 none ancs) [
      | none ↦ rest
      | some difference ↦ match_ancestors ancs (suc ancid + difference) vs
    ]

-- The side block is none of these.
unfoldable pub check_new : Commitment → List Commitment → Verdict
check_new side [] = ok tt
check_new side (v ∷ vs) =
    refuse_if (commitment_equals side v) side_block_included then_check check_new side vs

-- It is neither an ancestor nor a side block of one, down to the genesis block.
unfoldable pub check_not_included : Node → Dict Block → Commitment → List ℕ → Verdict
check_not_included node blocks side [] = ok tt
check_not_included node blocks side (anc ∷ ancs) =
    let rest = check_not_included node blocks side ancs in
    elim (lookup anc blocks) [
      | none ↦ err unknown_block
      | some b ↦
          refuse_if (commitment_equals side (commitment node.base_hash b)) side_block_included
          then_check (check_new side b.side_blocks
              then_check (if b.height == 0 then ok tt else rest))
    ]

unfoldable pub check_side_block : Node → Dict Block → (bl prev : Block) → Commitment → Verdict
check_side_block node blocks bl prev side =
    check_ancestors (to_list bl.ancestors) 0 (to_list side.ancestors)
    then_check (refuse_if (commitment_equals side (commitment node.base_hash prev))
          side_block_included
        then_check (check_new side prev.side_blocks
            then_check (if ltb 0 prev.height
                then check_not_included node blocks side
                    (bl.ancestors.second ∷ bl.ancestors.third ∷ [])
                else ok tt)))

unfoldable pub check_side_blocks : Node → Dict Block → (bl prev : Block) → List Commitment → Verdict
check_side_blocks node blocks bl prev [] = ok tt
check_side_blocks node blocks bl prev (v ∷ vs) =
    check_side_block node blocks bl prev v then_check check_side_blocks node blocks bl prev vs

-- A panic of the 128-bit arithmetic is a panic.
unfoldable pub expect_cumulative : Uint128 → Option Uint128 → Verdict
expect_cumulative given none = panic
expect_cumulative given (some expected) =
    refuse_if (not (Uint128.equals given expected)) bad_cumulative_diff

unfoldable pub check_cumulative_diff : (bl prev : Block) → Verdict
check_cumulative_diff bl prev =
    expect_cumulative bl.cumulative_diff
      (and_then (contribution bl) (Uint128.add prev.cumulative_diff))

unfoldable pub expect_signature : Node → Block → Option Delegate → Verdict
expect_signature node bl none = err unknown_delegate
expect_signature node bl (some d) =
    refuse_if (not (node.verify_signature d.owner (block_staked_hash bl) bl.stake_signature))
      bad_stake_signature

-- A blank signature is not looked at.
unfoldable pub check_signature : Node → Ledger → Block → Verdict
check_signature node s bl =
    if is_unsigned bl
    then ok tt
    else refuse_if (s.stats.staked_amount == 0) nothing_at_stake
      then_check expect_signature node bl (lookup bl.delegate_id s.delegates)

-- The delegate is the one that the block three before has named.
unfoldable pub expect_delegate : Block → Option Block → Verdict
expect_delegate bl none = err unknown_block
expect_delegate bl (some old) =
    refuse_if (not (old.next_delegate_id == bl.delegate_id)) bad_delegate

abbrev pub is_staked : Block → Bool
is_staked bl = ltb 0 bl.version && ltb minidag_ancestors bl.height

unfoldable pub check_stake : Node → Ledger → Block → Verdict
check_stake node s bl =
    if is_staked bl
    then expect_delegate bl (lookup (block_staked_hash bl) s.blocks)
      then_check check_signature node s bl
    else ok tt

unfoldable pub check_block : Node → Ledger → (bl prev : Block) → Verdict
check_block node s bl prev =
    check_difficulty s.blocks bl prev
    then_check (refuse_if (not (bl.height == add64 prev.height 1)) bad_height
        then_check (refuse_if (ltb bl.timestamp prev.timestamp) bad_timestamp
            then_check (check_side_blocks node s.blocks bl prev bl.side_blocks
                then_check (check_cumulative_diff bl prev then_check check_stake node s bl))))
