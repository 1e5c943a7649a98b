-- ===== src/Chain/Accepted.antt =====
-- What a block that passes checkBlock of blockchain/blockchain.go is.
use virel_blockchain.Base.{
  ◌≤◌, ◌≡◌, ◌≢◌, ◌⊎◌, refl, Bool, true, false, not, ◌==◌, ltb, Option, none, some, List, [], ◌∷◌,
  All, Result, ok, err, panic, arith, add64, Bool-cases, inl, inr,
}
use virel_blockchain.Base.Dict.{Dict, lookup}
use virel_blockchain.Uint128
use virel_blockchain.Uint128.{Uint128, IsWord, value, checked, of_value}
use virel_blockchain.Difficulty.{get_next_difficulty}
use virel_blockchain.Chaintype.{Delegate}
use virel_blockchain.Block.{Commitment, Block, block_staked_hash, is_unsigned}
use virel_blockchain.Block.Work.{and_then, contribution, commitment, commitment_equals}
use virel_blockchain.Ledger.{
  Ledger, Error, nothing_at_stake, side_block_included, bad_height, bad_timestamp,
}
use virel_blockchain.Chain.{Node}
use virel_blockchain.Chain.Check.{
  Verdict, ◌then_check◌, refuse_if, expect_difficulty, expect_cumulative, expect_signature,
  expect_delegate, is_staked, check_difficulty, check_new, check_side_block, check_side_blocks,
  check_cumulative_diff, check_signature, check_stake, check_block, check_ancestors,
}

then_check-both : (a b : Verdict) → (a then_check b) ≡ ok tt → (a ≡ ok tt) × (b ≡ ok tt)
then_check-both (ok tt) b e = (refl, e)
then_check-both (err x) b e = absurd (cc e)
then_check-both panic b e = absurd (cc e)

refuse_if-passes : (c : Bool) (x : Error) → refuse_if c x ≡ ok tt → c ≡ false
refuse_if-passes true x e = absurd (cc e)
refuse_if-passes false x e = refl

equals→eq : (u v : Uint128) → not (Uint128.equals u v) ≡ false → u ≡ v
unfolding Uint128.equals
equals→eq u v e = ground arith

expect_difficulty-passes :
    (given : Uint128) (r : Result (Unit {0}) Uint128)
    → expect_difficulty given r ≡ ok tt
    → r ≡ ok given
unfolding expect_difficulty
expect_difficulty-passes given (err x) e = absurd (cc e)
expect_difficulty-passes given panic e = absurd (cc e)
expect_difficulty-passes given (ok d) e = cc (equals→eq given d (refuse_if-passes _ _ e))

expect_cumulative-passes :
    (given : Uint128) (o : Option Uint128) → expect_cumulative given o ≡ ok tt → o ≡ some given
unfolding expect_cumulative
expect_cumulative-passes given none e = absurd (cc e)
expect_cumulative-passes given (some d) e = cc (equals→eq given d (refuse_if-passes _ _ e))

-- The signature is by the owner of the block's delegate, and coins are staked.
pub record IsSigned (node : Node) (s : Ledger) (bl : Block) : Type 0 where
  pub at_stake : s.stats.staked_amount ≢ 0
  pub delegate : Delegate
  pub stored : lookup bl.delegate_id s.delegates ≡ some delegate
  pub verified :
      node.verify_signature delegate.owner (block_staked_hash bl) bl.stake_signature ≡ true

expect_signature-passes :
    (node : Node) (s : Ledger) (bl : Block) (o : Option Delegate)
    → lookup bl.delegate_id s.delegates ≡ o
    → s.stats.staked_amount ≢ 0
    → expect_signature node bl o ≡ ok tt
    → IsSigned node s bl
unfolding expect_signature
expect_signature-passes node s bl none found at_stake e = absurd (cc e)
expect_signature-passes node s bl (some d) found at_stake e =
    let passed = refuse_if-passes _ _ e in
    record { at_stake = at_stake; delegate = d; stored = found; verified = ground (arith, passed) }

check_signature-passes :
    (node : Node) (s : Ledger) (bl : Block)
    → is_unsigned bl ≡ false
    → check_signature node s bl ≡ ok tt
    → IsSigned node s bl
unfolding check_signature
check_signature-passes node s bl signed e =
    let both =
      then_check-both (refuse_if (s.stats.staked_amount == 0) nothing_at_stake)
        (expect_signature node bl (lookup bl.delegate_id s.delegates)) (rw signed at e) in
    expect_signature-passes node s bl _ refl
      (λ zero_stake. ground (arith, refuse_if-passes _ _ both.0, zero_stake)) both.1

expect_delegate-passes :
    (bl : Block) (o : Option Block)
    → expect_delegate bl o ≡ ok tt
    → (old : Block) × (o ≡ some old) × (old.next_delegate_id ≡ bl.delegate_id)
unfolding expect_delegate
expect_delegate-passes bl none e = absurd (cc e)
expect_delegate-passes bl (some old) e =
    let passed = refuse_if-passes _ _ e in (old, refl, ground (arith, passed))

-- What the block's stake is checked for, where it is.
pub record IsStaked (node : Node) (s : Ledger) (bl : Block) : Type 0 where
  pub old : Block
  pub three_before : lookup (block_staked_hash bl) s.blocks ≡ some old
  pub named : old.next_delegate_id ≡ bl.delegate_id
  pub signed : (is_unsigned bl ≡ true) ⊎ IsSigned node s bl

check_stake-passes :
    (node : Node) (s : Ledger) (bl : Block)
    → is_staked bl ≡ true
    → check_stake node s bl ≡ ok tt
    → IsStaked node s bl
unfolding check_stake
check_stake-passes node s bl at e =
    let both =
      then_check-both (expect_delegate bl (lookup (block_staked_hash bl) s.blocks))
        (check_signature node s bl) (rw at at e) in
    let found = expect_delegate-passes bl _ both.0 in
    record {
      old = found.0;
      three_before = found.1;
      named = found.2;
      signed = elim (Bool-cases (is_unsigned bl)) [
        | inl unsigned ↦ inl unsigned
        | inr signed ↦ inr (check_signature-passes node s bl signed both.1)
      ];
    }

-- A side block is neither the block before nor one of its side blocks.
abbrev pub IsNewSide : Node → Block → Commitment → Type 0
IsNewSide node prev side =
    (commitment_equals side (commitment node.base_hash prev) ≡ false)
    × All (λ (v : Commitment). commitment_equals side v ≡ false) prev.side_blocks

check_new-passes :
    (side : Commitment) (vs : List Commitment)
    → check_new side vs ≡ ok tt
    → All (λ (v : Commitment). commitment_equals side v ≡ false) vs
unfolding check_new
check_new-passes side [] e = tt
check_new-passes side (v ∷ vs) e =
    let both = then_check-both (refuse_if (commitment_equals side v) side_block_included) _ e in
    (refuse_if-passes _ _ both.0, check_new-passes side vs both.1)

check_side_block-passes :
    (node : Node) (blocks : Dict Block) (bl prev : Block) (side : Commitment)
    → check_side_block node blocks bl prev side ≡ ok tt
    → IsNewSide node prev side
unfolding check_side_block
check_side_block-passes node blocks bl prev side e =
    let rest = (then_check-both (check_ancestors _ 0 _) _ e).1 in
    let both =
      then_check-both
        (refuse_if (commitment_equals side (commitment node.base_hash prev)) side_block_included) _
        rest in
    let sides = then_check-both (check_new side prev.side_blocks) _ both.1 in
    (refuse_if-passes _ _ both.0, check_new-passes side prev.side_blocks sides.0)

check_side_blocks-passes :
    (node : Node) (blocks : Dict Block) (bl prev : Block) (sides : List Commitment)
    → check_side_blocks node blocks bl prev sides ≡ ok tt
    → All (IsNewSide node prev) sides
unfolding check_side_blocks
check_side_blocks-passes node blocks bl prev [] e = tt
check_side_blocks-passes node blocks bl prev (v ∷ vs) e =
    let both = then_check-both (check_side_block node blocks bl prev v) _ e in
    (
      check_side_block-passes node blocks bl prev v both.0,
      check_side_blocks-passes node blocks bl prev vs both.1,
    )

pub record IsAccepted (node : Node) (s : Ledger) (bl prev : Block) : Type 0 where
  pub difficulty : get_next_difficulty s.blocks prev ≡ ok bl.difficulty
  pub height : bl.height ≡ add64 prev.height 1
  pub timestamp : prev.timestamp ≤ bl.timestamp
  pub new_sides : All (IsNewSide node prev) bl.side_blocks
  pub cumulative :
      and_then (contribution bl) (Uint128.add prev.cumulative_diff) ≡ some bl.cumulative_diff
  pub stake : (is_staked bl ≡ false) ⊎ IsStaked node s bl

pub check_block-IsAccepted :
    (node : Node) (s : Ledger) (bl prev : Block)
    → check_block node s bl prev ≡ ok tt
    → IsAccepted node s bl prev
unfolding check_block check_difficulty check_cumulative_diff
check_block-IsAccepted node s bl prev e =
    let a =
      then_check-both (expect_difficulty bl.difficulty (get_next_difficulty s.blocks prev)) _ e in
    let b = then_check-both (refuse_if (not (bl.height == add64 prev.height 1)) bad_height) _ a.1 in
    let c = then_check-both (refuse_if (ltb bl.timestamp prev.timestamp) bad_timestamp) _ b.1 in
    let d = then_check-both (check_side_blocks node s.blocks bl prev bl.side_blocks) _ c.1 in
    let f = then_check-both (expect_cumulative bl.cumulative_diff _) _ d.1 in
    let high = refuse_if-passes (not (bl.height == add64 prev.height 1)) bad_height b.0 in
    let late = refuse_if-passes (ltb bl.timestamp prev.timestamp) bad_timestamp c.0 in
    record {
      difficulty = expect_difficulty-passes bl.difficulty _ a.0;
      height = ground (arith, high);
      timestamp = ground (arith, late);
      new_sides = check_side_blocks-passes node s.blocks bl prev bl.side_blocks d.0;
      cumulative = expect_cumulative-passes bl.cumulative_diff _ f.0;
      stake = elim (Bool-cases (is_staked bl)) [
        | inl at ↦ inr (check_stake-passes node s bl at f.1)
        | inr exempt ↦ inl exempt
      ];
    }
