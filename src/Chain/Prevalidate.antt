-- ===== src/Chain/Prevalidate.antt =====
-- PrevalidateBlock of blockchain/bc-block.go: the rules for a block that need no other block. The hash
-- functions and the clock, in milliseconds, are parameters, and so is the file of checkpoints.
use virel_blockchain.Base.{
  ℕ, suc, ◌*◌, Bool, true, false, not, ◌&&◌, ◌||◌, ◌==◌, ltb, leb, if◌then◌else◌, Option, none,
  some, List, [], ◌∷◌, Result, ok, err, panic, add64,
}
use virel_blockchain.Base.Bytes.{of_be_bytes}
use virel_blockchain.Config.{min_difficulty, network_id, hardfork_v3_height}
use virel_blockchain.Uint128
use virel_blockchain.Uint128.{Uint128, Comparison, less, same, greater}
use virel_blockchain.Transaction.{Transaction}
use virel_blockchain.Transaction.Validity.{Invalid, prevalidate}
use virel_blockchain.Block.{HashingId, Ancestors, Commitment, Block}
use virel_blockchain.Block.Work.{commitment, valid_pow_hash_32}
use virel_blockchain.Block.Mining.{
  MiningBlob, mining_blob, serialize_mining_blob, get_seed, get_seedhash_id,
}
use virel_blockchain.Checkpoints.{is_secured, is_checkpoint, get_checkpoint}
use virel_blockchain.Chain.Check.{◌then_check◌, refuse_if}

pub record Outside : Type 0 where
  pub digest : List ℕ → ℕ
  pub pow_hash : (seed : ℕ) → List ℕ → List ℕ
  pub base_hash : Block → ℕ
  pub block_hash : Block → ℕ
  pub from_pub_key : ℕ → ℕ
  pub verify_signature : Transaction → Bool
  pub checkpoints : List ℕ
  pub now : ℕ

pub data BadBlock : Type 0 where
  bad_version no_difficulty low_difficulty in_future : BadBlock
  own_network duplicate_chain bad_transaction : BadBlock
  side_block_of_same_height duplicate_side_block : BadBlock
  no_proof_of_work other_seed no_side_proof_of_work : BadBlock
  not_the_checkpoint : BadBlock

abbrev pub Check : Type 0
Check = Result BadBlock (Unit {0})

-- FUTURE_TIME_LIMIT is ten seconds.
abbrev pub future_time_limit : ℕ
future_time_limit = 10

abbrev is_below : Comparison → Bool
is_below less = true
is_below same = false
is_below greater = false

-- The inner loop: `i` is the position of `v`, and `j` that of the chain it is compared with.
unfoldable pub check_other_pairs : (i j : ℕ) → HashingId → List HashingId → Check
check_other_pairs i j v [] = ok tt
check_other_pairs i j v (w ∷ ws) =
    refuse_if (not (i == j) && (v.hash == w.hash || v.network_id == w.network_id)) duplicate_chain
    then_check check_other_pairs i (suc j) v ws

unfoldable pub check_other_chains : (all : List HashingId) → (i : ℕ) → List HashingId → Check
check_other_chains all i [] = ok tt
check_other_chains all i (v ∷ vs) =
    refuse_if (v.network_id == network_id) own_network
    then_check (check_other_pairs i 0 v all then_check check_other_chains all (suc i) vs)

abbrev as_bad_transaction : Result Invalid (Unit {0}) → Check
as_bad_transaction (ok tt) = ok tt
as_bad_transaction (err e) = err bad_transaction
as_bad_transaction panic = panic

unfoldable pub check_transactions : Outside → (height : ℕ) → List Transaction → Check
check_transactions out height [] = ok tt
check_transactions out height (tx ∷ txs) =
    as_bad_transaction (prevalidate out.from_pub_key out.verify_signature height tx)
    then_check check_transactions out height txs

abbrev same_ancestors : Ancestors → Ancestors → Bool
same_ancestors a b = a.first == b.first && (a.second == b.second && a.third == b.third)

-- The timestamp is not compared here.
abbrev same_side : Commitment → Commitment → Bool
same_side v w = v.base_hash == w.base_hash && (v.nonce == w.nonce && v.nonce_extra == w.nonce_extra)

unfoldable pub check_side_pairs : (i j : ℕ) → Commitment → List Commitment → Check
check_side_pairs i j v [] = ok tt
check_side_pairs i j v (w ∷ ws) =
    refuse_if (same_side v w && not (i == j)) duplicate_side_block
    then_check check_side_pairs i (suc j) v ws

unfoldable pub check_sides : Block → (i : ℕ) → List Commitment → Check
check_sides b i [] = ok tt
check_sides b i (v ∷ vs) =
    refuse_if (same_ancestors v.ancestors b.ancestors) side_block_of_same_height
    then_check (check_side_pairs i 0 v b.side_blocks then_check check_sides b (suc i) vs)

-- A panic of the 128-bit arithmetic is a panic.
abbrev require_pow : Option Bool → BadBlock → Check
require_pow none e = panic
require_pow (some valid) e = refuse_if (not valid) e

abbrev side_target : Block → Option Uint128
side_target b = elim (Uint128.mul_64 b.difficulty 2) [ none ↦ none | some d ↦ Uint128.div_64 d 3 ]

abbrev check_pow_value :
    Outside → (seed : ℕ) → Option MiningBlob → Option Uint128 → BadBlock → Check
check_pow_value out seed none diff e = panic
check_pow_value out seed (some m) none e = panic
check_pow_value out seed (some m) (some diff) e =
    require_pow (valid_pow_hash_32 (out.pow_hash seed (serialize_mining_blob m)) diff) e

-- A side block has the same seed and at least two thirds of the difficulty.
unfoldable pub check_side_pow : Outside → Block → (seed : ℕ) → List Commitment → Check
check_side_pow out b seed [] = ok tt
check_side_pow out b seed (v ∷ vs) =
    refuse_if (not (get_seedhash_id v.timestamp == get_seedhash_id b.timestamp)) other_seed
    then_check (check_pow_value out seed (mining_blob out.digest v) (side_target b)
          no_side_proof_of_work
        then_check check_side_pow out b seed vs)

abbrev check_pow_of : Outside → Block → Option MiningBlob → Check
check_pow_of out b none = panic
check_pow_of out b (some m) =
    check_pow_value out (get_seed out.digest m) (some m) (some b.difficulty) no_proof_of_work
    then_check check_side_pow out b (get_seed out.digest m) b.side_blocks

unfoldable pub check_pow : Outside → Block → Check
check_pow out b = check_pow_of out b (mining_blob out.digest (commitment out.base_hash b))

-- Below the last checkpoint there is no proof of work to check, but at each checkpoint the hash.
abbrev check_hash : Outside → Block → Option (List ℕ) → Check
check_hash out b none = panic
check_hash out b (some expected) =
    refuse_if (not (out.block_hash b == of_be_bytes expected)) not_the_checkpoint

unfoldable pub check_checkpoint : Outside → Block → Check
check_checkpoint out b =
    if is_checkpoint out.checkpoints b.height
    then check_hash out b (get_checkpoint out.checkpoints b.height)
    else ok tt

abbrev pub expected_version : (height : ℕ) → ℕ
expected_version height = if leb hardfork_v3_height height then 1 else 0

unfoldable pub prevalidate_block : Outside → Block → List Transaction → Check
prevalidate_block out b txs =
    refuse_if (not (b.version == expected_version b.height)) bad_version
    then_check (refuse_if (Uint128.is_zero b.difficulty) no_difficulty
        then_check (refuse_if (is_below (Uint128.cmp_64 b.difficulty min_difficulty)) low_difficulty
            then_check (refuse_if (ltb (add64 out.now (future_time_limit * 1000)) b.timestamp)
                  in_future
                then_check (check_other_chains b.other_chains 0 b.other_chains
                    then_check (check_transactions out b.height txs
                        then_check ((if b.height == 440
                              then ok tt
                              else check_sides b 0 b.side_blocks)
                            then_check (if is_secured out.checkpoints b.height
                                then check_checkpoint out b
                                else check_pow out b)))))))
