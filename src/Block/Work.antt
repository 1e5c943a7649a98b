-- ===== src/Block/Work.antt =====
-- The work of a block and the comparison of commitments: ContributionToCumulativeDiff of
-- block/block.go, Commitment and Equals of block/commitment.go, and
-- block/ancestors.go. The hash of a block's other fields, BaseHash, is a parameter.
pub mod Value
use virel_blockchain.Base.{
  ℕ, suc, ◌*◌, Bool, true, false, ◌&&◌, ◌==◌, ltb, drop, if◌then◌else◌, Option, none, some, List,
  [], ◌∷◌, length,
}
use virel_blockchain.Uint128
use virel_blockchain.Uint128.{Uint128, from_bytes, Comparison, less, same, greater}
use virel_blockchain.Block.{Ancestors, Commitment, Block, is_unsigned}

-- Bind on Option; `none` is a panic.
abbrev pub and_then : Option Uint128 → (Uint128 → Option Uint128) → Option Uint128
and_then none f = none
and_then (some a) f = f a

-- From version 1 on, a block without a stake signature counts half.
abbrev pub is_half : Block → Bool
is_half bl = ltb 0 bl.version && is_unsigned bl

unfoldable pub contribution : Block → Option Uint128
contribution bl = and_then (Uint128.mul_64 bl.difficulty (2 * length bl.side_blocks)) (λ doubled.
    and_then (Uint128.div_64 doubled 3) (λ side_diff.
      and_then (Uint128.add bl.difficulty side_diff)
        (λ total. if is_half bl then Uint128.div_64 total 2 else some total)))

abbrev pub commitment : (base_hash : Block → ℕ) → Block → Commitment
commitment base_hash b = record {
  base_hash = base_hash b;
  ancestors = b.ancestors;
  timestamp = b.timestamp;
  nonce = b.nonce;
  nonce_extra = b.nonce_extra;
  other_chains = b.other_chains;
}

abbrev pub commitment_equals : Commitment → Commitment → Bool
commitment_equals a b =
    a.base_hash == b.base_hash
    && (a.timestamp == b.timestamp && (a.nonce == b.nonce && a.nonce_extra == b.nonce_extra))

abbrev pub to_list : Ancestors → List ℕ
to_list a = a.first ∷ a.second ∷ a.third ∷ []

unfoldable pub add_hash : ℕ → Ancestors → Ancestors
add_hash h a = record { first = h; second = a.first; third = a.second }

-- The first position of a hash; `none` stands for -1.
unfoldable pub position_from : (offset hash : ℕ) → List ℕ → Option ℕ
position_from offset hash [] = none
position_from offset hash (v ∷ vs) =
    if hash == v then some offset else position_from (suc offset) hash vs

unfoldable pub find_common_loop : List ℕ → List ℕ → Option ℕ
find_common_loop [] b = none
find_common_loop (v ∷ vs) b = elim (position_from 0 v b) [
  | some offset ↦ some offset
  | none ↦ find_common_loop vs b
]

-- The position in the older list of a hash that both lists have.
unfoldable pub find_common : Ancestors → Ancestors → Option ℕ
find_common a b = find_common_loop (to_list a) (to_list b)

abbrev not_greater : Comparison → Bool
not_greater less = true
not_greater same = true
not_greater greater = false

-- ValidPowValue; `none` is the panic of a division by zero.
unfoldable pub valid_pow_value : (val diff : Uint128) → Option Bool
valid_pow_value val diff = elim (Uint128.div Uint128.max_value diff) [
  | none ↦ none
  | some target ↦ some (not_greater (Uint128.cmp val target))
]

-- HashToVal: the last sixteen of the 32 bytes.
abbrev pub hash_to_val : List ℕ → Uint128
hash_to_val hash = from_bytes (drop 16 hash)

unfoldable pub valid_pow_hash_32 : (hash : List ℕ) → (diff : Uint128) → Option Bool
valid_pow_hash_32 hash diff = valid_pow_value (hash_to_val hash) diff
