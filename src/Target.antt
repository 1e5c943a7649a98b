-- ===== src/Target.antt =====
-- Targets and difficulties: GetTarget, GetTargetBytes, ByteTargetToDiff, TargetToDiff64 and TargetToDiff
-- of util/util.go. A panic is `none`: a division by zero, or a target of another size.
use virel_blockchain.Base.{
  ℕ, ◌-◌, ◌/◌, ◌^◌, ◌<◌, ◌≡◌, ◌==◌, ◌&&◌, if◌then◌else◌, Option, none, some, List, length, arith,
  IsU64,
}
use virel_blockchain.Base.Bytes.{le_bytes, of_le_bytes}
use virel_blockchain.Uint128
use virel_blockchain.Uint128.{Uint128, from_64, from_bytes, div, IsWord, of_value}
use virel_blockchain.Uint128.Division.{div_64-exact}

abbrev max_uint64 : ℕ
max_uint64 = 2 ^ 64 - 1

-- Only the low word counts.
unfoldable get_target : Uint128 → Option ℕ
get_target n = if n.lo == 0 then none else some (max_uint64 / n.lo)

unfoldable get_target_bytes : Uint128 → Option (List ℕ)
get_target_bytes n = elim (get_target n) [ none ↦ none | some target ↦ some (le_bytes 8 target) ]

unfoldable target_to_diff_64 : ℕ → Option Uint128
target_to_diff_64 t = if t == 0 then some (from_64 1) else Uint128.div_64 (from_64 max_uint64) t

unfoldable target_to_diff : Uint128 → Option Uint128
target_to_diff t =
    if t.lo == 0 && t.hi == 0
    then some (from_64 1)
    else div (record { lo = max_uint64; hi = max_uint64 }) t

unfoldable byte_target_to_diff : List ℕ → Option Uint128
byte_target_to_diff t =
    if length t == 16
    then target_to_diff (from_bytes t)
    else if length t == 8
    then target_to_diff_64 (of_le_bytes t)
    else if length t == 4
    then target_to_diff_64 (of_le_bytes t)
    else none

-- The difficulty of a target above zero is the largest word divided by it.
target_to_diff_64_exact :
    (t : ℕ) → IsU64 t → 0 < t → target_to_diff_64 t ≡ some (of_value (max_uint64 / t))
unfolding target_to_diff_64
target_to_diff_64_exact t word pos =
    let word_max : IsWord (from_64 max_uint64) = record {
      lo_word = omega arith;
      hi_word = omega arith;
    } in
    ground (arith, div_64-exact (from_64 max_uint64) t word_max word pos)
