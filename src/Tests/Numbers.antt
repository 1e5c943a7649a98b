-- ===== src/Tests/Numbers.antt =====
-- 128-bit numbers and rewards.
use virel_blockchain.Base.{
  ◌+◌, ◌-◌, ◌*◌, ◌/◌, ◌^◌, ◌≡◌, ◌≤◌, refl, none, some, arith, ltb, if◌then◌else◌,
}
use virel_blockchain.Config.{max_supply}
use virel_blockchain.Uint128.{
  Uint128, IsWord, value, of_value, checked, cmp, add, sub, add_wrap, sub_wrap, mul, mul_64,
  quo_rem_64,
}
use virel_blockchain.Uint128.Arith.{
  compare_values, cmp-compare_values, add-checked, sub-exact, sub_wrap-add_wrap,
}
use virel_blockchain.Uint128.Product.{mul_64-checked, mul_exact, mul_misses_overflow}
use virel_blockchain.Uint128.Division.{quo_rem_64-exact}
use virel_blockchain.Emission.{reward, get_supply_at_height}
use virel_blockchain.Emission.Bounds.{reward_falls}
use virel_blockchain.Emission.Supply.{
  total_reward, total_reward-le, get_supply_at_height-total_reward,
}

abbrev small : Uint128
small = record { lo = 5; hi = 3 }

abbrev other : Uint128
other = record { lo = 7; hi = 2 }

abbrev word : Uint128
word = record { lo = 2 ^ 64 - 1; hi = 0 }

abbrev large : Uint128
large = record { lo = 2 ^ 64 - 1; hi = 1 }

abbrev tiny : Uint128
tiny = record { lo = 2 ^ 40; hi = 0 }

tiny-IsWord : IsWord tiny
tiny-IsWord = record { lo_word = omega arith; hi_word = omega arith }

small-IsWord : IsWord small
small-IsWord = record { lo_word = omega arith; hi_word = omega arith }

other-IsWord : IsWord other
other-IsWord = record { lo_word = omega arith; hi_word = omega arith }

word-IsWord : IsWord word
word-IsWord = record { lo_word = omega arith; hi_word = omega arith }

large-IsWord : IsWord large
large-IsWord = record { lo_word = omega arith; hi_word = omega arith }

cmp-compare_values_example : cmp small other ≡ compare_values (value small) (value other)
cmp-compare_values_example = cmp-compare_values small other small-IsWord other-IsWord

add-checked_example : add small large ≡ checked (value small + value large)
add-checked_example = add-checked small large small-IsWord large-IsWord

sub-exact_example : sub small other ≡ (
    if ltb (value small) (value other) then none else some (of_value (value small - value other)))
sub-exact_example = sub-exact small other small-IsWord other-IsWord

sub_wrap-add_wrap_example : sub_wrap (add_wrap small large) large ≡ small
sub_wrap-add_wrap_example = sub_wrap-add_wrap small large small-IsWord large-IsWord

mul_64-checked_example : mul_64 large (2 ^ 63) ≡ checked (value large * 2 ^ 63)
mul_64-checked_example = mul_64-checked large (2 ^ 63) large-IsWord (omega arith)

mul_exact_example : mul small tiny ≡ some (of_value (value small * value tiny))
mul_exact_example = mul_exact small tiny small-IsWord tiny-IsWord (omega arith)

mul_misses_overflow_example :
    (2 ^ 128 ≤ value large * value word)
    × ((w : Uint128) × (mul large word ≡ some w)
        × (value w + 2 ^ 128 ≡ value large * value word + 2 ^ 64))
mul_misses_overflow_example =
    mul_misses_overflow large word large-IsWord word-IsWord refl (omega arith) (omega arith)
      (omega arith)

quo_rem_64-exact_example : quo_rem_64 small 10 ≡ some (of_value (value small / 10), 3)
quo_rem_64-exact_example = quo_rem_64-exact small 10 small-IsWord (omega arith) (omega arith)

get_supply_at_height-total_reward_example : get_supply_at_height 524_159 ≡ total_reward 524_159
get_supply_at_height-total_reward_example = get_supply_at_height-total_reward 524_159 (omega arith)

total_reward-le_example : total_reward 1_000_000 ≤ max_supply
total_reward-le_example = total_reward-le 1_000_000

reward_falls_example : reward (600_000 + 524_160) ≡ reward 600_000 * 9 / 10
reward_falls_example = reward_falls 600_000 (omega arith)
