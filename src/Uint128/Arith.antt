-- ===== src/Uint128/Arith.antt =====
-- Comparison, addition and subtraction against the natural numbers.
use virel_blockchain.Base.{ℕ, ◌+◌, ◌-◌, ◌≡◌, none, some, arith, ltb, ◌==◌, if◌then◌else◌, IsU64}
use virel_blockchain.Uint128.{
  Uint128, IsWord, value, of_value, checked, Comparison, less, same, greater, cmp, cmp_64, add,
  add_wrap, add_64, sub, sub_wrap,
}

-- How two numbers compare.
abbrev pub compare_values : ℕ → ℕ → Comparison
compare_values m n = if ltb m n then less else if m == n then same else greater

-- Cmp orders 128-bit values as the numbers that they stand for.
pub cmp-compare_values :
    (u v : Uint128) → IsWord u → IsWord v → cmp u v ≡ compare_values (value u) (value v)
unfolding cmp
cmp-compare_values u v hu hv = ground arith

-- `cmp_64` does so with a word on the right.
pub cmp_64-compare_values :
    (u : Uint128) (v : ℕ) → IsWord u → IsU64 v → cmp_64 u v ≡ compare_values (value u) v
unfolding cmp_64
cmp_64-compare_values u v hu hv = ground arith

-- Addition of 128-bit values is exact, and panics exactly when the sum does not fit.
pub add-checked : (u v : Uint128) → IsWord u → IsWord v → add u v ≡ checked (value u + value v)
unfolding add
add-checked u v hu hv = ground arith

pub add_64-checked : (u : Uint128) (v : ℕ) → IsWord u → IsU64 v → add_64 u v ≡ checked (value u + v)
unfolding add_64
add_64-checked u v hu hv = ground arith

-- Subtraction of 128-bit values is exact, and panics exactly when the difference is negative.
pub sub-exact :
    (u v : Uint128)
    → IsWord u
    → IsWord v
    → sub u v ≡ (if ltb (value u) (value v) then none else some (of_value (value u - value v)))
unfolding sub
sub-exact u v hu hv = ground arith

-- On 128-bit values, wrapping subtraction undoes wrapping addition.
pub sub_wrap-add_wrap : (u v : Uint128) → IsWord u → IsWord v → sub_wrap (add_wrap u v) v ≡ u
unfolding sub_wrap add_wrap
sub_wrap-add_wrap u v hu hv = ground arith
