-- ===== src/Uint128/Product.antt =====
-- Multiplication against the natural numbers.
use virel_blockchain.Base.{ℕ, ◌+◌, ◌-◌, ◌*◌, ◌/◌, ◌%◌, ◌^◌, ◌≤◌, ◌<◌, ◌≡◌, none, some, arith, IsU64}
use virel_blockchain.Uint128.{Uint128, IsWord, value, of_value, checked, mul, mul_64}

-- Multiplication of a 128-bit value by a word is exact, and panics exactly when the product does not fit.
pub mul_64-checked : (u : Uint128) (v : ℕ) → IsWord u → IsU64 v → mul_64 u v ≡ checked (value u * v)
unfolding mul_64
mul_64-checked u v hu hv = ground arith

cross_zero : (a b : ℕ) → a * b ≡ 0 → 1 ≤ a → b ≡ 0
cross_zero a b e h = grind arith

pos_product : (a b : ℕ) → 1 ≤ a → 1 ≤ b → 1 ≤ a * b
pos_product a b h k = grind arith

-- Multiplication of two 128-bit values is exact, and does not panic, wherever the product fits 128 bits.
pub mul_exact :
    (u v : Uint128)
    → IsWord u
    → IsWord v
    → value u * value v < 2 ^ 128
    → mul u v ≡ some (of_value (value u * value v))
unfolding mul
mul_exact u v hu hv fits = ground (arith, pos_product u.hi v.hi)

-- A panic of `mul` always means that the product does not fit.
pub mul_panics :
    (u v : Uint128) → IsWord u → IsWord v → mul u v ≡ none → 2 ^ 128 ≤ value u * value v
unfolding mul
mul_panics u v hu hv e = ground (arith, pos_product u.hi v.hi)

-- The carry of the first addition is added to the second instead of being tested. Where the second
-- factor is a word, the product of the first factor's high word with it is a word too, adding the high
-- half of the product of the low words to that carries, and the carry can be added without another, the
-- product does not fit and `mul` still returns a value: the product less 2 ^ 128 for what is lost, and
-- with 2 ^ 64 more for the carry.
pub mul_misses_overflow :
    (u v : Uint128)
    → IsWord u
    → IsWord v
    → v.hi ≡ 0
    → u.hi * v.lo < 2 ^ 64
    → 2 ^ 64 ≤ u.lo * v.lo / 2 ^ 64 + u.hi * v.lo
    → u.lo * v.lo / 2 ^ 64 + u.hi * v.lo < 2 ^ 65 - 1
    → (2 ^ 128 ≤ value u * value v)
      × ((w : Uint128) × (mul u v ≡ some w) × (value w + 2 ^ 128 ≡ value u * value v + 2 ^ 64))
unfolding mul
mul_misses_overflow u v hu hv z small carry room = (
  rw z (ground arith),
  (
    record { lo = u.lo * v.lo % 2 ^ 64; hi = u.lo * v.lo / 2 ^ 64 + u.hi * v.lo - 2 ^ 64 + 1 },
    rw z (ground arith),
    rw z (ground arith),
  ),
)
