-- ===== src/Uint128.antt =====
-- The type and the arithmetic of util/uint128/uint128.go. A run-time panic is `none`; `bits.Add64`,
-- `bits.Sub64`, `bits.Mul64` and `bits.Div64` are those of Go's math/bits.
pub mod Arith
pub mod Product
pub mod Division
use virel_blockchain.Base.{
  ℕ, zero, suc, ◌+◌, ◌-◌, ◌*◌, ◌/◌, ◌%◌, ◌^◌, ◌<◌, Bool, true, false, not, ◌&&◌, ◌||◌, Option, none,
  some, ltb, leb, ◌==◌, if◌then◌else◌, add64, sub64, mul64, IsU64, List, ◌++◌, take, drop,
}
use virel_blockchain.Base.Bytes.{le_bytes, of_le_bytes}

pub record Uint128 : Type 0 where
  pub lo : ℕ
  pub hi : ℕ

-- Both halves are 64-bit words.
pub record IsWord (u : Uint128) : Type 0 where
  pub lo_word : IsU64 u.lo
  pub hi_word : IsU64 u.hi

-- The number that a value stands for, and the value of a number below 2 ^ 128.
abbrev pub value : Uint128 → ℕ
value u = u.hi * 2 ^ 64 + u.lo

abbrev pub of_value : ℕ → Uint128
of_value n = record { lo = n % 2 ^ 64; hi = n / 2 ^ 64 }

-- `Some n`, if `n` fits 128 bits; what an exact operation that panics on overflow returns.
abbrev pub checked : ℕ → Option Uint128
checked n = if ltb n (2 ^ 128) then some (of_value n) else none

-- math/bits: the result and the carry or borrow.
abbrev bits_add : ℕ → ℕ → ℕ → ℕ × ℕ
bits_add x y carry = ((x + y + carry) % 2 ^ 64, (x + y + carry) / 2 ^ 64)

abbrev bits_sub : ℕ → ℕ → ℕ → ℕ × ℕ
bits_sub x y borrow = ((x + 2 ^ 65 - y - borrow) % 2 ^ 64, if ltb x (y + borrow) then 1 else 0)

-- math/bits: high and low word of the product; quotient and remainder of `hi * 2 ^ 64 + lo`, with a
-- panic if `y` is zero or the quotient overflows.
abbrev bits_mul : ℕ → ℕ → ℕ × ℕ
bits_mul x y = (x * y / 2 ^ 64, x * y % 2 ^ 64)

abbrev bits_div : ℕ → ℕ → ℕ → Option (ℕ × ℕ)
bits_div hi lo y =
    if y == 0 || leb y hi then none else some ((hi * 2 ^ 64 + lo) / y, (hi * 2 ^ 64 + lo) % y)

abbrev pub from_64 : ℕ → Uint128
from_64 v = record { lo = v; hi = 0 }

abbrev pub max_value : Uint128
max_value = record { lo = 2 ^ 64 - 1; hi = 2 ^ 64 - 1 }

unfoldable pub is_zero : Uint128 → Bool
is_zero u = u.lo == 0 && u.hi == 0

unfoldable pub equals : Uint128 → Uint128 → Bool
equals u v = u.lo == v.lo && u.hi == v.hi

-- The results -1, 0 and 1 of `Cmp`.
pub data Comparison : Type 0 where
  less same greater : Comparison

unfoldable pub cmp : Uint128 → Uint128 → Comparison
cmp u v =
    if u.lo == v.lo && u.hi == v.hi
    then same
    else if ltb u.hi v.hi || (u.hi == v.hi && ltb u.lo v.lo)
    then less
    else greater

unfoldable pub cmp_64 : Uint128 → ℕ → Comparison
cmp_64 u v =
    if u.hi == 0 && u.lo == v then same else if u.hi == 0 && ltb u.lo v then less else greater

unfoldable pub add : Uint128 → Uint128 → Option Uint128
add u v =
    let (l, c) = bits_add u.lo v.lo 0 in
    let (h, carry) = bits_add u.hi v.hi c in
    if not (carry == 0) then none else some (record { lo = l; hi = h })

pub add_wrap : Uint128 → Uint128 → Uint128
add_wrap u v =
    let (l, c) = bits_add u.lo v.lo 0 in
    let (h, _) = bits_add u.hi v.hi c in record { lo = l; hi = h }

pub add_64 : Uint128 → ℕ → Option Uint128
add_64 u v =
    let (l, c) = bits_add u.lo v 0 in
    let (h, carry) = bits_add u.hi 0 c in
    if not (carry == 0) then none else some (record { lo = l; hi = h })

pub sub : Uint128 → Uint128 → Option Uint128
sub u v =
    let (l, b) = bits_sub u.lo v.lo 0 in
    let (h, borrow) = bits_sub u.hi v.hi b in
    if not (borrow == 0) then none else some (record { lo = l; hi = h })

pub sub_wrap : Uint128 → Uint128 → Uint128
sub_wrap u v =
    let (l, b) = bits_sub u.lo v.lo 0 in
    let (h, _) = bits_sub u.hi v.hi b in record { lo = l; hi = h }

pub sub_64 : Uint128 → ℕ → Option Uint128
sub_64 u v =
    let (l, b) = bits_sub u.lo v 0 in
    let (h, borrow) = bits_sub u.hi 0 b in
    if not (borrow == 0) then none else some (record { lo = l; hi = h })

pub mul : Uint128 → Uint128 → Option Uint128
mul u v =
    let (h0, l) = bits_mul u.lo v.lo in
    let (p0, p1) = bits_mul u.hi v.lo in
    let (p2, p3) = bits_mul u.lo v.hi in
    let (h1, c0) = bits_add h0 p1 0 in
    let (h2, c1) = bits_add h1 p3 c0 in
    if (not (u.hi == 0) && not (v.hi == 0)) || not (p0 == 0) || not (p2 == 0) || not (c1 == 0)
    then none
    else some (record { lo = l; hi = h2 })

pub mul_wrap : Uint128 → Uint128 → Uint128
mul_wrap u v =
    let (h, l) = bits_mul u.lo v.lo in
    record { lo = l; hi = add64 h (add64 (mul64 u.hi v.lo) (mul64 u.lo v.hi)) }

unfoldable pub mul_64 : Uint128 → ℕ → Option Uint128
mul_64 u v =
    let (h0, l) = bits_mul u.lo v in
    let (p0, p1) = bits_mul u.hi v in
    let (h1, c0) = bits_add h0 p1 0 in
    if not (p0 == 0) || not (c0 == 0) then none else some (record { lo = l; hi = h1 })

-- The second division of the branch `u.Hi >= v`, on the remainder `r` of the first.
unfoldable pub low_quotient : ℕ → ℕ → ℕ → ℕ → Option (Uint128 × ℕ)
low_quotient qhi r l v = elim (bits_div r l v) [
  | none ↦ none
  | some (q, r') ↦ some (record { lo = q; hi = qhi }, r')
]

unfoldable pub quo_rem_64 : Uint128 → ℕ → Option (Uint128 × ℕ)
unfolding low_quotient
quo_rem_64 u v =
    if ltb u.hi v
    then low_quotient 0 u.hi u.lo v
    else elim (bits_div 0 u.hi v) [ none ↦ none | some (q, r) ↦ low_quotient q r u.lo v ]

unfoldable pub div_64 : Uint128 → ℕ → Option Uint128
div_64 u v = elim (quo_rem_64 u v) [ none ↦ none | some (q, r) ↦ some q ]

pub mod_64 : Uint128 → ℕ → Option ℕ
mod_64 u v = elim (quo_rem_64 u v) [ none ↦ none | some (q, r) ↦ some r ]

-- math/bits: the number of binary digits, and of zeros before them in a word.
bit_length : (digits : ℕ) → ℕ → ℕ
bit_length zero x = 0
bit_length (suc k) x = let rest = bit_length k (x / 2) in if x == 0 then 0 else suc rest

leading_zeros_64 : ℕ → ℕ
unfolding bit_length
leading_zeros_64 x = 64 - bit_length 64 x

-- The bits that `|` joins are apart, so it is a sum.
pub lsh : Uint128 → ℕ → Uint128
lsh u n =
    if ltb 64 n
    then record { lo = 0; hi = u.lo * 2 ^ (n - 64) % 2 ^ 64 }
    else record { lo = u.lo * 2 ^ n % 2 ^ 64; hi = u.hi * 2 ^ n % 2 ^ 64 + u.lo / 2 ^ (64 - n) }

pub rsh : Uint128 → ℕ → Uint128
rsh u n =
    if ltb 64 n
    then record { lo = u.hi / 2 ^ (n - 64); hi = 0 }
    else record { lo = u.lo / 2 ^ n + u.hi * 2 ^ (64 - n) % 2 ^ 64; hi = u.hi / 2 ^ n }

abbrev is_less : Comparison → Bool
is_less less = true
is_less same = false
is_less greater = false

-- The trial quotient may be one too small.
adjust : (tq : ℕ) → (v r : Uint128) → Option (Uint128 × Uint128)
adjust tq v r = if is_less (cmp r v) then some (from_64 tq, r) else elim (sub r v) [
  | none ↦ none
  | some r' ↦ elim (add_64 (from_64 tq) 1) [ none ↦ none | some q ↦ some (q, r') ]
]

trial : ℕ → (u v : Uint128) → Option (Uint128 × Uint128)
unfolding adjust sub mul_64
trial tq u v = elim (mul_64 v tq) [
  | none ↦ none
  | some m ↦ elim (sub u m) [ none ↦ none | some r ↦ adjust tq v r ]
]

abbrev minus_one : ℕ → ℕ
minus_one tq = if tq == 0 then 0 else tq - 1

unfoldable pub quo_rem : Uint128 → Uint128 → Option (Uint128 × Uint128)
unfolding trial leading_zeros_64 lsh rsh
quo_rem u v =
    if v.hi == 0
    then elim (quo_rem_64 u v.lo) [ none ↦ none | some (q, r) ↦ some (q, from_64 r) ]
    else (let n = leading_zeros_64 v.hi in
        let u1 = rsh u 1 in
        elim (bits_div u1.hi u1.lo (lsh v n).hi) [
          | none ↦ none
          | some (tq, _) ↦ trial (minus_one (tq / 2 ^ (63 - n))) u v
        ])

unfoldable pub div : Uint128 → Uint128 → Option Uint128
div u v = elim (quo_rem u v) [ none ↦ none | some (q, r) ↦ some q ]

-- FromBytes and PutBytes: sixteen bytes, least significant first.
unfoldable pub from_bytes : List ℕ → Uint128
from_bytes b = record { lo = of_le_bytes (take 8 b); hi = of_le_bytes (take 8 (drop 8 b)) }

unfoldable pub put_bytes : Uint128 → List ℕ
put_bytes u = le_bytes 8 u.lo ++ le_bytes 8 u.hi
