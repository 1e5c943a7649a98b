-- ===== src/Uint128/Division.antt =====
-- Division by a word against the division of natural numbers.
use virel_blockchain.Base.{
  ℕ, ◌+◌, ◌*◌, ◌/◌, ◌%◌, ◌^◌, ◌<◌, ◌≡◌, ◌∙◌, ap, none, some, arith, ltb, IsU64, inl, inr,
  Bool-cases,
}
use virel_blockchain.Uint128.{
  Uint128, IsWord, value, of_value, low_quotient, quo_rem_64, div_64, mod_64,
}
use native.Mathlib.Nat.{div-lt_iff_lt-mul, mod-lt, mul-add-div, mul-add-mod_self_left, div-add-mod}

quotient_word : (h l v : ℕ) → 0 < v → h < v → l < 2 ^ 64 → (h * 2 ^ 64 + l) / v < 2 ^ 64
quotient_word h l v p lt hl = (div-lt_iff_lt-mul p).1 (omega arith)

-- Dividing the high word first, then the remainder with the low word, divides the whole.
split_div : (h l v : ℕ) → 0 < v → (h * 2 ^ 64 + l) / v ≡ h / v * 2 ^ 64 + (h % v * 2 ^ 64 + l) / v
split_div h l v p =
    ap (λ (t : ℕ). t / v) {x = h * 2 ^ 64 + l} {y = v * (h / v * 2 ^ 64) + (h % v * 2 ^ 64 + l)}
      (omega (arith, ap (λ (t : ℕ). t * 2 ^ 64) (div-add-mod h v)))
    ∙ mul-add-div p (h / v * 2 ^ 64) (h % v * 2 ^ 64 + l)

split_mod : (h l v : ℕ) → (h * 2 ^ 64 + l) % v ≡ (h % v * 2 ^ 64 + l) % v
split_mod h l v =
    ap (λ (t : ℕ). t % v) {x = h * 2 ^ 64 + l} {y = v * (h / v * 2 ^ 64) + (h % v * 2 ^ 64 + l)}
      (omega (arith, ap (λ (t : ℕ). t * 2 ^ 64) (div-add-mod h v)))
    ∙ mul-add-mod_self_left v (h / v * 2 ^ 64) (h % v * 2 ^ 64 + l)

low_quotient_lem :
    (q r l v : ℕ)
    → 0 < v
    → r < v
    → l < 2 ^ 64
    → low_quotient q r l v
      ≡ some (record { lo = (r * 2 ^ 64 + l) / v; hi = q }, (r * 2 ^ 64 + l) % v)
unfolding low_quotient
low_quotient_lem q r l v p lt hl = ground arith

-- Division of a 128-bit value by a word other than zero never panics, and gives the quotient and the
-- remainder of the number that the value stands for.
pub quo_rem_64-exact :
    (u : Uint128) (v : ℕ)
    → IsWord u
    → IsU64 v
    → 0 < v
    → quo_rem_64 u v ≡ some (of_value (value u / v), value u % v)
unfolding quo_rem_64
quo_rem_64-exact u v hu hv p = elim (Bool-cases (ltb u.hi v)) [
  | inl small ↦ rw small (
      ground (
        arith,
        low_quotient_lem 0 u.hi u.lo v p (ground arith) hu.lo_word,
        quotient_word u.hi u.lo v p (ground arith) hu.lo_word,
      ))
  | inr large ↦ ground (
    arith,
    low_quotient_lem (u.hi / v) (u.hi % v) u.lo v p (mod-lt u.hi p) hu.lo_word,
    quotient_word (u.hi % v) u.lo v p (mod-lt u.hi p) hu.lo_word,
    split_div u.hi u.lo v p,
    split_mod u.hi u.lo v,
  )
]

pub div_64-exact :
    (u : Uint128) (v : ℕ) → IsWord u → IsU64 v → 0 < v → div_64 u v ≡ some (of_value (value u / v))
unfolding div_64
div_64-exact u v hu hv p = rw (quo_rem_64-exact u v hu hv p, div_64)

pub mod_64-exact :
    (u : Uint128) (v : ℕ) → IsWord u → IsU64 v → 0 < v → mod_64 u v ≡ some (value u % v)
unfolding mod_64
mod_64-exact u v hu hv p = rw (quo_rem_64-exact u v hu hv p, mod_64)

-- Division by zero panics.
pub quo_rem_64-zero : (u : Uint128) → quo_rem_64 u 0 ≡ none
unfolding quo_rem_64
quo_rem_64-zero u = ground arith
