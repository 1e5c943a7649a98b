-- ===== src/Base/Words.antt =====
-- Unsigned 64-bit words: arithmetic modulo 2 ^ 64, written out.
-- `safe_add` is SafeAdd of util/util.go.
use Prim.Native.Nat.{ℕ, ◌+◌, ◌-◌, ◌*◌, ◌%◌, ◌^◌, ◌<◌, ◌≤◌}
use mathlib.Core.Path.{◌≡◌}
use mathlib.Core.Option.{Option, none, some}
use native.Mathlib.Omega.{arith}
use virel_blockchain.Base.Tests.{ltb, if◌then◌else◌}

abbrev pub u64_mod : ℕ
u64_mod = 2 ^ 64

abbrev pub IsU64 : ℕ → Type 0
IsU64 x = x < 2 ^ 64

abbrev pub add64 : ℕ → ℕ → ℕ
add64 a b = (a + b) % 2 ^ 64

abbrev pub sub64 : ℕ → ℕ → ℕ
sub64 a b = (a + 2 ^ 64 - b) % 2 ^ 64

abbrev pub mul64 : ℕ → ℕ → ℕ
mul64 a b = a * b % 2 ^ 64

-- `none` stands for the error "overflow".
unfoldable pub safe_add : ℕ → ℕ → Option ℕ
safe_add a b = if ltb (add64 a b) a then none else some (add64 a b)

-- On words the sum is exact, or it is refused.
pub safe_add_exact : (a b : ℕ) → IsU64 a → IsU64 b → a + b < 2 ^ 64 → safe_add a b ≡ some (a + b)
unfolding safe_add
safe_add_exact a b ha hb h = ground arith

pub safe_add_overflow : (a b : ℕ) → IsU64 a → IsU64 b → 2 ^ 64 ≤ a + b → safe_add a b ≡ none
unfolding safe_add
safe_add_overflow a b ha hb h = ground arith

pub safe_add_computed :
    (a b : ℕ) {c : ℕ} → IsU64 a → IsU64 b → safe_add a b ≡ some c → (c ≡ a + b) × IsU64 c
unfolding safe_add
safe_add_computed a b ha hb h = ground arith
