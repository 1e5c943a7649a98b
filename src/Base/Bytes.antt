-- ===== src/Base/Bytes.antt =====
-- Byte sequences: little-endian and big-endian numbers of a fixed size.
use Prim.Native.Nat.{ℕ, zero, suc, ◌+◌, ◌*◌, ◌/◌, ◌%◌, ◌^◌, ◌<◌, ◌≤◌}
use mathlib.Core.Path.{◌≡◌, refl, ◌∙◌, ap}
use mathlib.Core.List.{List, [], ◌∷◌, reverse, reverse-reverse}
use native.Mathlib.Omega.{arith}
use native.Mathlib.Nat.{pow-suc}
use virel_blockchain.Base.Lists.{length, length-reverse, All, All-reverse}

abbrev pub IsByte : ℕ → Type 0
IsByte b = b < 256

-- `n` bytes, least significant first.
unfoldable pub le_bytes : ℕ → ℕ → List ℕ
le_bytes zero x = []
le_bytes (suc n) x = (x % 256) ∷ le_bytes n (x / 256)

unfoldable pub of_le_bytes : List ℕ → ℕ
of_le_bytes [] = 0
of_le_bytes (b ∷ bs) = b + 256 * of_le_bytes bs

-- `n` bytes, most significant first.
unfoldable pub be_bytes : ℕ → ℕ → List ℕ
be_bytes n x = reverse (le_bytes n x)

unfoldable pub of_be_bytes : List ℕ → ℕ
of_be_bytes bs = of_le_bytes (reverse bs)

pub length-le_bytes : (n x : ℕ) → length (le_bytes n x) ≡ n
unfolding le_bytes
length-le_bytes zero x = refl
length-le_bytes (suc n) x = ap suc (length-le_bytes n (x / 256))

pub of_le_bytes-le_bytes : (n x : ℕ) → x < 256 ^ n → of_le_bytes (le_bytes n x) ≡ x
unfolding le_bytes of_le_bytes
of_le_bytes-le_bytes zero x h = omega arith
of_le_bytes-le_bytes (suc n) x h =
    omega (arith, of_le_bytes-le_bytes n (x / 256) (omega (arith, pow-suc 256 n)))

pub length-be_bytes : (n x : ℕ) → length (be_bytes n x) ≡ n
unfolding be_bytes
length-be_bytes n x = length-reverse (le_bytes n x) ∙ length-le_bytes n x

pub of_be_bytes-be_bytes : (n x : ℕ) → x < 256 ^ n → of_be_bytes (be_bytes n x) ≡ x
unfolding be_bytes of_be_bytes
of_be_bytes-be_bytes n x h =
    ap of_le_bytes (reverse-reverse (le_bytes n x)) ∙ of_le_bytes-le_bytes n x h

pub le_bytes-All : (n x : ℕ) → All IsByte (le_bytes n x)
unfolding le_bytes
le_bytes-All zero x = tt
le_bytes-All (suc n) x = (omega arith, le_bytes-All n (x / 256))

pub be_bytes-All : (n x : ℕ) → All IsByte (be_bytes n x)
unfolding be_bytes
be_bytes-All n x = All-reverse IsByte (le_bytes n x) (le_bytes-All n x)

-- `n` bytes make a number below 256 ^ n.
pub of_le_bytes_bound :
    (n : ℕ) (bs : List ℕ) → All IsByte bs → length bs ≤ n → of_le_bytes bs < 256 ^ n
unfolding of_le_bytes
of_le_bytes_bound zero [] w h = omega arith
of_le_bytes_bound zero (b ∷ bs) w h = omega arith
of_le_bytes_bound (suc n) [] w h =
    omega (arith, of_le_bytes_bound n [] tt (omega arith), pow-suc 256 n)
of_le_bytes_bound (suc n) (b ∷ bs) (h0, w) h =
    omega (arith, of_le_bytes_bound n bs w (omega arith), pow-suc 256 n)
