-- ===== src/Binary/Uvarint.antt =====
-- Writing and reading a variable-length integer.
use virel_blockchain.Base.{
  ℕ, zero, suc, ◌+◌, ◌*◌, ◌/◌, ◌%◌, ◌^◌, ◌≤◌, ◌<◌, ◌≡◌, subst, List, ◌++◌, length, All, arith,
  IsU64,
}
use virel_blockchain.Base.Bytes.{IsByte}
use virel_blockchain.Binary.{uvarint_groups, uvarint_loop, uvarint, decoded}
use native.Mathlib.Nat.{div-add-mod}
use native.Mathlib.Numerals.{towards_suc}

regroup : (n p : ℕ) → n % 128 * p + n / 128 * (p * 128) ≡ n * p
regroup n p =
    subst (λ m. n % 128 * p + n / 128 * (p * 128) ≡ m * p) (div-add-mod n 128) (omega arith)

-- A group and those after it, each at its position.
next_group : (n i : ℕ) → n % 128 * 2 ^ i + n / 128 * 2 ^ (i + 7) ≡ n * 2 ^ i
next_group n i =
    let p : 2 ^ (i + 7) ≡ 2 ^ i * 128 = simp towards_suc (omega arith) in rw p (regroup n (2 ^ i))

pub length-uvarint_groups : (k x : ℕ) → 1 ≤ length (uvarint_groups k x)
unfolding uvarint_groups
length-uvarint_groups zero x = omega arith
length-uvarint_groups (suc k) x = ground (arith, length-uvarint_groups k (x / 128))

pub uvarint_groups-IsByte : (k x : ℕ) → All IsByte (uvarint_groups k x)
unfolding uvarint_groups
uvarint_groups-IsByte zero x = omega arith
uvarint_groups-IsByte (suc k) x = ground (arith, uvarint_groups-IsByte k (x / 128))

uvarint_loop-uvarint_groups :
    (k w i x s : ℕ) (rest : List ℕ)
    → s ≡ 7 * i
    → i + k ≤ 9
    → w < 128 ^ suc k
    → x + w * 2 ^ s < 2 ^ 64
    → uvarint_loop (uvarint_groups k w ++ rest) i x s
      ≡ decoded (x + w * 2 ^ s) (i + length (uvarint_groups k w))
unfolding uvarint_loop uvarint_groups
uvarint_loop-uvarint_groups zero w i x s rest hs hi hw fits = ground arith
uvarint_loop-uvarint_groups (suc k) w i x s rest hs hi hw fits = ground (
  arith,
  next_group w s,
  uvarint_loop-uvarint_groups k (w / 128) (i + 1) (x + w % 128 * 2 ^ s) (s + 7) rest (omega arith)
      (omega arith) (omega arith),
)

pub uvarint-uvarint_groups :
    (x : ℕ) (rest : List ℕ)
    → IsU64 x
    → uvarint (uvarint_groups 9 x ++ rest) ≡ decoded x (length (uvarint_groups 9 x))
unfolding uvarint
uvarint-uvarint_groups x rest h =
    ground (arith, uvarint_loop-uvarint_groups 9 x 0 0 0 rest (omega arith) (omega arith))
