-- ===== src/Checkpoints/Coverage.antt =====
-- Which heights the checkpoints cover.
use virel_blockchain.Base.{
  ℕ, ◌+◌, ◌-◌, ◌*◌, ◌/◌, ◌%◌, ◌^◌, ◌≤◌, ◌<◌, ◌≡◌, true, some, List, arith, ltb, add64, sub64, mul64,
  length, take, drop,
}
use virel_blockchain.Checkpoints.{
  checkpoint_interval, max_checkpoint, get_checkpoint, is_checkpoint, is_secured,
}
use native.Mathlib.Nat.{div-lt_iff_lt-mul, mul-div_cancel, mul-mod_left}

-- A file with an interval, a checkpoint and a length below 2 ^ 62.
pub record IsTable (bin : List ℕ) : Type 0 where
  pub interval : 0 < checkpoint_interval bin
  pub present : 0 < max_checkpoint bin
  pub short : length bin < 2 ^ 62

-- The checkpoint `k`, from 1.
abbrev pub entry : ℕ → List ℕ → List ℕ
entry k bin = take 32 (drop (4 + 32 * (k - 1)) bin)

entry_fits :
    (bin : List ℕ) (k : ℕ) → 0 < k → k ≤ max_checkpoint bin → 4 + 32 * (k - 1) + 32 ≤ length bin
unfolding max_checkpoint
entry_fits bin k pos le = omega arith

-- The hash of every positive multiple of the interval up to the last checkpoint is found, at its place in
-- the file, and such a height counts as a checkpoint and as secured.
pub get_checkpoint-entry :
    (bin : List ℕ) (k : ℕ)
    → IsTable bin
    → 0 < k
    → k ≤ max_checkpoint bin
    → (is_checkpoint bin (k * checkpoint_interval bin) ≡ true)
      × (is_secured bin (k * checkpoint_interval bin) ≡ true)
      × (get_checkpoint bin (k * checkpoint_interval bin) ≡ some (entry k bin))
unfolding is_checkpoint is_secured get_checkpoint
get_checkpoint-entry bin k t pos le =
    let i = checkpoint_interval bin in
    let exact : k * i / i ≡ k = mul-div_cancel k t.interval in
    let whole : k * i % i ≡ 0 = mul-mod_left k i in
    let room = entry_fits bin k pos le in
    let start : add64 4 (mul64 (sub64 k 1) 32) ≡ 4 + 32 * (k - 1) = omega (arith, t.short) in
    let stop : add64 (4 + 32 * (k - 1)) 32 ≡ 4 + 32 * (k - 1) + 32 = omega (arith, t.short) in
    (
      rw (exact, whole) (ground (arith, t.present)),
      rw exact (ground (arith, t.present)),
      rw (exact, start, stop) (ground (arith, room)),
    )

-- The heights that count as secured are those below the multiple of the interval after the last
-- checkpoint: they go past the last height that a checkpoint fixes, by the interval less one.
pub is_secured-below :
    (bin : List ℕ) (height : ℕ)
    → IsTable bin
    → is_secured bin height ≡ ltb height ((max_checkpoint bin + 1) * checkpoint_interval bin)
unfolding is_secured
is_secured-below bin height t = ground (
  arith,
  t.present,
  (div-lt_iff_lt-mul {x = height} {y = max_checkpoint bin + 1} t.interval).0,
  (div-lt_iff_lt-mul {x = height} {y = max_checkpoint bin + 1} t.interval).1,
)
