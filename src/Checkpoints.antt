-- ===== src/Checkpoints.antt =====
-- The checkpoints of the mainnet build: checkpoints/checkpoints.go. `bin` is the embedded file: four
-- bytes of the interval, then one hash of 32 bytes for each checkpoint. `none` is a panic.
pub mod Coverage
use virel_blockchain.Base.{
  ℕ, ◌+◌, ◌-◌, ◌*◌, ◌/◌, ◌%◌, Bool, true, false, ◌&&◌, Option, none, some, List, ltb, leb, ◌==◌,
  if◌then◌else◌, add64, sub64, mul64, length, take, drop,
}
use virel_blockchain.Base.Bytes.{of_le_bytes}

abbrev pub checkpoint_overhead : ℕ
checkpoint_overhead = 4

-- What init reads from the file.
unfoldable pub checkpoint_interval : (bin : List ℕ) → ℕ
checkpoint_interval bin = of_le_bytes (take 4 bin)

unfoldable pub max_checkpoint : (bin : List ℕ) → ℕ
max_checkpoint bin = (length bin - checkpoint_overhead) / 32

unfoldable pub get_checkpoint : (bin : List ℕ) (height : ℕ) → Option (List ℕ)
get_checkpoint bin height =
    let index = sub64 (height / checkpoint_interval bin) 1 in
    let start_pos = add64 checkpoint_overhead (mul64 index 32) in
    let end_pos = add64 start_pos 32 in
    if leb start_pos end_pos && leb end_pos (length bin)
    then some (take 32 (drop start_pos bin))
    else none

unfoldable pub is_checkpoint : (bin : List ℕ) (height : ℕ) → Bool
is_checkpoint bin height =
    if max_checkpoint bin == 0
    then false
    else (height % checkpoint_interval bin == 0)
      && leb (height / checkpoint_interval bin) (max_checkpoint bin)

unfoldable pub is_secured : (bin : List ℕ) (height : ℕ) → Bool
is_secured bin height =
    if max_checkpoint bin == 0
    then false
    else leb (height / checkpoint_interval bin) (max_checkpoint bin)
