-- ===== src/Tests/Table.antt =====
-- A file of two checkpoints with the interval 10.
use virel_blockchain.Base.{
  ℕ, ◌+◌, ◌*◌, ◌≡◌, refl, true, some, List, ◌∷◌, ◌++◌, arith, ltb, replicate, length,
}
use virel_blockchain.Base.Bytes.{of_le_bytes}
use virel_blockchain.Checkpoints.{
  checkpoint_interval, max_checkpoint, get_checkpoint, is_checkpoint, is_secured,
}
use virel_blockchain.Checkpoints.Coverage.{IsTable, entry, get_checkpoint-entry, is_secured-below}

abbrev table : List ℕ
table = 10 ∷ 0 ∷ 0 ∷ 0 ∷ (replicate 32 7 ++ replicate 32 8)

interval_ten : checkpoint_interval table ≡ 10
unfolding checkpoint_interval of_le_bytes
interval_ten = refl

two_checkpoints : max_checkpoint table ≡ 2
unfolding max_checkpoint
two_checkpoints = refl

length-table : length table ≡ 68
length-table = refl

table-IsTable : IsTable table
table-IsTable = record {
  interval = omega (arith, interval_ten);
  present = omega (arith, two_checkpoints);
  short = omega (arith, length-table);
}

get_checkpoint-entry_example :
    (is_checkpoint table (2 * checkpoint_interval table) ≡ true)
    × (is_secured table (2 * checkpoint_interval table) ≡ true)
    × (get_checkpoint table (2 * checkpoint_interval table) ≡ some (entry 2 table))
get_checkpoint-entry_example =
    get_checkpoint-entry table 2 table-IsTable (omega arith) (omega (arith, two_checkpoints))

is_secured-below_example :
    is_secured table 29 ≡ ltb 29 ((max_checkpoint table + 1) * checkpoint_interval table)
is_secured-below_example = is_secured-below table 29 table-IsTable
