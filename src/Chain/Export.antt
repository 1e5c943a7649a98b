-- ===== src/Chain/Export.antt =====
-- CreateCheckpoints of blockchain/blockchain.go: the file of checkpoints from the main chain.
use virel_blockchain.Base.{
  ℕ, zero, suc, ◌+◌, ◌/◌, ◌%◌, ◌^◌, ◌==◌, if◌then◌else◌, pure, crash, ◌>>=◌,
}
use virel_blockchain.Binary.{Ser, new_ser, add_uint32, add_fixed_byte_array}
use virel_blockchain.Block.Codec.{hash_size}
use virel_blockchain.Ledger.{Do}
use virel_blockchain.Chain.Genesis.{known_topo}

-- The loop, `count` times.
unfoldable write_hashes : (count height interval : ℕ) → Ser → Do Ser
write_hashes zero height interval s = pure s
write_hashes (suc n) height interval s = do
  hash ← known_topo height
  write_hashes n (height + interval) interval (add_fixed_byte_array hash_size s hash)

-- The heights from the interval on, in its steps, up to the maximum. An interval of zero is a division
-- by zero; the sum of the largest height and the interval is taken to be a word.
unfoldable create_checkpoints : (max_height interval : ℕ) → Do Ser
create_checkpoints max_height interval =
    if interval == 0
    then crash
    else write_hashes (max_height / interval) interval interval
        (add_uint32 new_ser (interval % 2 ^ 32))
