-- ===== src/Block/Codec/Full/Exchange.antt =====
-- What one peer sends, the other reads: a block with its transactions.
use virel_blockchain.Base.{
  ℕ, suc, ◌^◌, ◌≤◌, ◌<◌, ◌≡◌, refl, sym, ap, subst, ◌∙◌, inl, leb, le→ltb, some, List, [], ◌∷◌,
  ◌++◌, map, length, All, ok, arith,
}
use virel_blockchain.Base.Dict.{Dict, lookup}
use virel_blockchain.Config.{max_tx_per_block, hardfork_v2_height}
use mathlib.Core.List.{append_assoc, append-nil}
use virel_blockchain.Binary.{
  Ser, add_bytes, add_uvarint, append_uvarint, add_byte_slice, uvarint_groups, new_des,
}
use virel_blockchain.Binary.Reads.{
  Reads, Reads-pure, Reads-bind, Reads-last, Reads-checked, Reads-passed, Reads-check_error,
  Reads-uvarint, Reads-byte_slice,
}
use virel_blockchain.Transaction.{Transaction}
use virel_blockchain.Transaction.Codec.{serialize_transaction}
use virel_blockchain.Transaction.Codec.RoundTrip.{IsVersioned, IsTransaction}
use virel_blockchain.Transaction.Codec.Store.{
  stored_tx, load_tx, parse_tx-serialize_transaction, load_tx-stored_tx,
}
use virel_blockchain.Block.{Block}
use virel_blockchain.Block.Codec.{serialize_header, serialize_difficulty}
use virel_blockchain.Block.Codec.Bytes.{
  header_bytes, difficulty_bytes, serialize_header-header_bytes,
}
use virel_blockchain.Block.Codec.Parts.{Reads-deserialize_difficulty}
use virel_blockchain.Block.Codec.RoundTrip.{IsBlock, Reads-deserialize_header}
use virel_blockchain.Block.Codec.Full.{
  serialize_txs, serialize_full_block, tx_hash, deserialize_txs, hashes_of, txs_of,
  deserialize_full_block,
}

abbrev tx_bytes : Transaction → List ℕ
tx_bytes tx = uvarint_groups 9 (length (serialize_transaction tx)) ++ serialize_transaction tx

abbrev txs_bytes : List Transaction → List ℕ
txs_bytes [] = []
txs_bytes (tx ∷ txs) = tx_bytes tx ++ txs_bytes txs

length-map_hash : (f : Transaction → ℕ) (txs : List Transaction) → length (map f txs) ≡ length txs
length-map_hash f [] = refl
length-map_hash f (tx ∷ txs) = ap suc (length-map_hash f txs)

module _ (digest : List ℕ → ℕ) (index : Dict (List ℕ)) (height : ℕ) where
  -- The transaction stands in the index under its hash, with the height of the block.
  pub record IsKept (tx : Transaction) : Type 0 where
    pub kept : lookup (tx_hash digest tx) index ≡ some (stored_tx tx height)
    pub dated : IsVersioned (leb hardfork_v2_height height) tx
    pub fits : IsTransaction tx
    pub short : length (serialize_transaction tx) < 2 ^ 63

  serialize_txs-txs_bytes :
      (s : Ser) (txs : List Transaction)
      → 0 < height
      → height < 2 ^ 64
      → All IsKept txs
      → serialize_txs index height s (map (tx_hash digest) txs) ≡ ok (s ++ txs_bytes txs)
  unfolding serialize_txs add_byte_slice append_uvarint
  serialize_txs-txs_bytes s [] pos word h = ap ok (sym (append-nil s))
  serialize_txs-txs_bytes s (tx ∷ txs) pos word (h, hs) =
      let found =
        ap (load_tx height) h.kept
        ∙ load_tx-stored_tx height height tx word (inl (pos, h.dated)) h.fits in
      rw (found, serialize_txs)
        (serialize_txs-txs_bytes
            ((s ++ uvarint_groups 9 (length (serialize_transaction tx)))
              ++ serialize_transaction tx)
            txs pos word hs
          ∙ ap ok (simp append_assoc))

  abbrev with_hashes : List Transaction → List (ℕ × Transaction)
  with_hashes = map (λ (tx : Transaction). (tx_hash digest tx, tx))

  Reads-deserialize_txs :
      (txs : List Transaction)
      → All IsKept txs
      → Reads
          (deserialize_txs digest (leb hardfork_v2_height height) (length txs))
          (txs_bytes txs)
          (with_hashes txs)
  unfolding deserialize_txs
  Reads-deserialize_txs [] h = Reads-pure []
  Reads-deserialize_txs (tx ∷ txs) (h, hs) =
      Reads-bind _ (Reads-byte_slice (serialize_transaction tx) h.short) (
        rw (parse_tx-serialize_transaction tx h.dated h.fits) (
          Reads-last (λ (l : List (ℕ × Transaction)). (tx_hash digest tx, tx) ∷ l)
            (Reads-deserialize_txs txs hs)))

  hashes_of-with_hashes :
      (txs : List Transaction) → hashes_of (with_hashes txs) ≡ map (tx_hash digest) txs
  hashes_of-with_hashes [] = refl
  hashes_of-with_hashes (tx ∷ txs) =
      ap (λ (l : List ℕ). tx_hash digest tx ∷ l) (hashes_of-with_hashes txs)

  txs_of-with_hashes : (txs : List Transaction) → txs_of (with_hashes txs) ≡ txs
  txs_of-with_hashes [] = refl
  txs_of-with_hashes (tx ∷ txs) = ap (λ (l : List Transaction). tx ∷ l) (txs_of-with_hashes txs)

abbrev full_bytes : Block → List Transaction → List ℕ
full_bytes b txs =
    header_bytes b
    ++ (difficulty_bytes b.difficulty
        ++ (difficulty_bytes b.cumulative_diff ++ (uvarint_groups 9 (length txs) ++ txs_bytes txs)))

module _ (digest : List ℕ → ℕ) (index : Dict (List ℕ)) (b : Block) (txs : List Transaction)
    (fits : IsBlock b) (named : b.transactions ≡ map (tx_hash digest) txs)
    (kept : All (IsKept digest index b.height) txs) where
  same_length : length b.transactions ≡ length txs
  same_length = ap length named ∙ length-map_hash (tx_hash digest) txs

  abbrev fore : Ser
  fore =
      add_uvarint
        (serialize_difficulty
          (serialize_difficulty (add_bytes [] (serialize_header b)) b.difficulty) b.cumulative_diff)
        (length b.transactions)

  serialize_full_block-full_bytes :
      0 < b.height → serialize_full_block index b ≡ ok (full_bytes b txs)
  unfolding serialize_full_block serialize_difficulty add_byte_slice add_bytes add_uvarint
      append_uvarint
  serialize_full_block-full_bytes pos =
      ap (serialize_txs index b.height fore) named
      ∙ serialize_txs-txs_bytes digest index b.height fore txs pos fits.height_fits kept
      ∙ ap ok (simp (serialize_header-header_bytes, append_assoc, same_length))

  abbrev received : List (ℕ × Transaction) → Block × List Transaction
  received l = (record b { transactions = hashes_of l }, txs_of l)

  received-with_hashes : received (with_hashes digest index b.height txs) ≡ (b, txs)
  received-with_hashes = cc (
    hashes_of-with_hashes digest index b.height txs,
    txs_of-with_hashes digest index b.height txs,
    named,
  )

  few : length txs ≤ max_tx_per_block
  few = omega (arith, same_length, fits.few_transactions)

  Reads-deserialize_full_block : Reads (deserialize_full_block digest) (full_bytes b txs) (b, txs)
  unfolding deserialize_full_block
  Reads-deserialize_full_block = subst (Reads _ (full_bytes b txs)) received-with_hashes (
      Reads-bind _ (Reads-deserialize_header b fits) (
        Reads-bind _ (Reads-deserialize_difficulty b.difficulty fits.difficulty_fits) (
          Reads-bind _ (Reads-deserialize_difficulty b.cumulative_diff fits.cumulative_diff_fits) (
            Reads-bind _ (Reads-uvarint (length txs) (omega (arith, few))) (
              Reads-bind _ {front = []} Reads-check_error (
                Reads-passed _ (le→ltb max_tx_per_block (length txs) few) (
                  Reads-checked received
                    (Reads-deserialize_txs digest index b.height txs kept))))))))

-- What SerializeFullBlock writes is read back by DeserializeFull, as the same block and the same
-- transactions, in front of any other bytes. The conditions on the block: its height is above zero;
-- its fields and those of its side blocks are values of their Go types; it and each side block have
-- at most 15 other chains; it has at most 2 side blocks and 1,000 transactions; its stake fields are
-- zero if its version is zero; and its transactions are named by their hashes, whatever the hash
-- function is. The conditions on each transaction: the index has it under its hash, with the height
-- of the block; its fields are values of their Go types; a transfer has 1 to 32 outputs, and the name
-- of a delegate that is registered fewer than 2 ^ 63 bytes; its version is the one of its data, from
-- the height on from which transactions are written with a version, and below it is a transfer of
-- version zero; and it takes fewer than 2 ^ 63 bytes.
pub deserialize_full_block-serialize_full_block :
    (digest : List ℕ → ℕ) (index : Dict (List ℕ)) (b : Block) (txs : List Transaction)
    (rest : List ℕ)
    → IsBlock b
    → 0 < b.height
    → b.transactions ≡ map (tx_hash digest) txs
    → All (IsKept digest index b.height) txs
    → (bytes : List ℕ) × (serialize_full_block index b ≡ ok bytes)
      × (deserialize_full_block digest (new_des (bytes ++ rest)) ≡ (ok (b, txs), new_des rest))
deserialize_full_block-serialize_full_block digest index b txs rest fits pos named kept = (
  full_bytes b txs,
  serialize_full_block-full_bytes digest index b txs fits named kept pos,
  (Reads-deserialize_full_block digest index b txs fits named kept).run rest,
)
