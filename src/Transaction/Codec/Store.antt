-- ===== src/Transaction/Codec/Store.antt =====
-- The index of transactions: SetTx and GetTx of blockchain/bc-txn.go on the bytes that the database
-- holds, the height first.
use virel_blockchain.Base.{
  ℕ, ◌<◌, ◌≡◌, refl, sym, ap, ◌∙◌, ◌⊎◌, inl, inr, Bool, false, not, ◌==◌, ltb, leb, if◌then◌else◌,
  ne→==, Option, none, some, List, [], ◌++◌, length, length-append, drop, Result, ok, err, panic,
  arith, IsU64,
}
use virel_blockchain.Base.Bytes.{le_bytes, length-le_bytes}
use virel_blockchain.Config.{hardfork_v2_height}
use mathlib.Core.List.{append-nil}
use virel_blockchain.Binary.{new_ser, add_uint64, add_bytes, Des, new_des, read_uint64}
use virel_blockchain.Binary.Reads.{Reads-uint64}
use virel_blockchain.Transaction.{Transaction}
use virel_blockchain.Transaction.Codec.{serialize_transaction, deserialize_transaction}
use virel_blockchain.Transaction.Codec.RoundTrip.{
  IsVersioned, IsTransaction, deserialize_transaction-serialize_transaction,
}

-- What SetTx puts under the hash.
unfoldable pub stored_tx : Transaction → (height : ℕ) → List ℕ
stored_tx tx height = add_bytes (add_uint64 new_ser height) (serialize_transaction tx)

-- SetTxHeight overwrites the height in place.
unfoldable pub set_stored_height : (height : ℕ) → Option (List ℕ) → Option (List ℕ)
set_stored_height height none = none
set_stored_height height (some bytes) =
    if ltb (length bytes) 8 then none else some (le_bytes 8 height ++ drop 8 bytes)

-- A deserialization from a new reader, whose rest is not looked at.
unfoldable pub parse_tx : (has_version : Bool) → List ℕ → Result (Unit {0}) Transaction
parse_tx has_version bytes = (deserialize_transaction has_version (new_des bytes)).0

abbrev at_height :
    (height : ℕ) → Result (Unit {0}) Transaction → Result (Unit {0}) (Transaction × ℕ)
at_height height (ok tx) = ok (tx, height)
at_height height (err e) = err e
at_height height panic = panic

-- The other form, if the first is an error.
abbrev or_else :
    Result (Unit {0}) Transaction → Result (Unit {0}) Transaction → Result (Unit {0}) Transaction
or_else (ok tx) other = ok tx
or_else (err e) other = other
or_else panic other = panic

-- A transaction that no block includes has the height zero: both forms are tried.
unfoldable pub parse_stored :
    (top_height included_in : ℕ) → List ℕ → Result (Unit {0}) (Transaction × ℕ)
parse_stored top_height included_in bytes =
    if included_in == 0
    then (let versioned = ltb hardfork_v2_height top_height in
        at_height included_in (or_else (parse_tx versioned bytes) (parse_tx (not versioned) bytes)))
    else at_height included_in (parse_tx (leb hardfork_v2_height included_in) bytes)

abbrev after_height :
    (top_height : ℕ) → Result (Unit {0}) ℕ × Des → Result (Unit {0}) (Transaction × ℕ)
after_height top_height (ok included_in, d) =
    if d.failed then err tt else parse_stored top_height included_in d.unread
after_height top_height (err e, d) = err e
after_height top_height (panic, d) = panic

unfoldable pub load_tx : (top_height : ℕ) → Option (List ℕ) → Result (Unit {0}) (Transaction × ℕ)
load_tx top_height none = err tt
load_tx top_height (some bytes) =
    if length bytes == 0 then err tt else after_height top_height (read_uint64 (new_des bytes))

-- When the form in which the transaction is read is that in which it was written: by the height of its
-- block, or, for one without a block, by the height of the chain.
abbrev pub IsDated : (top_height height : ℕ) → Transaction → Type 0
IsDated top_height height tx =
    ((0 < height) × IsVersioned (leb hardfork_v2_height height) tx)
    ⊎ ((height ≡ 0) × IsVersioned (ltb hardfork_v2_height top_height) tx)

pub parse_tx-serialize_transaction :
    {has_version : Bool} (tx : Transaction)
    → IsVersioned has_version tx
    → IsTransaction tx
    → parse_tx has_version (serialize_transaction tx) ≡ ok tx
unfolding parse_tx
parse_tx-serialize_transaction {has_version} tx v fits =
    ap (λ l. (deserialize_transaction has_version (new_des l)).0)
      (sym (append-nil (serialize_transaction tx)))
    ∙ ap (λ r. r.0) (deserialize_transaction-serialize_transaction tx [] v fits)

parse_stored-serialize_transaction :
    (top_height height : ℕ) (tx : Transaction)
    → IsDated top_height height tx
    → IsTransaction tx
    → parse_stored top_height height (serialize_transaction tx) ≡ ok (tx, height)
unfolding parse_stored
parse_stored-serialize_transaction top_height height tx (inl (pos, v)) fits =
    rw (ne→== height 0 (λ e. omega arith), parse_tx-serialize_transaction tx v fits) refl
parse_stored-serialize_transaction top_height height tx (inr (e, v)) fits =
    rw (e, parse_tx-serialize_transaction tx v fits) refl

stored_some : (height : ℕ) (l : List ℕ) → (length (le_bytes 8 height ++ l) == 0) ≡ false
stored_some height l = ground (arith, length-append (le_bytes 8 height) l, length-le_bytes 8 height)

pub load_tx-stored_tx :
    (top_height height : ℕ) (tx : Transaction)
    → IsU64 height
    → IsDated top_height height tx
    → IsTransaction tx
    → load_tx top_height (some (stored_tx tx height)) ≡ ok (tx, height)
unfolding load_tx stored_tx add_bytes add_uint64
load_tx-stored_tx top_height height tx word dated fits =
    rw
      (
        stored_some height (serialize_transaction tx),
        (Reads-uint64 height word).run (serialize_transaction tx),
      )
      (parse_stored-serialize_transaction top_height height tx dated fits)
