-- ===== src/Queue.antt =====
-- The queue of blocks to download: blockchain/blockqueue.go. Times are in seconds; the clock is an
-- argument. A list of blocks stands for the slice of pointers, whose blocks nothing else changes.
pub mod Requests
use virel_blockchain.Base.{
  ℕ, ◌+◌, Bool, true, false, Option, none, some, List, [], ◌∷◌, ◌++◌, map, length, ltb, leb, ◌==◌,
  if◌then◌else◌, sub64,
}

pub record QueuedBlock : Type 0 where
  pub hash : ℕ
  pub height : ℕ
  pub expires : ℕ
  pub last_request : ℕ

abbrev pub Queue : Type 0
Queue = List QueuedBlock

abbrev pub rerequest_time : ℕ
rerequest_time = 1

abbrev pub downloaded_expire : ℕ
downloaded_expire = 5

-- Twenty minutes.
abbrev pub new_queued_block : (now hash : ℕ) → QueuedBlock
new_queued_block now hash = record {
  hash = hash;
  height = 0;
  expires = now + 1200;
  last_request = 0;
}

abbrev pub requested_at : (now : ℕ) → QueuedBlock → QueuedBlock
requested_at now v = record v { last_request = now }

-- `t-v.LastRequest > rerequest_time`, where the last request may lie in the future.
abbrev pub is_requestable : (now : ℕ) → QueuedBlock → Bool
is_requestable now v = ltb (v.last_request + rerequest_time) now

-- The first block whose last request is long enough ago; what is returned is the block as changed.
unfoldable pub requestable_block : (now : ℕ) → Queue → Option QueuedBlock × Queue
requestable_block now [] = (none, [])
requestable_block now (v ∷ vs) =
    let (found, rest) = requestable_block now vs in
    if is_requestable now v
    then (some (requested_at now v), requested_at now v ∷ vs)
    else (found, v ∷ rest)

-- The loops that change the blocks with a hash.
unfoldable pub change_hash : (hash : ℕ) → (QueuedBlock → QueuedBlock) → Queue → Queue
change_hash hash f [] = []
change_hash hash f (v ∷ vs) = (if v.hash == hash then f v else v) ∷ change_hash hash f vs

unfoldable pub cleanup : (now : ℕ) → Queue → Queue
cleanup now [] = []
cleanup now (v ∷ vs) = let rest = cleanup now vs in if leb now v.expires then v ∷ rest else rest

-- RemoveBlock, and RemoveBlockByHash, which is the same.
unfoldable pub remove_block : (now hash : ℕ) → Queue → Queue
remove_block now hash q = cleanup now (change_hash hash (λ v. record v { expires = 0 }) q)

unfoldable pub block_downloaded : (now hash : ℕ) → Queue → Queue
block_downloaded now hash q =
    change_hash hash
      (λ v. record v { expires = now + downloaded_expire; last_request = now + downloaded_expire })
      q

unfoldable pub block_requested : (now hash : ℕ) → Queue → Queue
block_requested now hash q = change_hash hash (λ v. record v { last_request = now }) q

-- Sorting by height.
unfoldable pub insert_by_height : QueuedBlock → Queue → Queue
insert_by_height qb [] = qb ∷ []
insert_by_height qb (v ∷ vs) =
    if leb v.height qb.height then v ∷ insert_by_height qb vs else qb ∷ v ∷ vs

unfoldable pub sort_by_height : Queue → Queue
sort_by_height [] = []
sort_by_height (v ∷ vs) = insert_by_height v (sort_by_height vs)

unfoldable pub has_hash : (hash : ℕ) → Queue → Bool
has_hash hash [] = false
has_hash hash (v ∷ vs) = if v.hash == hash then true else has_hash hash vs

-- The first block with the hash gives way; the order stays as it is.
unfoldable pub replace_first : QueuedBlock → Queue → Queue
replace_first qb [] = []
replace_first qb (v ∷ vs) = if v.hash == qb.hash then qb ∷ vs else v ∷ replace_first qb vs

-- The result says whether the queue had the hash.
unfoldable pub set_block : QueuedBlock → (replace : Bool) → Queue → Bool × Queue
set_block qb replace q =
    if has_hash qb.hash q
    then (true, if replace then replace_first qb q else q)
    else (false, sort_by_height (q ++ qb ∷ []))

-- What AddBlock does to the queue when the predecessor of a block of this height is not stored: the block is not asked
-- for again for some seconds, and its predecessor is wanted.
unfoldable pub add_orphan_parent : (now hash prev_hash height : ℕ) → Queue → Queue
add_orphan_parent now hash prev_hash height q =
    (set_block
      record (new_queued_block now prev_hash) { height = sub64 height 1; expires = now + 60 } true
      (block_downloaded now hash q)).1
