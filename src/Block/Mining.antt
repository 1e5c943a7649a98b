-- ===== src/Block/Mining.antt =====
-- Merge mining: block/miningblob.go, HashingID and MiningBlob of block/commitment.go, and the mining
-- blob of block/block.go. The hash function is a parameter.
use virel_blockchain.Base.{
  ℕ, zero, suc, ◌*◌, ◌/◌, Bool, true, false, not, ◌||◌, ◌==◌, ltb, leb, if◌then◌else◌, Option, none,
  some, List, ◌≡◌, arith, [], ◌∷◌, ◌++◌, length, Result, ok, err, panic, ◌>>=◌, ◌>>◌, pure, fail_if,
  gets,
}
use virel_blockchain.Base.Bytes.{le_bytes, be_bytes}
use virel_blockchain.Config.{network_id, max_merge_mined_chains}
use virel_blockchain.Binary.{
  Ser, new_ser, add_uint32, add_uint64, add_fixed_byte_array, Reading, read_uint32, read_uint64,
  read_fixed_byte_array, check_error,
}
use virel_blockchain.Block.{HashingId, Commitment, Block}
use virel_blockchain.Block.Codec.{hash_size, nonce_extra_size, serialize_chains}

pub record MiningBlob : Type 0 where
  pub timestamp : ℕ
  pub nonce : ℕ
  pub nonce_extra : ℕ
  pub chains : List HashingId

-- The seven bytes that mark a mining blob.
abbrev pub id_entropy : ℕ
id_entropy = 0x31_abce_87fe_e4cc

abbrev pub entropy_size : ℕ
entropy_size = 7

unfoldable pub serialize_mining_blob : MiningBlob → Ser
serialize_mining_blob m =
    let s = add_uint64 new_ser m.timestamp in
    let s = add_fixed_byte_array nonce_extra_size s m.nonce_extra in
    let s = add_uint64 s (length m.chains) in
    let s = add_fixed_byte_array entropy_size s id_entropy in
    let s = add_uint32 s m.nonce in serialize_chains s m.chains

unfoldable pub deserialize_mining_chains : (count : ℕ) → Reading (List HashingId)
deserialize_mining_chains zero = pure []
deserialize_mining_chains (suc n) = do
  chain_network ← read_uint64
  hash ← read_fixed_byte_array hash_size
  vs ← deserialize_mining_chains n
  pure (record { network_id = chain_network; hash = hash } ∷ vs)

unfoldable pub deserialize_mining_blob : Reading MiningBlob
deserialize_mining_blob = do
  timestamp ← read_uint64
  nonce_extra ← read_fixed_byte_array nonce_extra_size
  num_chains ← read_uint64
  entropy ← read_fixed_byte_array entropy_size
  check_error
  fail_if (num_chains == 0 || ltb max_merge_mined_chains num_chains) tt
  fail_if (not (entropy == id_entropy)) tt
  nonce ← read_uint32
  chains ← deserialize_mining_chains num_chains
  check_error
  left ← gets (λ d. length d.unread)
  fail_if (not (left == 0)) tt
  pure record { timestamp = timestamp; nonce = nonce; nonce_extra = nonce_extra; chains = chains }

-- SEEDHASH_DURATION is four days.
abbrev pub seedhash_duration : ℕ
seedhash_duration = 345_600

unfoldable pub get_seedhash_id : (time : ℕ) → ℕ
get_seedhash_id time = time / (seedhash_duration * 1000)

abbrev pub get_seed : (digest : List ℕ → ℕ) → MiningBlob → ℕ
get_seed digest m = digest (le_bytes 8 (get_seedhash_id m.timestamp))

-- HashingID: the base hash and the ancestors.
unfoldable pub hashing_id : (digest : List ℕ → ℕ) → Commitment → HashingId
hashing_id digest c = record {
  network_id = network_id;
  hash = digest (
      be_bytes hash_size c.base_hash
      ++ (be_bytes hash_size c.ancestors.first
          ++ (be_bytes hash_size c.ancestors.second ++ be_bytes hash_size c.ancestors.third)));
}

-- Sorting by network; `none` is the panic on two chains of one network.
unfoldable pub insert_chain : HashingId → List HashingId → Option (List HashingId)
insert_chain v [] = some (v ∷ [])
insert_chain v (c ∷ cs) =
    let rest = insert_chain v cs in
    if ltb v.network_id c.network_id
    then some (v ∷ c ∷ cs)
    else if ltb c.network_id v.network_id
    then elim rest [ none ↦ none | some l ↦ some (c ∷ l) ]
    else none

unfoldable pub sort_chains : List HashingId → Option (List HashingId)
sort_chains [] = some []
sort_chains (v ∷ vs) = elim (sort_chains vs) [ none ↦ none | some l ↦ insert_chain v l ]

unfoldable pub mining_blob : (digest : List ℕ → ℕ) → Commitment → Option MiningBlob
mining_blob digest c = elim (sort_chains (c.other_chains ++ hashing_id digest c ∷ [])) [
  | none ↦ none
  | some chains ↦ some record {
    timestamp = c.timestamp;
    nonce = c.nonce;
    nonce_extra = c.nonce_extra;
    chains = chains;
  }
]

unfoldable pub sort_other_chains : Block → Option Block
sort_other_chains b = elim (sort_chains b.other_chains) [
  | none ↦ none
  | some chains ↦ some (record b { other_chains = chains })
]

pub data MiningError : Type 0 where
  not_sorted duplicate_network no_network : MiningError

-- The loop over the chains of the blob: at the first of another network the function returns.
unfoldable pub take_chains :
    (contains_network : Bool) → List HashingId → Result MiningError (List HashingId)
take_chains contains_network [] = if contains_network then ok [] else err no_network
take_chains contains_network (v ∷ vs) =
    let rest = take_chains true vs in
    if not (v.network_id == network_id)
    then (if leb v.network_id 0 then err not_sorted else ok (v ∷ []))
    else if contains_network
    then err duplicate_network
    else rest

unfoldable pub set_mining_blob : MiningBlob → Block → Result MiningError Block
set_mining_blob m b = elim (take_chains false m.chains) [
  | err e ↦ err e
  | panic ↦ panic
  | ok chains ↦ ok (record b {
    timestamp = m.timestamp;
    nonce = m.nonce;
    nonce_extra = m.nonce_extra;
    other_chains = chains;
  })
]

-- A blob whose first chain is of another network leaves that chain only: the chains behind it are lost,
-- and whether the blob has a chain of this network is not looked at.
take_chains_stops :
    (v : HashingId) (vs : List HashingId)
    → (v.network_id == network_id) ≡ false
    → leb v.network_id 0 ≡ false
    → take_chains false (v ∷ vs) ≡ ok (v ∷ [])
unfolding take_chains
take_chains_stops v vs foreign positive = ground arith
