-- ===== src/Block/Codec/Parts.antt =====
-- Reading back the parts of a block: ancestors, merge-mined chains, commitments, difficulties and
-- hashes.
use virel_blockchain.Base.{
  ℕ, zero, suc, ◌^◌, ◌≤◌, ◌<◌, ◌≡◌, refl, ◌∙◌, ap, subst, ◌==◌, le→ltb, ◌&&◌, Bool-cases, ==→eq,
  inl, inr, if◌then◌else◌, List, [], ◌∷◌, ◌++◌, length, length-append, take, take-all, replicate,
  All, arith, IsU64,
}
use virel_blockchain.Base.Bytes.{le_bytes, be_bytes, length-le_bytes, of_le_bytes-le_bytes}
use mathlib.Core.List.{append_assoc}
use virel_blockchain.Uint128.{Uint128, IsWord, from_bytes, put_bytes}
use virel_blockchain.Binary.Reads.{
  Reads, Reads-pure, Reads-bind, Reads-last, Reads-bytes, Reads-checked, Reads-passed,
  Reads-check_error, front_take, front_drop, Reads-uint32, Reads-uint64, Reads-uvarint,
  Reads-fixed_byte_array, Reads-byte_slice,
}
use virel_blockchain.Block.{HashingId, Ancestors, Commitment}
use virel_blockchain.Block.Codec.{
  hash_size, nonce_extra_size, deserialize_ancestors, deserialize_chains, read_chains,
  deserialize_commitment, deserialize_side_blocks, read_side_blocks, trim_zeros, is_empty,
  deserialize_difficulty, deserialize_hashes,
}
use virel_blockchain.Block.Codec.Bytes.{
  ancestors_bytes, chains_bytes, counted_chains_bytes, commitment_bytes, side_blocks_bytes,
  counted_side_blocks_bytes, difficulty_bytes, hashes_bytes,
}

abbrev pub IsHash : ℕ → Type 0
IsHash h = h < 256 ^ hash_size

pub record IsAncestors (a : Ancestors) : Type 0 where
  pub first_fits : IsHash a.first
  pub second_fits : IsHash a.second
  pub third_fits : IsHash a.third

abbrev pub IsHashingId : HashingId → Type 0
IsHashingId v = IsU64 v.network_id × IsHash v.hash

-- The fields are values of their Go types, and there are at most 15 chains.
pub record IsCommitment (c : Commitment) : Type 0 where
  pub base_hash_fits : IsHash c.base_hash
  pub ancestors_fit : IsAncestors c.ancestors
  pub timestamp_fits : IsU64 c.timestamp
  pub nonce_fits : c.nonce < 2 ^ 32
  pub nonce_extra_fits : c.nonce_extra < 256 ^ nonce_extra_size
  pub chains_fit : All IsHashingId c.other_chains
  pub few_chains : length c.other_chains ≤ 15

pub Reads-deserialize_ancestors :
    (a : Ancestors) → IsAncestors a → Reads deserialize_ancestors (ancestors_bytes a) a
unfolding deserialize_ancestors
Reads-deserialize_ancestors a fits =
    Reads-bind _ (Reads-fixed_byte_array hash_size a.first fits.first_fits) (
      Reads-bind _ (Reads-fixed_byte_array hash_size a.second fits.second_fits) (
        Reads-last (λ (h : ℕ). record a { third = h })
          (Reads-fixed_byte_array hash_size a.third fits.third_fits)))

Reads-deserialize_chains :
    (vs : List HashingId)
    → All IsHashingId vs
    → Reads (deserialize_chains (length vs)) (chains_bytes vs) vs
unfolding deserialize_chains
Reads-deserialize_chains [] h = Reads-pure []
Reads-deserialize_chains (v ∷ vs) ((hn, hh), hs) =
    Reads-bytes
      (append_assoc (le_bytes 8 v.network_id) (be_bytes hash_size v.hash) (chains_bytes vs))
      (Reads-bind _ {front = []} Reads-check_error (
        Reads-bind _ (Reads-uint64 v.network_id hn) (
          Reads-bind _ (Reads-fixed_byte_array hash_size v.hash hh)
            (Reads-last (λ (l : List HashingId). v ∷ l) (Reads-deserialize_chains vs hs)))))

pub Reads-read_chains :
    (vs : List HashingId)
    → All IsHashingId vs
    → length vs ≤ 15
    → Reads read_chains (counted_chains_bytes vs) vs
unfolding read_chains
Reads-read_chains vs h few =
    Reads-bind _ (Reads-uvarint (length vs) (omega arith))
      (Reads-passed _ (le→ltb 15 (length vs) few) (Reads-deserialize_chains vs h))

Reads-deserialize_commitment :
    (c : Commitment) → IsCommitment c → Reads deserialize_commitment (commitment_bytes c) c
unfolding deserialize_commitment
Reads-deserialize_commitment c fits =
    Reads-bind _ (Reads-fixed_byte_array hash_size c.base_hash fits.base_hash_fits) (
      Reads-bind _ (Reads-deserialize_ancestors c.ancestors fits.ancestors_fit) (
        Reads-bind _ (Reads-uvarint c.timestamp fits.timestamp_fits) (
          Reads-bind _ (Reads-uint32 c.nonce fits.nonce_fits) (
            Reads-bind _
              (Reads-fixed_byte_array nonce_extra_size c.nonce_extra fits.nonce_extra_fits)
              (Reads-checked (λ (l : List HashingId). record c { other_chains = l })
                (Reads-read_chains c.other_chains fits.chains_fit fits.few_chains))))))

Reads-deserialize_side_blocks :
    (vs : List Commitment)
    → All IsCommitment vs
    → Reads (deserialize_side_blocks (length vs)) (side_blocks_bytes vs) vs
unfolding deserialize_side_blocks
Reads-deserialize_side_blocks [] h = Reads-pure []
Reads-deserialize_side_blocks (v ∷ vs) (h, hs) = Reads-bind _ {front = []} Reads-check_error (
    Reads-bind _ (Reads-deserialize_commitment v h)
      (Reads-last (λ (l : List Commitment). v ∷ l) (Reads-deserialize_side_blocks vs hs)))

pub Reads-read_side_blocks :
    (vs : List Commitment)
    → All IsCommitment vs
    → length vs ≤ 2
    → Reads read_side_blocks (counted_side_blocks_bytes vs) vs
unfolding read_side_blocks
Reads-read_side_blocks vs h few =
    Reads-bind _ (Reads-uvarint (length vs) (omega arith))
      (Reads-passed _ (le→ltb 2 (length vs) few) (Reads-deserialize_side_blocks vs h))

trimmed_head :
    (b n : ℕ) (trimmed bs : List ℕ)
    → take (length bs) (trimmed ++ replicate n 0) ≡ bs
    → take (length bs) (trimmed ++ replicate (suc n) 0) ≡ bs
    → take
        (suc (length bs))
        ((if is_empty trimmed && b == 0 then [] else b ∷ trimmed) ++ replicate (suc n) 0)
      ≡ b ∷ bs
trimmed_head b n [] bs h h' = elim (Bool-cases (b == 0)) [
  | inl e ↦ rw e (cc (h, ==→eq b 0 e))
  | inr e ↦ rw e (ap (λ (l : List ℕ). b ∷ l) h')
]
trimmed_head b n (t ∷ ts) bs h h' = ap (λ (l : List ℕ). b ∷ l) h'

-- The zeros that were cut off are there again after the copy.
take-trim_zeros :
    (n : ℕ) (l : List ℕ) → length l ≤ n → take (length l) (trim_zeros l ++ replicate n 0) ≡ l
unfolding trim_zeros
take-trim_zeros n [] h = refl
take-trim_zeros zero (b ∷ bs) h = absurd (omega arith)
take-trim_zeros (suc n) (b ∷ bs) h =
    trimmed_head b n (trim_zeros bs) bs (take-trim_zeros n bs (omega arith))
      (take-trim_zeros (suc n) bs (omega arith))

length-trim_zeros : (l : List ℕ) → length (trim_zeros l) ≤ length l
unfolding trim_zeros
length-trim_zeros [] = omega arith
length-trim_zeros (b ∷ bs) = ground (arith, length-trim_zeros bs)

length-put_bytes : (d : Uint128) → length (put_bytes d) ≡ 16
unfolding put_bytes
length-put_bytes d = omega (
  arith,
  length-append (le_bytes 8 d.lo) (le_bytes 8 d.hi),
  length-le_bytes 8 d.lo,
  length-le_bytes 8 d.hi,
)

from_bytes-put_bytes : (d : Uint128) → IsWord d → from_bytes (put_bytes d) ≡ d
unfolding from_bytes put_bytes
from_bytes-put_bytes d w =
    let low = le_bytes 8 d.lo in
    let high = le_bytes 8 d.hi in
    let eight = length-le_bytes 8 d.lo in
    cc (
      front_take low high 8 eight,
      front_drop low high 8 eight,
      take-all high,
      length-le_bytes 8 d.hi,
      of_le_bytes-le_bytes 8 d.lo w.lo_word,
      of_le_bytes-le_bytes 8 d.hi w.hi_word,
    )

pub Reads-deserialize_difficulty :
    (d : Uint128) → IsWord d → Reads deserialize_difficulty (difficulty_bytes d) d
unfolding deserialize_difficulty
Reads-deserialize_difficulty d w = Reads-bytes refl (
    subst (Reads _ (difficulty_bytes d)) padded (
      Reads-last (λ (l : List ℕ). from_bytes (take 16 (l ++ replicate 16 0)))
        (Reads-byte_slice (trim_zeros (put_bytes d))
          (omega (arith, length-trim_zeros (put_bytes d), length-put_bytes d)))))
  where
    padded : from_bytes (take 16 (trim_zeros (put_bytes d) ++ replicate 16 0)) ≡ d
    padded =
        ap from_bytes (
          subst (λ n. take n (trim_zeros (put_bytes d) ++ replicate 16 0) ≡ put_bytes d)
            (length-put_bytes d)
            (take-trim_zeros 16 (put_bytes d) (omega (arith, length-put_bytes d))))
        ∙ from_bytes-put_bytes d w

pub Reads-deserialize_hashes :
    (vs : List ℕ) → All IsHash vs → Reads (deserialize_hashes (length vs)) (hashes_bytes vs) vs
unfolding deserialize_hashes
Reads-deserialize_hashes [] h = Reads-pure []
Reads-deserialize_hashes (v ∷ vs) (h, hs) = Reads-bind _ (Reads-fixed_byte_array hash_size v h) (
    Reads-bind _ {front = []} Reads-check_error
      (Reads-last (λ (l : List ℕ). v ∷ l) (Reads-deserialize_hashes vs hs)))
