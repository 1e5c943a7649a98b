-- ===== src/Binary/Reads.antt =====
-- What it means that a reader takes certain bytes and returns a value, with a rule for each read and
-- one for sequences.
use virel_blockchain.Base.{
  ℕ, ◌^◌, ◌≤◌, ◌<◌, ◌≡◌, refl, sym, ◌∙◌, subst, Bool, false, List, [], ◌∷◌, ◌++◌, length, take,
  drop, take-append, drop-append, length-append, ok, arith, ◌>>=◌, ◌>>◌, pure, fail_if, IsU64,
}
use virel_blockchain.Base.Bytes.{
  le_bytes, be_bytes, of_le_bytes, length-le_bytes, length-be_bytes, of_le_bytes-le_bytes,
  of_be_bytes-be_bytes,
}
use mathlib.Core.List.{append_assoc}
use virel_blockchain.Binary.{
  new_des, Reading, uvarint_groups, read_uint8, read_uint16, read_uint32, read_uint64,
  read_fixed_byte_array, read_uvarint, read_byte_slice, read_slice, check_error,
}
use virel_blockchain.Binary.Uvarint.{length-uvarint_groups, uvarint-uvarint_groups}

-- On input that starts with `bytes`, the reader returns `a` and stands behind them, without an error.
pub record Reads {ℓ} {A : Type ℓ} (r : Reading A) (bytes : List ℕ) (a : A) : Type ℓ where
  pub run : (rest : List ℕ) → r (new_des (bytes ++ rest)) ≡ (ok a, new_des rest)

module _ {ℓ} {A : Type ℓ} where
  pub Reads-pure : (a : A) → Reads (pure a) [] a
  Reads-pure a = record { run = λ rest. refl }

  pub Reads-bind {κ} :
      {B : Type κ} {m : Reading A} (f : A → Reading B) {front back : List ℕ} {a : A} {b : B}
      → Reads m front a
      → Reads (f a) back b
      → Reads (m >>= f) (front ++ back) b
  Reads-bind f {front} {back} hm hf = record {
    run = λ rest. rw (append_assoc front back rest, hm.run (back ++ rest)) (hf.run rest);
  }

pub Reads-check_error : Reads check_error [] tt
unfolding check_error
Reads-check_error = record { run = λ rest. refl }

-- The four fixed sizes.
module _ (bytes rest : List ℕ) where
  front_length : (n : ℕ) → length bytes ≡ n → n ≤ length (bytes ++ rest)
  front_length n e = omega (arith, length-append bytes rest)

  pub front_take : (n : ℕ) → length bytes ≡ n → take n (bytes ++ rest) ≡ bytes
  front_take n e = subst (λ k. take k (bytes ++ rest) ≡ bytes) e (take-append bytes rest)

  pub front_drop : (n : ℕ) → length bytes ≡ n → drop n (bytes ++ rest) ≡ rest
  front_drop n e = subst (λ k. drop k (bytes ++ rest) ≡ rest) e (drop-append bytes rest)

pub Reads-uint8 : (x : ℕ) → Reads read_uint8 (x ∷ []) x
unfolding read_uint8 of_le_bytes
Reads-uint8 x = record { run = λ rest. ground arith }

pub Reads-uint16 : (x : ℕ) → x < 2 ^ 16 → Reads read_uint16 (le_bytes 2 x) x
unfolding read_uint16
Reads-uint16 x h = record {
  run = λ rest.
      let size = length-le_bytes 2 x in
      ground (
        arith,
        front_length (le_bytes 2 x) rest 2 size,
        front_take (le_bytes 2 x) rest 2 size,
        front_drop (le_bytes 2 x) rest 2 size,
        of_le_bytes-le_bytes 2 x,
      );
}

pub Reads-uint32 : (x : ℕ) → x < 2 ^ 32 → Reads read_uint32 (le_bytes 4 x) x
unfolding read_uint32
Reads-uint32 x h = record {
  run = λ rest.
      let size = length-le_bytes 4 x in
      ground (
        arith,
        front_length (le_bytes 4 x) rest 4 size,
        front_take (le_bytes 4 x) rest 4 size,
        front_drop (le_bytes 4 x) rest 4 size,
        of_le_bytes-le_bytes 4 x,
      );
}

pub Reads-uint64 : (x : ℕ) → IsU64 x → Reads read_uint64 (le_bytes 8 x) x
unfolding read_uint64
Reads-uint64 x h = record {
  run = λ rest.
      let size = length-le_bytes 8 x in
      ground (
        arith,
        front_length (le_bytes 8 x) rest 8 size,
        front_take (le_bytes 8 x) rest 8 size,
        front_drop (le_bytes 8 x) rest 8 size,
        of_le_bytes-le_bytes 8 x,
      );
}

pub Reads-fixed_byte_array :
    (size x : ℕ) → x < 256 ^ size → Reads (read_fixed_byte_array size) (be_bytes size x) x
unfolding read_fixed_byte_array
Reads-fixed_byte_array n x h = record {
  run = λ rest.
      let size = length-be_bytes n x in
      ground (
        arith,
        front_length (be_bytes n x) rest n size,
        front_take (be_bytes n x) rest n size,
        front_drop (be_bytes n x) rest n size,
        of_be_bytes-be_bytes n x,
      );
}

pub Reads-uvarint : (x : ℕ) → IsU64 x → Reads read_uvarint (uvarint_groups 9 x) x
unfolding read_uvarint
Reads-uvarint x h = record {
  run = λ rest. ground (
    arith,
    length-uvarint_groups 9 x,
    length-append (uvarint_groups 9 x) rest,
    uvarint-uvarint_groups x rest,
    drop-append (uvarint_groups 9 x) rest,
  );
}

read_slice_front :
    (bytes rest : List ℕ)
    → length bytes < 2 ^ 63
    → read_slice (length bytes) (new_des (bytes ++ rest)) ≡ (ok bytes, new_des rest)
unfolding read_slice
read_slice_front bytes rest h =
    ground (arith, length-append bytes rest, take-append bytes rest, drop-append bytes rest)

-- After the length, whatever it is, the bytes are taken or the slice expression panics.
pub read_byte_slice_after :
    (n : ℕ) (tail : List ℕ)
    → IsU64 n
    → read_byte_slice (new_des (uvarint_groups 9 n ++ tail)) ≡ read_slice n (new_des tail)
unfolding read_byte_slice
read_byte_slice_after n tail h = ground (
  arith,
  length-uvarint_groups 9 n,
  length-append (uvarint_groups 9 n) tail,
  uvarint-uvarint_groups n tail,
  drop-append (uvarint_groups 9 n) tail,
)

pub Reads-byte_slice :
    (bytes : List ℕ)
    → length bytes < 2 ^ 63
    → Reads read_byte_slice (uvarint_groups 9 (length bytes) ++ bytes) bytes
Reads-byte_slice bytes h = record {
  run = λ rest. rw (append_assoc (uvarint_groups 9 (length bytes)) bytes rest) (
      read_byte_slice_after (length bytes) (bytes ++ rest) (omega arith)
      ∙ read_slice_front bytes rest h);
}

-- The last read of a sequence.
pub Reads-last {ℓ κ} :
    {A : Type ℓ} {B : Type κ} {m : Reading A} {bytes : List ℕ} {a : A} (f : A → B)
    → Reads m bytes a
    → Reads (m >>= λ x. pure (f x)) bytes (f a)
Reads-last f h = record { run = λ rest. rw (h.run rest) refl }

-- And with the final test for an error.
pub Reads-checked {ℓ κ} :
    {A : Type ℓ} {B : Type κ} {m : Reading A} {bytes : List ℕ} {a : A} (f : A → B)
    → Reads m bytes a
    → Reads (m >>= λ x. check_error >> pure (f x)) bytes (f a)
unfolding check_error
Reads-checked f h = record { run = λ rest. rw (h.run rest) refl }

-- A test that does not refuse.
pub Reads-passed {ℓ} :
    {A : Type ℓ} {m : Reading A} {bytes : List ℕ} {a : A} (refused : Bool)
    → refused ≡ false
    → Reads m bytes a
    → Reads (fail_if refused tt >> m) bytes a
Reads-passed refused e h = record { run = λ rest. rw e (h.run rest) }

-- The same bytes, written otherwise.
pub Reads-bytes {ℓ} :
    {A : Type ℓ} {m : Reading A} {written bytes : List ℕ} {a : A}
    → written ≡ bytes
    → Reads m bytes a
    → Reads m written a
Reads-bytes {m} {bytes} {a} e h = subst (λ (l : List ℕ). Reads m l a) (sym e) h
