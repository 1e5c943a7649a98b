-- ===== src/Binary.antt =====
-- The byte stream codec: binary/manualser.go and binary/manualdes.go. A byte slice is a list of
-- numbers below 256. The unsigned variable-length integers are those of Go's encoding/binary. A
-- reader keeps its first error, after which every read returns a zero value; only that there is an
-- error is kept, not its message. An out-of-range slice expression is a panic.
pub mod Uvarint
pub mod Reads
use virel_blockchain.Base.{
  ℕ, zero, suc, ◌+◌, ◌*◌, ◌/◌, ◌%◌, ◌^◌, Bool, true, false, ◌&&◌, ◌==◌, ltb, leb, if◌then◌else◌,
  List, [], ◌∷◌, ◌++◌, length, take, drop, Action, ok, err, panic, fail_if,
}
use virel_blockchain.Base.Bytes.{le_bytes, of_le_bytes, be_bytes, of_be_bytes}

-- The groups of seven bits, the lowest first, all but the last with the top bit set; `k` bounds the
-- number of groups after the first, and 9 is enough for a word.
unfoldable pub uvarint_groups : ℕ → ℕ → List ℕ
uvarint_groups zero x = (x % 256) ∷ []
uvarint_groups (suc k) x =
    let more = uvarint_groups k (x / 128) in if ltb x 0x80 then x ∷ [] else (x % 128 + 128) ∷ more

unfoldable pub append_uvarint : List ℕ → ℕ → List ℕ
append_uvarint s x = s ++ uvarint_groups 9 x

-- What binary.Uvarint returns: a value and the bytes taken, a negative count, or `(0, 0)`.
pub data Decoded : Type 0 where
  decoded : (value taken : ℕ) → Decoded
  too_long incomplete : Decoded

-- The byte number `i`, whose bits go to position `shift`; what is read so far lies below it, so that
-- the bitwise or is a sum.
unfoldable pub uvarint_loop : List ℕ → (i x shift : ℕ) → Decoded
uvarint_loop [] i x shift = incomplete
uvarint_loop (b ∷ bs) i x shift =
    let more = uvarint_loop bs (i + 1) (x + b % 128 * 2 ^ shift) (shift + 7) in
    if i == 10
    then too_long
    else if ltb b 0x80
    then (if i == 9 && ltb 1 b then too_long else decoded (x + b * 2 ^ shift) (i + 1))
    else more

unfoldable pub uvarint : List ℕ → Decoded
uvarint bs = uvarint_loop bs 0 0 0

-- The writer: what is written so far.
abbrev pub Ser : Type 0
Ser = List ℕ

abbrev pub new_ser : Ser
new_ser = []

unfoldable pub add_uint8 : Ser → ℕ → Ser
add_uint8 s n = s ++ n ∷ []

unfoldable pub add_uint16 : Ser → ℕ → Ser
add_uint16 s n = s ++ le_bytes 2 n

unfoldable pub add_uint32 : Ser → ℕ → Ser
add_uint32 s n = s ++ le_bytes 4 n

unfoldable pub add_uint64 : Ser → ℕ → Ser
add_uint64 s n = s ++ le_bytes 8 n

unfoldable pub add_uvarint : Ser → ℕ → Ser
add_uvarint s n = append_uvarint s n

-- The array of `size` bytes is the number that they spell, the first byte most significant.
unfoldable pub add_fixed_byte_array : (size : ℕ) → Ser → ℕ → Ser
add_fixed_byte_array size s a = s ++ be_bytes size a

-- AddFixedByteArray on bytes.
unfoldable pub add_bytes : Ser → List ℕ → Ser
add_bytes s a = s ++ a

unfoldable pub add_byte_slice : Ser → List ℕ → Ser
add_byte_slice s a = append_uvarint s (length a) ++ a

unfoldable pub add_bool : Ser → Bool → Ser
add_bool s true = s ++ 0 ∷ []
add_bool s false = s ++ 1 ∷ []

-- The reader.
pub record Des : Type 0 where
  pub unread : List ℕ
  pub failed : Bool

abbrev pub new_des : List ℕ → Des
new_des bs = record { unread = bs; failed = false }

-- A read goes on after an error that the reader keeps; `err` is an error that a caller returns.
abbrev pub Reading {ℓ} : Type ℓ → Type ℓ
Reading A = Action Des (Unit {0}) A

-- A read of `n` bytes; `absent` is what it returns on an error.
abbrev read_sized {ℓ} : {A : Type ℓ} → (n : ℕ) → (absent : A) → (List ℕ → A) → Reading A
read_sized n absent f d =
    if d.failed
    then (ok absent, d)
    else if ltb (length d.unread) n
    then (ok absent, record d { failed = true })
    else (ok (f (take n d.unread)), record d { unread = drop n d.unread })

unfoldable pub read_uint8 : Reading ℕ
read_uint8 = read_sized 1 0 of_le_bytes

unfoldable pub read_uint16 : Reading ℕ
read_uint16 = read_sized 2 0 of_le_bytes

unfoldable pub read_uint32 : Reading ℕ
read_uint32 = read_sized 4 0 of_le_bytes

unfoldable pub read_uint64 : Reading ℕ
read_uint64 = read_sized 8 0 of_le_bytes

unfoldable pub read_fixed_byte_array : (size : ℕ) → Reading ℕ
read_fixed_byte_array size = read_sized size 0 of_be_bytes

-- `binary.Uvarint` answers `(0, 0)` on a number that is cut off, which no test refuses.
unfoldable pub read_uvarint : Reading ℕ
read_uvarint d =
    if d.failed
    then (ok 0, d)
    else if ltb (length d.unread) 1
    then (ok 0, record d { failed = true })
    else elim (uvarint d.unread) [
      | too_long ↦ (ok 0, record d { failed = true })
      | incomplete ↦ (ok 0, d)
      | decoded v n ↦ (ok v, record d { unread = drop n d.unread })
    ]

-- `int(length)` is negative from 2 ^ 63 on: the test passes, and the slice expression panics.
unfoldable pub read_slice : (size : ℕ) → Reading (List ℕ)
read_slice size d =
    if leb (2 ^ 63) size
    then (panic, d)
    else if ltb (length d.unread) size
    then (ok [], record d { failed = true })
    else (ok (take size d.unread), record d { unread = drop size d.unread })

unfoldable pub read_byte_slice : Reading (List ℕ)
read_byte_slice d =
    if d.failed
    then (ok [], d)
    else if ltb (length d.unread) 1
    then (ok [], record d { failed = true })
    else elim (uvarint d.unread) [
      | too_long ↦ (ok [], record d { failed = true })
      | incomplete ↦ read_slice 0 d
      | decoded v n ↦ read_slice v (record d { unread = drop n d.unread })
    ]

-- The switch of ReadBool.
read_flag : ℕ → List ℕ → (Bool × Des)
read_flag b rest =
    if b == 1
    then (true, record { unread = rest; failed = false })
    else if b == 2
    then (false, record { unread = rest; failed = false })
    else (false, record { unread = rest; failed = true })

unfoldable pub read_bool : Reading Bool
unfolding read_flag
read_bool d = if d.failed then (ok false, d) else elim d.unread [
  | [] ↦ (ok false, record d { failed = true })
  | b ∷ rest ↦ let (v, d') = read_flag b rest in (ok v, d')
]

-- `if d.Error() != nil { return d.Error() }`
unfoldable pub check_error : Reading (Unit {0})
check_error d = if d.failed then (err tt, d) else (ok tt, d)
