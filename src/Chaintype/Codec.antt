-- ===== src/Chaintype/Codec.antt =====
-- Serialize and Deserialize of account states and delegates: chaintype/state.go and
-- chaintype/delegate.go.
pub mod RoundTrip
use virel_blockchain.Base.{
  ℕ, zero, suc, ◌/◌, Bool, not, ◌==◌, ltb, if◌then◌else◌, List, [], ◌∷◌, length, ◌>>=◌, ◌>>◌, pure,
  gets, fail_if,
}
use virel_blockchain.Binary.{
  Ser, new_ser, add_uint8, add_uvarint, add_fixed_byte_array, add_byte_slice, Reading, read_uint8,
  read_uvarint, read_fixed_byte_array, read_byte_slice, check_error,
}
use virel_blockchain.Chaintype.{State, DelegatedFund, Delegate}
use virel_blockchain.Transaction.Codec.{address_size, pubkey_size}

unfoldable pub serialize_state : State → Ser
serialize_state x =
    let s = add_uvarint new_ser x.balance in
    let s = add_uvarint s x.last_nonce in
    let s = add_uvarint s x.last_incoming in let s = add_uint8 s 1 in add_uvarint s x.delegate_id

-- The part behind the version byte returns no error, whatever the last read finds.
unfoldable pub deserialize_extension : Reading ℕ
deserialize_extension = do v ← read_uint8; fail_if (not (v == 1)) tt; read_uvarint

-- The delegate, which is not there in the older form: then the fresh state's 0 stays.
unfoldable pub deserialize_rest : Reading ℕ
deserialize_rest = do
  left ← gets (λ d. length d.unread)
  if ltb 0 left then deserialize_extension else check_error >> pure 0

unfoldable pub deserialize_state : Reading State
deserialize_state = do
  balance ← read_uvarint
  last_nonce ← read_uvarint
  last_incoming ← read_uvarint
  delegate_id ← deserialize_rest
  pure record {
    balance = balance;
    last_nonce = last_nonce;
    last_incoming = last_incoming;
    delegate_id = delegate_id;
  }

unfoldable pub serialize_funds : Ser → List DelegatedFund → Ser
serialize_funds s [] = s
serialize_funds s (v ∷ vs) =
    let s = add_fixed_byte_array address_size s v.owner in
    let s = add_uvarint s v.amount in let s = add_uvarint s v.unlock in serialize_funds s vs

unfoldable pub serialize_delegate : Delegate → Ser
serialize_delegate g =
    let s = add_uint8 new_ser 0 in
    let s = add_uvarint s g.id in
    let s = add_fixed_byte_array pubkey_size s g.owner in
    let s = add_byte_slice s g.name in
    let s = add_uvarint s (length g.funds) in serialize_funds s g.funds

unfoldable pub deserialize_fund : Reading DelegatedFund
deserialize_fund = do
  owner ← read_fixed_byte_array address_size
  amount ← read_uvarint
  unlock ← read_uvarint
  pure record { owner = owner; amount = amount; unlock = unlock }

unfoldable pub deserialize_funds : (count : ℕ) → Reading (List DelegatedFund)
deserialize_funds zero = pure []
deserialize_funds (suc n) = do v ← deserialize_fund; vs ← deserialize_funds n; pure (v ∷ vs)

-- The announced number of funds, which at 20 bytes each must fit what is left to read.
unfoldable pub read_fund_count : Reading ℕ
read_fund_count = do
  num_funds ← read_uvarint
  left ← gets (λ d. length d.unread)
  fail_if (ltb (left / 20) num_funds) tt
  pure num_funds

unfoldable pub deserialize_delegate : Reading Delegate
deserialize_delegate = do
  version ← read_uint8
  fail_if (not (version == 0)) tt
  id ← read_uvarint
  owner ← read_fixed_byte_array pubkey_size
  name ← read_byte_slice
  num_funds ← read_fund_count
  funds ← deserialize_funds num_funds
  check_error
  pure record { id = id; owner = owner; name = name; funds = funds }
