-- ===== src/Chaintype/Codec/RoundTrip.antt =====
-- Account states and delegates are read back as they were written.
use virel_blockchain.Base.{
  ℕ, ◌*◌, ◌/◌, ◌^◌, ◌≤◌, ◌<◌, ◌≡◌, refl, sym, ◌∙◌, false, ltb, lt→ltb, suc, List, [], ◌∷◌, ◌++◌,
  length, length-append, All, ok, arith, ◌>>=◌, IsU64,
}
use virel_blockchain.Base.Bytes.{be_bytes, length-be_bytes}
use mathlib.Core.List.{append_assoc, append-nil}
use virel_blockchain.Binary.{
  Ser, new_des, Reading, uvarint_groups, append_uvarint, add_uint8, add_uvarint,
  add_fixed_byte_array, add_byte_slice,
}
use virel_blockchain.Binary.Reads.{
  Reads, Reads-pure, Reads-bind, Reads-last, Reads-checked, Reads-passed, Reads-uint8,
  Reads-uvarint, Reads-fixed_byte_array, Reads-byte_slice,
}
use virel_blockchain.Chaintype.{State, DelegatedFund, Delegate}
use virel_blockchain.Chaintype.Codec.{
  serialize_state, deserialize_extension, deserialize_rest, deserialize_state, serialize_funds,
  serialize_delegate, deserialize_fund, deserialize_funds, read_fund_count, deserialize_delegate,
}
use virel_blockchain.Transaction.Codec.{address_size, pubkey_size}

-- The fields are values of their Go types.
pub record IsState (x : State) : Type 0 where
  pub balance_fits : IsU64 x.balance
  pub last_nonce_fits : IsU64 x.last_nonce
  pub last_incoming_fits : IsU64 x.last_incoming
  pub delegate_id_fits : IsU64 x.delegate_id

abbrev pub IsFund : DelegatedFund → Type 0
IsFund v = (v.owner < 256 ^ address_size) × IsU64 v.amount × IsU64 v.unlock

pub record IsDelegate (g : Delegate) : Type 0 where
  pub id_fits : IsU64 g.id
  pub owner_fits : g.owner < 256 ^ pubkey_size
  pub name_fits : length g.name < 2 ^ 63
  pub funds_fit : All IsFund g.funds
  pub count_fits : IsU64 (length g.funds)

Reads-deserialize_extension :
    (id : ℕ) → IsU64 id → Reads deserialize_extension (1 ∷ uvarint_groups 9 id) id
unfolding deserialize_extension
Reads-deserialize_extension id h =
    Reads-bind _ (Reads-uint8 1) (Reads-passed false refl (Reads-uvarint id h))

-- The branch with bytes left is taken.
Reads-deserialize_rest : (id : ℕ) → IsU64 id → Reads deserialize_rest (1 ∷ uvarint_groups 9 id) id
unfolding deserialize_rest
Reads-deserialize_rest id h = record {
  run = λ rest.
      rw (lt→ltb 0 (suc (length (uvarint_groups 9 id ++ rest))) (omega arith))
        ((Reads-deserialize_extension id h).run rest);
}

-- A state whose fields are 64-bit words is read back from what `serialize_state` writes.
pub deserialize_state-serialize_state :
    (x : State) (rest : List ℕ)
    → IsState x
    → deserialize_state (new_des (serialize_state x ++ rest)) ≡ (ok x, new_des rest)
deserialize_state-serialize_state x rest fits = rw bytes (whole.run rest)
  where
    bytes :
        serialize_state x
        ≡ uvarint_groups 9 x.balance
          ++ (uvarint_groups 9 x.last_nonce
              ++ (uvarint_groups 9 x.last_incoming ++ (1 ∷ uvarint_groups 9 x.delegate_id)))
    bytes = unfold serialize_state add_uvarint append_uvarint add_uint8 in simp append_assoc

    whole :
        Reads deserialize_state
          (uvarint_groups 9 x.balance
            ++ (uvarint_groups 9 x.last_nonce
                ++ (uvarint_groups 9 x.last_incoming ++ (1 ∷ uvarint_groups 9 x.delegate_id))))
          x
    whole =
        unfold deserialize_state in
        Reads-bind _ (Reads-uvarint x.balance fits.balance_fits) (
          Reads-bind _ (Reads-uvarint x.last_nonce fits.last_nonce_fits) (
            Reads-bind _ (Reads-uvarint x.last_incoming fits.last_incoming_fits) (
              Reads-last (λ (id : ℕ). record x { delegate_id = id })
                (Reads-deserialize_rest x.delegate_id fits.delegate_id_fits))))

abbrev fund_bytes : DelegatedFund → List ℕ
fund_bytes v =
    be_bytes address_size v.owner ++ (uvarint_groups 9 v.amount ++ uvarint_groups 9 v.unlock)

abbrev funds_bytes : List DelegatedFund → List ℕ
funds_bytes [] = []
funds_bytes (v ∷ vs) = fund_bytes v ++ funds_bytes vs

abbrev delegate_bytes : Delegate → List ℕ
delegate_bytes g =
    0
    ∷ (uvarint_groups 9 g.id
        ++ (be_bytes pubkey_size g.owner
            ++ ((uvarint_groups 9 (length g.name) ++ g.name)
                ++ (uvarint_groups 9 (length g.funds) ++ funds_bytes g.funds))))

serialize_funds-funds_bytes :
    (s : Ser) (vs : List DelegatedFund) → serialize_funds s vs ≡ s ++ funds_bytes vs
unfolding serialize_funds add_fixed_byte_array add_uvarint append_uvarint
serialize_funds-funds_bytes s [] = sym (append-nil s)
serialize_funds-funds_bytes s (v ∷ vs) =
    serialize_funds-funds_bytes
      (((s ++ be_bytes address_size v.owner) ++ uvarint_groups 9 v.amount)
        ++ uvarint_groups 9 v.unlock)
      vs
    ∙ simp append_assoc

serialize_delegate-delegate_bytes : (g : Delegate) → serialize_delegate g ≡ delegate_bytes g
unfolding serialize_delegate add_fixed_byte_array add_uvarint append_uvarint add_uint8
    add_byte_slice
serialize_delegate-delegate_bytes g = simp (serialize_funds-funds_bytes, append_assoc)

-- Every fund takes more than 20 bytes.
length-fund_bytes : (v : DelegatedFund) → 20 ≤ length (fund_bytes v)
length-fund_bytes v = omega (
  arith,
  length-append (be_bytes address_size v.owner)
      (uvarint_groups 9 v.amount ++ uvarint_groups 9 v.unlock),
  length-be_bytes address_size v.owner,
)

length-funds_bytes : (vs : List DelegatedFund) → length vs * 20 ≤ length (funds_bytes vs)
length-funds_bytes [] = omega arith
length-funds_bytes (v ∷ vs) = omega (
  arith,
  length-funds_bytes vs,
  length-fund_bytes v,
  length-append (fund_bytes v) (funds_bytes vs),
)

Reads-deserialize_fund : (v : DelegatedFund) → IsFund v → Reads deserialize_fund (fund_bytes v) v
unfolding deserialize_fund
Reads-deserialize_fund v (ho, ha, hu) =
    Reads-bind _ (Reads-fixed_byte_array address_size v.owner ho) (
      Reads-bind _ (Reads-uvarint v.amount ha)
        (Reads-last (λ (n : ℕ). record v { unlock = n }) (Reads-uvarint v.unlock hu)))

Reads-deserialize_funds :
    (vs : List DelegatedFund)
    → All IsFund vs
    → Reads (deserialize_funds (length vs)) (funds_bytes vs) vs
unfolding deserialize_funds
Reads-deserialize_funds [] h = Reads-pure []
Reads-deserialize_funds (v ∷ vs) (h, hs) =
    Reads-bind _ (Reads-deserialize_fund v h)
      (Reads-last (λ (l : List DelegatedFund). v ∷ l) (Reads-deserialize_funds vs hs))

-- The announced number of funds passes, since the funds are there.
Reads-read_fund_count :
    (f : ℕ → Reading Delegate) (vs : List DelegatedFund) (g : Delegate)
    → IsU64 (length vs)
    → Reads (f (length vs)) (funds_bytes vs) g
    → Reads (read_fund_count >>= f) (uvarint_groups 9 (length vs) ++ funds_bytes vs) g
unfolding read_fund_count
Reads-read_fund_count f vs g h k = record {
  run = λ rest.
      rw
        (
          append_assoc (uvarint_groups 9 (length vs)) (funds_bytes vs) rest,
          (Reads-uvarint (length vs) h).run (funds_bytes vs ++ rest),
          room rest,
        )
        (k.run rest);
}
  where
    room : (rest : List ℕ) → ltb (length (funds_bytes vs ++ rest) / 20) (length vs) ≡ false
    room rest = ground (arith, length-funds_bytes vs, length-append (funds_bytes vs) rest)

-- A delegate whose fields are values of their Go types is read back from what `serialize_delegate`
-- writes, in front of any other bytes: in particular the limit on the number of funds does not refuse
-- it.
pub deserialize_delegate-serialize_delegate :
    (g : Delegate) (rest : List ℕ)
    → IsDelegate g
    → deserialize_delegate (new_des (serialize_delegate g ++ rest)) ≡ (ok g, new_des rest)
deserialize_delegate-serialize_delegate g rest fits =
    rw (serialize_delegate-delegate_bytes g) (whole.run rest)
  where
    whole : Reads deserialize_delegate (delegate_bytes g) g
    whole =
        unfold deserialize_delegate in
        Reads-bind _ {front = 0 ∷ []} (Reads-uint8 0) (
          Reads-passed false refl (
            Reads-bind _ (Reads-uvarint g.id fits.id_fits) (
              Reads-bind _ (Reads-fixed_byte_array pubkey_size g.owner fits.owner_fits) (
                Reads-bind _ (Reads-byte_slice g.name fits.name_fits) (
                  Reads-read_fund_count _ g.funds g fits.count_fits (
                    Reads-checked (λ (l : List DelegatedFund). record g { funds = l })
                      (Reads-deserialize_funds g.funds fits.funds_fit)))))))
