-- ===== src/Staking.antt =====
-- The choice of the delegate that stakes the next block: GetStaker of blockchain/staking.go.
pub mod Selection
use virel_blockchain.Base.{
  ℕ, ◌+◌, ◌*◌, ◌%◌, ◌^◌, Bool, true, false, Option, none, some, List, [], ◌∷◌, Result, ok, err,
  panic, ltb, leb, ◌==◌, if◌then◌else◌, add64, take,
}
use virel_blockchain.Base.Bytes.{be_bytes}
use virel_blockchain.Uint128
use virel_blockchain.Uint128.{Uint128, from_bytes}
use virel_blockchain.Chaintype
use virel_blockchain.Chaintype.{Delegate}

-- The first half of the hash, as a little-endian number, modulo the staked supply.
unfoldable pub hash_to_coin_index : (hash staked_supply : ℕ) → Option ℕ
hash_to_coin_index hash staked_supply =
    Uint128.mod_64 (from_bytes (take 16 (be_bytes 32 hash))) staked_supply

-- The loop of GetDelegates over the delegates in the order of the database: `none` says that none
-- of them was chosen.
unfoldable pub select :
    (coin_index coins_seen : ℕ) → List Delegate → Result (Unit {0}) (Option Delegate)
select coin_index coins_seen [] = ok none
select coin_index coins_seen (d ∷ ds) = elim (Chaintype.total_amount d) [
  | none ↦ panic
  | some t ↦
      let seen = add64 coins_seen t in
      let rest = select coin_index seen ds in
      if ltb seen coins_seen then panic else if leb coin_index seen then ok (some d) else rest
]

abbrev pub dummy_delegate : Delegate
dummy_delegate = record { id = 0; owner = 0; name = []; funds = [] }

-- `err` stands for "no valid delegate found".
unfoldable pub get_staker : (hash staked_amount : ℕ) → List Delegate → Result (Unit {0}) Delegate
get_staker hash staked_amount ds =
    if staked_amount == 0 then ok dummy_delegate else elim (hash_to_coin_index hash staked_amount) [
      | none ↦ panic
      | some i ↦ elim (select i 0 ds) [
        | ok (some d) ↦ ok d
        | ok none ↦ err tt
        | err e ↦ err e
        | panic ↦ panic
      ]
    ]
