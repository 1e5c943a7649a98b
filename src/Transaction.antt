-- ===== src/Transaction.antt =====
-- The data of a transaction: transaction/inout.go, transaction/transaction.go and
-- transaction/tx_data.go. A fixed byte array ([22]byte, [32]byte, [64]byte) is the number that its
-- bytes spell, first byte most significant; a byte slice is a list of numbers.
pub mod Amounts
pub mod Validity
pub mod Balance
pub mod Codec
use virel_blockchain.Base.{ℕ, ◌^◌, ◌<◌, List, length}

-- The zero address is invalid; a delegate's address has the identifier in its last eight bytes.
abbrev pub invalid_address : ℕ
invalid_address = 0

abbrev pub new_delegate_address : ℕ → ℕ
new_delegate_address id = id

pub record Output : Type 0 where
  pub recipient : ℕ
  pub payment_id : ℕ
  pub amount : ℕ

pub data StateInputType : Type 0 where
  in_normal in_unstake : StateInputType

pub record StateInput : Type 0 where
  pub amount : ℕ
  pub sender : ℕ
  pub kind : StateInputType
  pub extra_data : ℕ

pub data StateOutputType : Type 0 where
  out_normal out_coinbase_dev out_coinbase_pow out_coinbase_pos out_coinbase_burn : StateOutputType
  out_stake : StateOutputType

pub record StateOutput : Type 0 where
  pub kind : StateOutputType
  pub amount : ℕ
  pub recipient : ℕ
  pub payment_id : ℕ
  pub extra_data : ℕ

-- The implementations of the interface TransactionData.
pub data TransactionData : Type 0 where
  transfer : (outputs : List Output) → TransactionData
  register_delegate : (name : List ℕ) (id : ℕ) → TransactionData
  set_delegate : (delegate_id previous_delegate : ℕ) → TransactionData
  stake : (amount delegate_id prev_unlock : ℕ) → TransactionData
  unstake : (amount delegate_id : ℕ) → TransactionData

pub record Transaction : Type 0 where
  pub version : ℕ
  pub signer : ℕ
  pub signature : ℕ
  pub body : TransactionData
  pub nonce : ℕ
  pub fee : ℕ

-- The codes TX_VERSION_…
abbrev pub tx_version_transfer : ℕ
tx_version_transfer = 1

abbrev pub tx_version_register_delegate : ℕ
tx_version_register_delegate = 2

abbrev pub tx_version_set_delegate : ℕ
tx_version_set_delegate = 3

abbrev pub tx_version_stake : ℕ
tx_version_stake = 4

abbrev pub tx_version_unstake : ℕ
tx_version_unstake = 5
