-- ===== src/Ledger/Coins/Versions.antt =====
-- What the steps of a transaction's version leave alone.
use virel_blockchain.Base.{ℕ, Bool, false, arith}
use virel_blockchain.Chaintype.{State}
use virel_blockchain.Transaction
use virel_blockchain.Transaction.{
  TransactionData, transfer, register_delegate, stake, unstake, Transaction,
  tx_version_register_delegate, tx_version_set_delegate, tx_version_stake, tx_version_unstake,
}
use virel_blockchain.Ledger.{
  Ledger, IsSame, get_delegate, set_delegate, stats_staked, stats_unstaked,
}
use virel_blockchain.Ledger.Stakes.{apply_stake, apply_unstake}
use virel_blockchain.Ledger.Apply.{
  stake_step, unstake_step, register_step, set_delegate_step, version_steps, stake_at_version,
  unstake_at_version, register_at_version, set_delegate_at_version,
}

pub apply_stake-IsSame :
    (amount delegate_id prev_unlock signer txid : ℕ) (reverse : Bool) (s : Ledger)
    → IsSame s (apply_stake amount delegate_id prev_unlock signer txid reverse s).1
unfolding apply_stake get_delegate set_delegate stats_staked
apply_stake-IsSame amount delegate_id prev_unlock signer txid reverse s = ground arith

pub apply_unstake-IsSame :
    (amount delegate_id signer : ℕ) (reverse : Bool) (prev_unlock : ℕ) (s : Ledger)
    → IsSame s (apply_unstake amount delegate_id signer reverse prev_unlock s).1
unfolding apply_unstake get_delegate set_delegate stats_unstaked
apply_unstake-IsSame amount delegate_id signer reverse prev_unlock s = ground arith

stake_step-IsSame :
    (d : TransactionData) (signer txid : ℕ) (st : State) (s : Ledger)
    → IsSame s (stake_step d signer txid st s).1
unfolding stake_step
stake_step-IsSame (stake a i p) signer txid st s =
    ground (arith, apply_stake-IsSame a i p signer txid false s)
stake_step-IsSame (transfer os) signer txid st s = ground arith
stake_step-IsSame _ signer txid st s = ground arith

unstake_step-IsSame :
    (d : TransactionData) (signer : ℕ) (st : State) (s : Ledger)
    → IsSame s (unstake_step d signer st s).1
unfolding unstake_step
unstake_step-IsSame (unstake a i) signer st s =
    ground (arith, apply_unstake-IsSame a i signer false 0 s)
unstake_step-IsSame _ signer st s = ground arith

register_step-IsSame :
    (d : TransactionData) (owner_key : ℕ) (s : Ledger) → IsSame s (register_step d owner_key s).1
unfolding register_step set_delegate
register_step-IsSame (register_delegate name id) owner_key s = ground arith
register_step-IsSame _ owner_key s = ground arith

set_delegate_step-IsSame :
    (d : TransactionData) (signer : ℕ) (st : State) (s : Ledger)
    → IsSame s (set_delegate_step d signer st s).1
unfolding set_delegate_step
set_delegate_step-IsSame (Transaction.set_delegate d p) signer st s = ground arith
set_delegate_step-IsSame _ signer st s = ground arith

stake_at_version-IsSame :
    (tx : Transaction) (signer txid : ℕ) (st : State) (s : Ledger)
    → IsSame s (stake_at_version tx signer txid st s).1
unfolding stake_at_version
stake_at_version-IsSame tx signer txid st s =
    ground (arith, stake_step-IsSame tx.body signer txid st s)

unstake_at_version-IsSame :
    (tx : Transaction) (signer : ℕ) (st : State) (s : Ledger)
    → IsSame s (unstake_at_version tx signer st s).1
unfolding unstake_at_version
unstake_at_version-IsSame tx signer st s = ground (arith, unstake_step-IsSame tx.body signer st s)

register_at_version-IsSame : (tx : Transaction) (s : Ledger) → IsSame s (register_at_version tx s).1
unfolding register_at_version
register_at_version-IsSame tx s = ground (arith, register_step-IsSame tx.body tx.signer s)

set_delegate_at_version-IsSame :
    (tx : Transaction) (signer : ℕ) (st : State) (s : Ledger)
    → IsSame s (set_delegate_at_version tx signer st s).1
unfolding set_delegate_at_version
set_delegate_at_version-IsSame tx signer st s =
    ground (arith, set_delegate_step-IsSame tx.body signer st s)

-- The steps of the version leave the account states and the transactions alone, however they end.
pub version_steps-IsSame :
    (tx : Transaction) (signer txid : ℕ) (st : State) (s : Ledger)
    → IsSame s (version_steps tx signer txid st s).1
unfolding version_steps
version_steps-IsSame tx signer txid st s = grind (
  arith, stake_at_version-IsSame, unstake_at_version-IsSame, register_at_version-IsSame,
  set_delegate_at_version-IsSame,
)
