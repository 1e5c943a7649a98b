-- ===== src/Tests/Stakes.antt =====
-- A delegate with a stake of 70, in a ledger whose statistics say so.
use virel_blockchain.Base.{
  ok, ℕ, ◌≡◌, refl, ap, subst, Bool, true, false, Option, none, some, [], ◌∷◌, arith, ◌==◌,
  if◌then◌else◌, ==→eq,
}
use virel_blockchain.Chaintype.{Delegate}
use virel_blockchain.Transaction.{
  Transaction, stake, tx_version_stake, StateOutput, out_coinbase_pos,
}
use virel_blockchain.Transaction.Balance.{IsWordTransaction}
use virel_blockchain.Ledger.{Ledger}
use virel_blockchain.Ledger.Apply.{apply_tx_to_state}
use virel_blockchain.Ledger.Rewards.{apply_pos_reward}
use virel_blockchain.Ledger.Rewards.Payout.{IsPaid, apply_pos_reward-IsPaid}
use virel_blockchain.Ledger.Backing.{IsBacked, IsBacked-same}
use virel_blockchain.Ledger.Backing.Transactions.{apply_tx_to_state-IsBacked}
use virel_blockchain.Transaction.Amounts.{total_amount, data_total_amount}
use virel_blockchain.Ledger.Coins.Stored.{IsPayable, entry_tx}
use virel_blockchain.Ledger.Coins.Blocks.{AllPayable}
use virel_blockchain.Ledger.Backing.Blocks.{apply_block_to_state-IsBacked}
use virel_blockchain.Ledger.Backing.Staker.{values, chosen_staker-IsDrawn}
use virel_blockchain.Ledger.Blocks.{Environment, chosen_staker, apply_block_to_state}
use virel_blockchain.Staking.Selection.{IsDrawn, drawn}
use mathlib.Core.List.{Permᴰ, reverse}
use virel_blockchain.Tests.Data.{key_hash, env, block_at, empty_ledger, empty_stats}

abbrev pool : Delegate
pool = record {
  id = 4;
  owner = 9;
  name = [];
  funds =
      record { owner = 3; amount = 50; unlock = 0 }
      ∷ record { owner = 5; amount = 20; unlock = 0 }
      ∷ [];
}

abbrev staked_ledger : Ledger
staked_ledger = record empty_ledger {
  delegates = (4, pool) ∷ [];
  states =
      (
        1007,
        record { balance = 500_000_000_000; last_nonce = 0; last_incoming = 1; delegate_id = 4 },
      )
      ∷ [];
  stats = record empty_stats { staked_amount = 70 };
}

abbrev id_or_zero : Option Delegate → ℕ
id_or_zero none = 0
id_or_zero (some x) = x.id

only_pool :
    (k : ℕ) (b : Bool) (d : Delegate)
    → (k == 4) ≡ b
    → (if b then some pool else none) ≡ some d
    → d.id ≡ k
only_pool k true d h e = omega (arith, ==→eq k 4 h, ap id_or_zero e)
only_pool k false d h e = cc

staked_ledger-IsBacked : IsBacked staked_ledger
staked_ledger-IsBacked = record {
  backed = refl;
  fits = omega arith;
  own_ids = λ k d e. only_pool k (k == 4) d refl e;
}

abbrev staking : Transaction
staking = record {
  version = tx_version_stake;
  signer = 7;
  signature = 0;
  body = stake 100_000_000_000 4 0;
  nonce = 1;
  fee = 1_000_000_000;
}

staking-IsWordTransaction : IsWordTransaction staking
staking-IsWordTransaction = record { body_words = omega arith; fee_word = omega arith }

apply_tx_to_state-IsBacked_example :
    IsBacked (apply_tx_to_state key_hash staking 1007 1 12 77 staked_ledger).1
apply_tx_to_state-IsBacked_example =
    apply_tx_to_state-IsBacked key_hash staking 1007 1 12 77 staked_ledger staking-IsWordTransaction
      staked_ledger-IsBacked

abbrev reward_output : StateOutput
reward_output = record {
  kind = out_coinbase_pos;
  amount = 1_001;
  recipient = 4;
  payment_id = 0;
  extra_data = 4;
}

apply_pos_reward-IsPaid_example :
    IsPaid 4 1_001 pool staked_ledger (apply_pos_reward key_hash 12 reward_output staked_ledger)
apply_pos_reward-IsPaid_example =
    apply_pos_reward-IsPaid key_hash 12 reward_output staked_ledger pool refl refl (omega arith)
      (omega arith) (omega arith) (omega arith)

abbrev two_pools : Ledger
two_pools = record empty_ledger {
  delegates = (4, pool) ∷ (5, record pool { id = 5 }) ∷ [];
  stats = record empty_stats { staked_amount = 140 };
}

two_pools_ids :
    (k : ℕ) (a b : Bool) (d : Delegate)
    → (k == 4) ≡ a
    → (k == 5) ≡ b
    → (if a then some pool else if b then some (record pool { id = 5 }) else none) ≡ some d
    → d.id ≡ k
two_pools_ids k true b d h g e = omega (arith, ==→eq k 4 h, ap id_or_zero e)
two_pools_ids k false true d h g e = omega (arith, ==→eq k 5 g, ap id_or_zero e)
two_pools_ids k false false d h g e = cc

two_pools-IsBacked : IsBacked two_pools
two_pools-IsBacked = record {
  backed = refl;
  fits = omega arith;
  own_ids = λ k d e. two_pools_ids k (k == 4) (k == 5) d refl refl e;
}

-- A database that lists the delegates last to first.
abbrev reversed_env : Environment
reversed_env = record env { list_delegates = λ ds. reverse (values ds) }

chosen_staker-IsDrawn_example :
    (d : Delegate) × (chosen_staker reversed_env (block_at 9 21 1007 []) two_pools
      ≡ (ok d, two_pools))
    × IsDrawn (drawn 21 140) (record pool { id = 5 } ∷ pool ∷ []) (ok d)
chosen_staker-IsDrawn_example =
    chosen_staker-IsDrawn reversed_env (block_at 9 21 1007 []) two_pools (Permᴰ.swap refl refl)
      two_pools-IsBacked (omega arith)

staking_total : total_amount staking ≡ some 101_000_000_000
unfolding total_amount data_total_amount
staking_total = refl

abbrev with_staking : Ledger
with_staking = record staked_ledger { txs = (77, record { height = 0; tx = staking }) ∷ [] }

staking_stored :
    (k : ℕ) (tx : Transaction) (b : Bool)
    → entry_tx (if b then some (record { height = 0; tx = staking }) else none) ≡ some tx
    → staking ≡ tx
staking_stored k tx true e = cc
staking_stored k tx false e = cc

with_staking-AllPayable : AllPayable with_staking
with_staking-AllPayable k tx e = subst IsPayable (staking_stored k tx (k == 77) e) (record {
  words = staking-IsWordTransaction;
  total = 101_000_000_000;
  computed = staking_total;
})

apply_block_to_state-IsBacked_example :
    IsBacked (apply_block_to_state env (block_at 9 21 1007 (77 ∷ [])) 12 with_staking).1
apply_block_to_state-IsBacked_example =
    apply_block_to_state-IsBacked env (block_at 9 21 1007 (77 ∷ [])) 12 with_staking
      with_staking-AllPayable
      (IsBacked-same staked_ledger with_staking refl refl staked_ledger-IsBacked)
