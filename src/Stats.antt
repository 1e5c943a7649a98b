-- ===== src/Stats.antt =====
-- The chain's statistics and the memory pool: blockchain/bc-stats.go.
use virel_blockchain.Base.{
  ℕ, Option, none, some, List, [], ◌∷◌, ltb, leb, ◌==◌, if◌then◌else◌, add64, sub64,
}
use virel_blockchain.Base.Dict.{Dict}
use virel_blockchain.Uint128.{Uint128}
use virel_blockchain.Transaction.{StateInput, Output}

pub record AltchainTip : Type 0 where
  pub hash : ℕ
  pub height : ℕ
  pub cumulative_diff : Uint128

pub record Orphan : Type 0 where
  pub hash : ℕ
  pub prev_hash : ℕ

pub record Stats : Type 0 where
  pub top_hash : ℕ
  pub top_height : ℕ
  pub cumulative_diff : Uint128
  pub tips : Dict AltchainTip
  pub orphans : Dict Orphan
  pub staked_amount : ℕ

-- Stats.Staked and Stats.Unstaked; `none` is the error.
unfoldable pub staked : Stats → ℕ → Option Stats
staked s amount =
    if ltb (add64 s.staked_amount amount) s.staked_amount
    then none
    else some (record s { staked_amount = add64 s.staked_amount amount })

unfoldable pub unstaked : Stats → ℕ → Option Stats
unstaked s amount =
    if ltb s.staked_amount (sub64 s.staked_amount amount)
    then none
    else some (record s { staked_amount = sub64 s.staked_amount amount })

pub record MempoolEntry : Type 0 where
  pub txid : ℕ
  pub tx_version : ℕ
  pub size : ℕ
  pub fee : ℕ
  pub expires : ℕ
  pub signer : ℕ
  pub inputs : List StateInput
  pub outputs : List Output

abbrev pub Mempool : Type 0
Mempool = List MempoolEntry

-- What Mempool.Serialize keeps at the time `t`.
unfoldable pub drop_expired : ℕ → Mempool → Mempool
drop_expired t [] = []
drop_expired t (v ∷ vs) = if leb t v.expires then v ∷ drop_expired t vs else drop_expired t vs

unfoldable pub get_entry : ℕ → Mempool → Option MempoolEntry
get_entry hash [] = none
get_entry hash (v ∷ vs) = if v.txid == hash then some v else get_entry hash vs

unfoldable pub delete_entry : ℕ → Mempool → Mempool
delete_entry hash [] = []
delete_entry hash (v ∷ vs) = if v.txid == hash then vs else v ∷ delete_entry hash vs
