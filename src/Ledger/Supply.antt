-- ===== src/Ledger/Supply.antt =====
-- GetSupply and CheckSupply of blockchain/blockchain.go along the main chain.
use virel_blockchain.Base.{
  ℕ, suc, ◌+◌, ◌≤◌, ◌<◌, ◌^◌, ◌≡◌, ◌∙◌, ap, Bool, [], ◌∷◌, ok, arith, add64, IsU64, ◌==◌,
}
use virel_blockchain.Base.Dict.{Dict}
use virel_blockchain.Config.{max_supply}
use virel_blockchain.Chaintype.{State}
use virel_blockchain.Block.{Block}
use virel_blockchain.Emission.{reward, get_supply_at_height}
use virel_blockchain.Emission.Supply.{
  total_reward, total_reward-le, get_supply_at_height-total_reward,
}
use virel_blockchain.Ledger.{Ledger}
use virel_blockchain.Ledger.Blocks.{
  Environment, apply_block_to_state, insert_block_main, add_mainchain_block,
}
use virel_blockchain.Ledger.Coins.{coins, balances}
use virel_blockchain.Ledger.Coins.Blocks.{AllPayable, apply_block_to_state-coins}

-- The sum over the index State, modulo 2 ^ 64.
unfoldable pub supply_loop : ℕ → Dict State → ℕ
supply_loop sum [] = sum
supply_loop sum ((k, st) ∷ d) = supply_loop (add64 sum st.balance) d

unfoldable pub get_supply : Ledger → ℕ
get_supply s = supply_loop 0 s.states

-- False where the node would stop with "invalid supply".
unfoldable pub check_supply : Ledger → Bool
check_supply s = get_supply s == get_supply_at_height s.stats.top_height

supply_loop_exact :
    (sum : ℕ) (d : Dict State) → sum + balances d < 2 ^ 64 → supply_loop sum d ≡ sum + balances d
unfolding supply_loop
supply_loop_exact sum [] h = omega arith
supply_loop_exact sum ((k, st) ∷ d) h =
    let e : add64 sum st.balance ≡ sum + st.balance = omega arith in
    rw e (omega (arith, supply_loop_exact (sum + st.balance) d (omega arith)))

-- The ledgers that the main chain reaches: `MainChain env h s` says that `s` stands after the block of
-- height `h`. Between two blocks other parts of the ledger may change, such as the transactions.
pub data MainChain (env : Environment) : ℕ → Ledger → Type 0 where
  genesis :
      (bl : Block) (hash h : ℕ) (s u : Ledger)
      → coins s ≡ 0
      → AllPayable s
      → h ≡ 0
      → bl.height ≡ h
      → apply_block_to_state env bl hash s ≡ (ok tt, u)
      → MainChain env h u
  extend :
      {h : ℕ} {s : Ledger}
      → MainChain env h s
      → (bl : Block) (hash n : ℕ) (t u : Ledger) → t.states ≡ s.states
      → AllPayable t
      → n ≡ suc h
      → bl.height ≡ n
      → add_mainchain_block env bl hash t ≡ (ok tt, u)
      → MainChain env n u

add_mainchain_block-coins :
    (env : Environment) (bl : Block) (hash : ℕ) (s u : Ledger)
    → AllPayable s
    → coins s + reward bl.height < 2 ^ 64
    → add_mainchain_block env bl hash s ≡ (ok tt, u)
    → coins u ≡ coins s + reward bl.height
unfolding add_mainchain_block insert_block_main
add_mainchain_block-coins env bl hash s u all room e =
    ground (arith, apply_block_to_state-coins env bl hash s all room)

MainChain-coins :
    {env : Environment} {h : ℕ} {s : Ledger} → MainChain env h s → coins s ≡ total_reward h
unfolding total_reward
MainChain-coins {env} (genesis bl hash h s u none_yet all zero_height at e) = rw zero_height (
    ground (
      arith,
      ap reward (at ∙ zero_height),
      total_reward-le 0,
      apply_block_to_state-coins env bl hash s all,
    ))
MainChain-coins {env} (extend {h = h} {s = s} chain bl hash n t u same all step at e) = rw step (
    ground (
      arith,
      ap balances same,
      MainChain-coins chain,
      ap reward (at ∙ step),
      total_reward-le (suc h),
      add_mainchain_block-coins env bl hash t u all
          (omega (
            arith,
            ap balances same,
            MainChain-coins chain,
            ap reward (at ∙ step),
            total_reward-le (suc h),
          ))
          e,
    ))

-- Along the main chain, which starts from a ledger without coins and whose blocks are applied without
-- an error, at successive heights below 2 ^ 64 and over transactions whose amounts are words with a
-- total, the supply that the node counts is the one that the emission schedule gives for the height,
-- and it is within the maximum supply.
pub get_supply-get_supply_at_height :
    {env : Environment} {h : ℕ} {s : Ledger}
    → MainChain env h s
    → IsU64 h
    → (get_supply s ≡ get_supply_at_height h) × (get_supply s ≤ max_supply)
unfolding get_supply
get_supply-get_supply_at_height {h = h} {s = s} chain word =
    let total = MainChain-coins chain in
    let bound = total_reward-le h in
    let exact = supply_loop_exact 0 s.states (omega arith) in
    let schedule = get_supply_at_height-total_reward h word in (omega arith, omega arith)
