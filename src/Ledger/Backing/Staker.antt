-- ===== src/Ledger/Backing/Staker.antt =====
-- On a backed ledger the choice of the staker, which ApplyBlockToState of blockchain/blockchain.go makes,
-- always finds a delegate.
use virel_blockchain.Base.{◌^◌, ◌<◌, ◌≡◌, refl, ap, ◌∙◌, sym, List, [], ◌∷◌, ok, arith, All}
use mathlib.Core.List.{Permᴰ}
use virel_blockchain.Base.Dict.{Dict}
use virel_blockchain.Block.{Block, prev_hash}
use virel_blockchain.Chaintype.{Delegate, DelegatedFund}
use virel_blockchain.Chaintype.Totals.{sum_funds, IsWordFunds}
use virel_blockchain.Staking.Selection.{
  sum_stakes, HasWordFunds, IsDrawn, drawn, get_staker-IsDrawn,
}
use virel_blockchain.Ledger.{Ledger}
use virel_blockchain.Ledger.Blocks.{Environment, chosen_staker}
use virel_blockchain.Ledger.Backing.{IsBacked, delegate_stakes}

abbrev pub values : Dict Delegate → List Delegate
values [] = []
values ((k, d) ∷ rest) = d ∷ values rest

sum_stakes-values :
    (entries : Dict Delegate) → sum_stakes (values entries) ≡ delegate_stakes entries
sum_stakes-values [] = refl
sum_stakes-values ((k, d) ∷ rest) = omega (arith, sum_stakes-values rest)

-- The order of the delegates does not matter for the sum of their stakes.
sum_stakes-Permᴰ : (ds es : List Delegate) → Permᴰ ds es → sum_stakes ds ≡ sum_stakes es
sum_stakes-Permᴰ _ _ Permᴰ.nil = refl
sum_stakes-Permᴰ _ _ (Permᴰ.cons e p) =
    omega (arith, ap (λ (d : Delegate). sum_funds d.funds) e, sum_stakes-Permᴰ _ _ p)
sum_stakes-Permᴰ _ _ (Permᴰ.swap e f) =
    omega (
      arith,
      ap (λ (d : Delegate). sum_funds d.funds) e,
      ap (λ (d : Delegate). sum_funds d.funds) f,
    )
sum_stakes-Permᴰ _ _ (Permᴰ.trans p q) = sum_stakes-Permᴰ _ _ p ∙ sum_stakes-Permᴰ _ _ q

sum_funds-IsWordFunds : (fs : List DelegatedFund) → sum_funds fs < 2 ^ 64 → IsWordFunds fs
sum_funds-IsWordFunds [] h = tt
sum_funds-IsWordFunds (f ∷ fs) h = (omega arith, sum_funds-IsWordFunds fs (omega arith))

sum_stakes-HasWordFunds : (ds : List Delegate) → sum_stakes ds < 2 ^ 64 → All HasWordFunds ds
sum_stakes-HasWordFunds [] h = tt
sum_stakes-HasWordFunds (d ∷ ds) h =
    (sum_funds-IsWordFunds d.funds (omega arith), sum_stakes-HasWordFunds ds (omega arith))

-- If the staked amount is backed and not zero, and the database lists exactly the stored delegates, in any
-- order, the staker of the next block is found: the choice neither fails nor panics, changes nothing, and
-- gives the delegate whose stake covers the number that the hash of the previous block draws.
pub chosen_staker-IsDrawn :
    (env : Environment) (bl : Block) (s : Ledger)
    → Permᴰ (values s.delegates) (env.list_delegates s.delegates)
    → IsBacked s
    → 0 < s.stats.staked_amount
    → (d : Delegate) × (chosen_staker env bl s ≡ (ok d, s))
      × IsDrawn (drawn (prev_hash bl) s.stats.staked_amount) (env.list_delegates s.delegates) (ok d)
unfolding chosen_staker
chosen_staker-IsDrawn env bl s listed b pos =
    let ds = env.list_delegates s.delegates in
    let total : s.stats.staked_amount ≡ sum_stakes ds =
      b.backed
      ∙ sym (sum_stakes-values s.delegates)
      ∙ sum_stakes-Permᴰ (values s.delegates) ds listed in
    let found =
      get_staker-IsDrawn (prev_hash bl) s.stats.staked_amount ds
        (sum_stakes-HasWordFunds ds (omega (arith, b.fits))) total b.fits pos in
    (found.at.chosen, rw (found.is_chosen) refl, record { at = found.at; is_chosen = refl })
