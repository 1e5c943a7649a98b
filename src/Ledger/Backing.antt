-- ===== src/Ledger/Backing.antt =====
-- The staked amount of the statistics against the funds of all delegates.
pub mod Funds
pub mod Steps
pub mod Transactions
pub mod Staker
pub mod Rewards
pub mod Blocks
use virel_blockchain.Base.{
  ℕ, ◌+◌, ◌^◌, ◌≤◌, ◌<◌, ◌≡◌, refl, ap, ◌∙◌, sym, Option, none, some, List, [], ◌∷◌, arith, ◌==◌,
  if◌then◌else◌, IsU64, Bool-cases, inl, inr, true, false, ==→eq, subst,
}
use virel_blockchain.Base.Dict.{
  Dict, lookup, insert, lookup-insert, sum_by, sum_by-insert, sum_by-insert_new, le-sum_by,
}
use virel_blockchain.Chaintype.{Delegate}
use virel_blockchain.Chaintype.Totals.{sum_funds}
use virel_blockchain.Ledger.{Ledger}

abbrev pub delegate_stakes : Dict Delegate → ℕ
delegate_stakes = sum_by (λ d. sum_funds d.funds)

-- The funds of all delegates add up to the staked amount, which is a word, and each delegate stands
-- under its own identifier.
pub record IsBacked (s : Ledger) : Type 0 where
  pub backed : s.stats.staked_amount ≡ delegate_stakes s.delegates
  pub fits : IsU64 (s.stats.staked_amount)
  pub own_ids : (k : ℕ) (d : Delegate) → lookup k s.delegates ≡ some d → d.id ≡ k

-- Only the delegates and the staked amount count.
pub IsBacked-same :
    (s t : Ledger)
    → t.delegates ≡ s.delegates
    → t.stats.staked_amount ≡ s.stats.staked_amount
    → IsBacked s
    → IsBacked t
IsBacked-same s t same amount b = record {
  backed = amount ∙ b.backed ∙ ap delegate_stakes (sym same);
  fits = subst IsU64 (sym amount) b.fits;
  own_ids = λ k d e. b.own_ids k d (ap (lookup k) (sym same) ∙ e);
}

stake-le :
    (s : Ledger) (k : ℕ) (d : Delegate)
    → IsBacked s
    → lookup k s.delegates ≡ some d
    → sum_funds d.funds ≤ s.stats.staked_amount
stake-le s k d b e =
    omega (arith, b.backed, le-sum_by (λ (x : Delegate). sum_funds x.funds) k s.delegates e)

own_ids_after :
    (entries : Dict Delegate) (new : Delegate)
    → ((k : ℕ) (d : Delegate) → lookup k entries ≡ some d → d.id ≡ k)
    → (k : ℕ) (d : Delegate) → lookup k (insert new.id new entries) ≡ some d
    → d.id ≡ k
own_ids_after entries new own k d e = elim (Bool-cases (k == new.id)) [
  | inl here ↦ ground (arith, lookup-insert k new.id new entries)
  | inr other ↦ own k d (ground (arith, lookup-insert k new.id new entries))
]

-- A delegate is replaced by one with the same identifier, and the staked amount follows its funds.
pub replaced-IsBacked :
    (s t : Ledger) (k : ℕ) (old new : Delegate)
    → IsBacked s
    → lookup k s.delegates ≡ some old
    → new.id ≡ old.id
    → t.delegates ≡ insert new.id new s.delegates
    → t.stats.staked_amount + sum_funds old.funds ≡ s.stats.staked_amount + sum_funds new.funds
    → IsU64 (t.stats.staked_amount)
    → IsBacked t
replaced-IsBacked s t k old new b known same_id delegates amount word =
    let at : new.id ≡ k = same_id ∙ b.own_ids k old known in
    record {
      backed = omega (
        arith,
        ap delegate_stakes delegates,
        b.backed,
        sum_by-insert (λ (x : Delegate). sum_funds x.funds) new.id new old s.delegates
            (ap (λ (j : ℕ). lookup j s.delegates) at ∙ known),
      );
      fits = word;
      own_ids =
          λ j d e. own_ids_after s.delegates new b.own_ids j d (ap (lookup j) (sym delegates) ∙ e);
    }

-- A new delegate without funds.
pub registered-IsBacked :
    (s t : Ledger) (new : Delegate)
    → IsBacked s
    → lookup new.id s.delegates ≡ none
    → new.funds ≡ []
    → t.delegates ≡ insert new.id new s.delegates
    → t.stats.staked_amount ≡ s.stats.staked_amount
    → IsBacked t
registered-IsBacked s t new b absent no_funds delegates amount = record {
  backed = omega (
    arith,
    ap delegate_stakes delegates,
    b.backed,
    ap sum_funds no_funds,
    sum_by-insert_new (λ (x : Delegate). sum_funds x.funds) new.id new s.delegates absent,
  );
  fits = subst IsU64 (sym amount) b.fits;
  own_ids =
      λ j d e. own_ids_after s.delegates new b.own_ids j d (ap (lookup j) (sym delegates) ∙ e);
}
