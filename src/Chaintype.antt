-- ===== src/Chaintype.antt =====
-- Account states and delegates: chaintype/state.go and chaintype/delegate.go.
pub mod Totals
pub mod Codec
use virel_blockchain.Base.{
  ℕ, ◌+◌, Bool, true, false, Option, none, some, List, [], ◌∷◌, ltb, leb, ◌==◌, if◌then◌else◌,
  add64,
}

pub record State : Type 0 where
  pub balance : ℕ
  pub last_nonce : ℕ
  pub last_incoming : ℕ
  pub delegate_id : ℕ

abbrev pub empty_state : State
empty_state = record { balance = 0; last_nonce = 0; last_incoming = 0; delegate_id = 0 }

pub record DelegatedFund : Type 0 where
  pub owner : ℕ
  pub amount : ℕ
  pub unlock : ℕ

pub record Delegate : Type 0 where
  pub id : ℕ
  pub owner : ℕ
  pub name : List ℕ
  pub funds : List DelegatedFund

-- The loop of Delegate.TotalAmount; `none` is the panic on overflow.
unfoldable pub total_loop : ℕ → List DelegatedFund → Option ℕ
total_loop t [] = some t
total_loop t (v ∷ vs) =
    let rest = total_loop (add64 t v.amount) vs in if ltb (add64 t v.amount) t then none else rest

unfoldable pub total_amount : Delegate → Option ℕ
total_amount d = total_loop 0 d.funds

-- `seen` holds the owners so far.
owner_in : ℕ → List ℕ → Bool
owner_in a [] = false
owner_in a (b ∷ bs) = if a == b then true else owner_in a bs

has_duplicate : List ℕ → List DelegatedFund → Bool
unfolding owner_in
has_duplicate seen [] = false
has_duplicate seen (v ∷ vs) =
    if owner_in v.owner seen then true else has_duplicate (v.owner ∷ seen) vs

insert_fund : DelegatedFund → List DelegatedFund → List DelegatedFund
insert_fund f [] = f ∷ []
insert_fund f (g ∷ gs) = if ltb g.owner f.owner then g ∷ insert_fund f gs else f ∷ g ∷ gs

sort_by_owner : List DelegatedFund → List DelegatedFund
unfolding insert_fund
sort_by_owner [] = []
sort_by_owner (f ∷ fs) = insert_fund f (sort_by_owner fs)

-- Delegate.SortFunds: `none` is the error of a duplicate owner.
pub sort_funds : Delegate → Option Delegate
unfolding has_duplicate sort_by_owner
sort_funds d =
    if has_duplicate [] d.funds then none else some (record d { funds = sort_by_owner d.funds })
