-- ===== src/Staking/Selection.antt =====
-- Which delegate the coin index of a hash picks.
use virel_blockchain.Base.{
  ℕ, ◌+◌, ◌≤◌, ◌<◌, ◌^◌, ◌%◌, ◌≡◌, refl, ◌⊎◌, inl, inr, some, List, [], ◌∷◌, ◌++◌, Result, ok,
  arith, leb, if◌then◌else◌, add64, le→ltb, take, drop, subst, All, All-take, All-drop, length-take,
  IsU64, ◌∙◌, ap,
}
use virel_blockchain.Base.Bytes.{be_bytes, be_bytes-All, IsByte, of_le_bytes_bound}
use native.Mathlib.Decide.{dec_le}
use native.Mathlib.Nat.{mod-lt}
use virel_blockchain.Chaintype
use virel_blockchain.Chaintype.{Delegate}
use virel_blockchain.Chaintype.Totals.{sum_funds, IsWordFunds, total_amount-sum_funds}
use virel_blockchain.Uint128.{IsWord, from_bytes, value}
use virel_blockchain.Uint128.Division.{mod_64-exact}
use virel_blockchain.Staking.{select, get_staker, hash_to_coin_index}

-- The stake of all delegates of a list.
abbrev pub sum_stakes : List Delegate → ℕ
sum_stakes [] = 0
sum_stakes (d ∷ ds) = sum_funds d.funds + sum_stakes ds

abbrev pub HasWordFunds : Delegate → Type 0
HasWordFunds d = IsWordFunds d.funds

total_amount_fits :
    (d : Delegate)
    → HasWordFunds d
    → sum_funds d.funds < 2 ^ 64
    → Chaintype.total_amount d ≡ some (sum_funds d.funds)
total_amount_fits d w h = ground (arith, total_amount-sum_funds d w)

select_step :
    (i seen : ℕ) (d : Delegate) (ds : List Delegate)
    → HasWordFunds d
    → seen + sum_funds d.funds < 2 ^ 64
    → select i seen (d ∷ ds) ≡ (
        if leb i (seen + sum_funds d.funds)
        then ok (some d)
        else select i (seen + sum_funds d.funds) ds)
unfolding select
select_step i seen d ds w h =
    let t : ℕ = sum_funds d.funds in
    let exact : add64 seen t ≡ seen + t = omega arith in
    rw (total_amount_fits d w (omega arith), select, exact, le→ltb (seen + t) seen (omega arith))
      refl

select_past :
    (i seen : ℕ) (front : List Delegate) (d : Delegate) (back : List Delegate)
    → All HasWordFunds front
    → HasWordFunds d
    → seen + sum_stakes front + sum_funds d.funds < 2 ^ 64
    → (seen + sum_stakes front < i) ⊎ (front ≡ [])
    → i ≤ seen + sum_stakes front + sum_funds d.funds
    → select i seen (front ++ d ∷ back) ≡ ok (some d)
select_past i seen [] d back ws w room lo hi =
    ground (arith, select_step i seen d back w (omega arith))
select_past i seen (f ∷ fs) d back (wf, ws) w room (inl lo) hi = ground (
  arith,
  select_step i seen f (fs ++ d ∷ back) wf (omega arith),
  select_past i (seen + sum_funds f.funds) fs d back ws w (omega arith) (inl (omega arith))
      (omega arith),
)
select_past i seen (f ∷ fs) d back ws w room (inr e) hi = cc

-- The number that the hash draws, below the staked amount.
abbrev pub drawn : (hash staked_amount : ℕ) → ℕ
drawn hash staked_amount = value (from_bytes (take 16 (be_bytes 32 hash))) % staked_amount

-- The place of an index among delegates: `chosen` is the first whose stake, added to the stakes before
-- it, reaches the index.
pub record IsPlace (i seen : ℕ) (ds : List Delegate) : Type 0 where
  pub front : List Delegate
  pub chosen : Delegate
  pub back : List Delegate
  pub split : ds ≡ front ++ chosen ∷ back
  pub reached : i ≤ seen + sum_stakes front + sum_funds chosen.funds
  pub not_before : (seen + sum_stakes front < i) ⊎ (front ≡ [])

place :
    (i seen : ℕ) (d : Delegate) (ds : List Delegate)
    → i ≤ seen + sum_stakes (d ∷ ds)
    → IsPlace i seen (d ∷ ds)
place i seen d [] h = record {
  front = [];
  chosen = d;
  back = [];
  split = refl;
  reached = omega arith;
  not_before = inr refl;
}
place i seen d (e ∷ es) h = elim (dec_le i (seen + sum_funds d.funds)) [
  | yes here ↦ record {
    front = [];
    chosen = d;
    back = e ∷ es;
    split = refl;
    reached = omega arith;
    not_before = inr refl;
  }
  | no later ↦
      let p = place i (seen + sum_funds d.funds) e es (omega arith) in
      record {
        front = d ∷ p.front;
        chosen = p.chosen;
        back = p.back;
        split = ap (λ l. d ∷ l) p.split;
        reached = omega (arith, p.reached);
        not_before = inl (ground (arith, p.not_before));
      }
]

-- Delegate `chosen` of `ds` is the outcome, and its stake, added to the stakes before it, is the first
-- to reach the index.
pub record IsDrawn (i : ℕ) (ds : List Delegate) (outcome : Result (Unit {0}) Delegate)
    : Type 0 where
  pub at : IsPlace i 0 ds
  pub is_chosen : outcome ≡ ok at.chosen

sum_stakes-append : (fs gs : List Delegate) → sum_stakes (fs ++ gs) ≡ sum_stakes fs + sum_stakes gs
sum_stakes-append [] gs = omega arith
sum_stakes-append (f ∷ fs) gs = omega (arith, sum_stakes-append fs gs)

All-split :
    (fs : List Delegate) (d : Delegate) (gs : List Delegate)
    → All HasWordFunds (fs ++ d ∷ gs)
    → All HasWordFunds fs × HasWordFunds d
All-split [] d gs (h, hs) = (tt, h)
All-split (f ∷ fs) d gs (h, hs) = let r = All-split fs d gs hs in ((h, r.0), r.1)

from_bytes-IsWord : (b : List ℕ) → All IsByte b → IsWord (from_bytes b)
unfolding from_bytes
from_bytes-IsWord b w = record {
  lo_word = of_le_bytes_bound 8 (take 8 b) (All-take IsByte 8 b w) (length-take 8 b);
  hi_word =
      of_le_bytes_bound 8 (take 8 (drop 8 b)) (All-take IsByte 8 (drop 8 b) (All-drop IsByte 8 b w))
        (length-take 8 (drop 8 b));
}

hash_to_coin_index-drawn :
    (hash amount : ℕ)
    → IsU64 amount
    → 0 < amount
    → hash_to_coin_index hash amount ≡ some (drawn hash amount)
unfolding hash_to_coin_index
hash_to_coin_index-drawn hash amount word pos =
    mod_64-exact (from_bytes (take 16 (be_bytes 32 hash))) amount
      (from_bytes-IsWord (take 16 (be_bytes 32 hash))
        (All-take IsByte 16 (be_bytes 32 hash) (be_bytes-All 32 hash)))
      word pos

select_placed :
    (i : ℕ) (ds : List Delegate) (p : IsPlace i 0 ds)
    → All HasWordFunds ds
    → sum_stakes ds < 2 ^ 64
    → select i 0 ds ≡ ok (some p.chosen)
select_placed i ds p ws room =
    let w = All-split p.front p.chosen p.back (subst (All HasWordFunds) p.split ws) in
    ap (select i 0) p.split
    ∙ select_past i 0 p.front p.chosen p.back w.0 w.1
        (omega (arith, ap sum_stakes p.split, sum_stakes-append p.front (p.chosen ∷ p.back)))
        p.not_before p.reached

-- If the staked amount of the statistics is the stake of all delegates, is not zero and fits a word,
-- GetStaker neither fails nor panics: it returns the delegate whose stake, added to the stakes of the
-- delegates before it in the database, is the first to reach the number that the hash draws.
pub get_staker-IsDrawn :
    (hash amount : ℕ) (ds : List Delegate)
    → All HasWordFunds ds
    → amount ≡ sum_stakes ds
    → IsU64 amount
    → 0 < amount
    → IsDrawn (drawn hash amount) ds (get_staker hash amount ds)
unfolding get_staker
get_staker-IsDrawn hash amount [] ws e word pos = absurd (omega arith)
get_staker-IsDrawn hash amount (d ∷ ds) ws e word pos =
    let p =
      place (drawn hash amount) 0 d ds
        (omega (arith, mod-lt (value (from_bytes (take 16 (be_bytes 32 hash)))) pos)) in
    record {
      at = p;
      is_chosen = ground (
        arith,
        hash_to_coin_index-drawn hash amount word pos,
        select_placed (drawn hash amount) (d ∷ ds) p ws (omega arith),
      );
    }
