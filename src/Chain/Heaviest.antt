-- ===== src/Chain/Heaviest.antt =====
-- The chain with the most work: the tip that CheckReorgs chooses.
use virel_blockchain.Base.{
  ℕ, ◌≤◌, ◌<◌, ◌≡◌, refl, ◌∙◌, ◌⊎◌, inl, inr, Bool, true, false, if◌then◌else◌, [], ◌∷◌, All, arith,
  Bool-cases,
}
use virel_blockchain.Base.Dict.{Dict}
use virel_blockchain.Uint128
use virel_blockchain.Uint128.{Uint128, IsWord, value, Comparison, less, same, greater}
use virel_blockchain.Uint128.Arith.{cmp-compare_values}
use virel_blockchain.Stats.{AltchainTip}
use virel_blockchain.Chain.Reorg.{is_greater, better, best_tip}

if_induction :
    (P : AltchainTip → Type 0) (c : Bool) (x y : AltchainTip) → P x → P y → P (if c then x else y)
if_induction P true x y hx hy = hx
if_induction P false x y hx hy = hy

-- A tip is not heavier than a cumulative difficulty.
abbrev pub IsWithin : Uint128 → ℕ × AltchainTip → Type 0
IsWithin d p = value (p.1.cumulative_diff) ≤ value d

module _ (u v : Uint128) (hu : IsWord u) (hv : IsWord v) where
  greater-lt : is_greater (Uint128.cmp u v) ≡ true → value v < value u
  greater-lt e = ground (arith, cmp-compare_values u v hu hv)

  not_greater-le : is_greater (Uint128.cmp u v) ≡ false → value u ≤ value v
  not_greater-le e = ground (arith, cmp-compare_values u v hu hv)

pub IsWithin-mono :
    (c d : Uint128) (tips : Dict AltchainTip)
    → value c ≤ value d
    → All (IsWithin c) tips
    → All (IsWithin d) tips
IsWithin-mono c d [] le h = tt
IsWithin-mono c d (p ∷ tips) le (h, hs) = (omega arith, IsWithin-mono c d tips le hs)

abbrev pub IsWordTip : ℕ × AltchainTip → Type 0
IsWordTip p = IsWord (p.1.cumulative_diff)

module _ (best v : AltchainTip) (hb : IsWord best.cumulative_diff)
    (hv : IsWord v.cumulative_diff) where
  better_heaviest :
      IsWord ((better best v).cumulative_diff)
      × (value best.cumulative_diff ≤ value ((better best v).cumulative_diff))
      × (value v.cumulative_diff ≤ value ((better best v).cumulative_diff))
  unfolding better
  better_heaviest =
      elim (Bool-cases (is_greater (Uint128.cmp v.cumulative_diff best.cumulative_diff))) [
        | inl e ↦
            let lt = greater-lt v.cumulative_diff best.cumulative_diff hv hb e in
            rw e (hv, omega arith, omega arith)
        | inr e ↦
            let le = not_greater-le v.cumulative_diff best.cumulative_diff hv hb e in
            rw e (hb, omega arith, le)
      ]

  better_same_or_heavier :
      (better best v ≡ best)
      ⊎ (value best.cumulative_diff < value ((better best v).cumulative_diff))
  unfolding better
  better_same_or_heavier =
      elim (Bool-cases (is_greater (Uint128.cmp v.cumulative_diff best.cumulative_diff))) [
        | inl e ↦ rw e (inr (greater-lt v.cumulative_diff best.cumulative_diff hv hb e))
        | inr e ↦ rw e (inl refl)
      ]

-- What is found: it is as heavy as the start and every tip.
pub best_tip_heaviest :
    (best : AltchainTip) (tips : Dict AltchainTip)
    → IsWord best.cumulative_diff
    → All IsWordTip tips
    → (value best.cumulative_diff ≤ value ((best_tip best tips).cumulative_diff))
      × All (IsWithin ((best_tip best tips).cumulative_diff)) tips
unfolding best_tip
best_tip_heaviest best [] word words = (omega arith, tt)
best_tip_heaviest best ((key, v) ∷ tips) word (hv, words) =
    let step = better_heaviest best v word hv in
    let ih = best_tip_heaviest (better best v) tips step.0 words in
    (omega (arith, step.1, ih.0), (omega (arith, step.2, ih.0), ih.1))

better_induction :
    (P : AltchainTip → Type 0) (best v : AltchainTip) → P best → P v → P (better best v)
unfolding better
better_induction P best v hb hv =
    if_induction P (is_greater (Uint128.cmp v.cumulative_diff best.cumulative_diff)) v best hv hb

-- It is the start or one of the tips, with what holds of these.
pub best_tip_induction :
    (P : AltchainTip → Type 0) (best : AltchainTip) (tips : Dict AltchainTip)
    → P best
    → All (λ (p : ℕ × AltchainTip). P (p.1)) tips
    → P (best_tip best tips)
unfolding best_tip
best_tip_induction P best [] h hs = h
best_tip_induction P best ((key, v) ∷ tips) h (hv, hs) =
    best_tip_induction P (better best v) tips (better_induction P best v h hv) hs

-- A best tip that is not the start is heavier than the start.
pub best_tip_same_or_heavier :
    (best : AltchainTip) (tips : Dict AltchainTip)
    → IsWord best.cumulative_diff
    → All IsWordTip tips
    → (best_tip best tips ≡ best)
      ⊎ (value best.cumulative_diff < value ((best_tip best tips).cumulative_diff))
unfolding best_tip
best_tip_same_or_heavier best [] word words = inl refl
best_tip_same_or_heavier best ((key, v) ∷ tips) word (hv, words) =
    let step = better_heaviest best v word hv in
    elim (better_same_or_heavier best v word hv) [
      | inl kept ↦ elim (best_tip_same_or_heavier (better best v) tips step.0 words) [
        | inl e ↦ inl (e ∙ kept)
        | inr lt ↦ inr (omega (arith, step.1))
      ]
      | inr lt ↦ inr (omega (arith, (best_tip_heaviest (better best v) tips step.0 words).0))
    ]
