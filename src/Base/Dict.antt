-- ===== src/Base/Dict.antt =====
-- A database index as an association list: `Get`, `Put` and `Del` of adb.Txn, with keys and values
-- already decoded, and sums over its entries.
use virel_blockchain.Base.Tests.{◌==◌, if◌then◌else◌, Bool-cases}
use virel_blockchain.Base.Lists.{All}
use mathlib.Core.Logic.{inl, inr}
use Prim.Native.Nat.{ℕ, ◌+◌, ◌≤◌}
use mathlib.Core.Path.{◌≡◌, refl, subst}
use mathlib.Core.Option.{Option, none, some}
use mathlib.Core.List.{List, [], ◌∷◌}
use native.Mathlib.Omega.{arith}

-- The entries, without an order.
abbrev pub Dict {ℓ} : (Value : Type ℓ) → Type ℓ
Dict Value = List (ℕ × Value)

module _ {ℓ} {Value : Type ℓ} where
  -- `Put`: the old entry of the key is replaced where it stands.
  abbrev pub insert : (key : ℕ) → Value → Dict Value → Dict Value
  insert key new [] = (key, new) ∷ []
  insert key new ((other, old) ∷ rest) =
      if key == other then (key, new) ∷ rest else (other, old) ∷ insert key new rest

  -- `Get`
  abbrev pub lookup : (key : ℕ) → Dict Value → Option Value
  lookup key [] = none
  lookup key ((other, found) ∷ rest) = if key == other then some found else lookup key rest

  -- `Del`
  abbrev pub erase : (key : ℕ) → Dict Value → Dict Value
  erase key [] = []
  erase key ((other, old) ∷ rest) = if key == other then rest else (other, old) ∷ erase key rest

  pub lookup-insert :
      (asked key : ℕ) (new : Value) (entries : Dict Value)
      → lookup asked (insert key new entries)
        ≡ (if asked == key then some new else lookup asked entries)
  lookup-insert asked key new [] = refl
  lookup-insert asked key new (entry ∷ rest) = ground (arith, lookup-insert asked key new rest)

  -- The sum of a number over the values of all entries.
  abbrev pub sum_by : (Value → ℕ) → Dict Value → ℕ
  sum_by f [] = 0
  sum_by f ((k, v) ∷ d) = f v + sum_by f d

  pub sum_by-insert :
      (f : Value → ℕ) (k : ℕ) (v old : Value) (d : Dict Value)
      → lookup k d ≡ some old
      → sum_by f (insert k v d) + f old ≡ sum_by f d + f v
  sum_by-insert f k v old [] e = cc
  sum_by-insert f k v old (x ∷ d) e = ground (arith, sum_by-insert f k v old d)

  pub sum_by-insert_new :
      (f : Value → ℕ) (k : ℕ) (v : Value) (d : Dict Value)
      → lookup k d ≡ none
      → sum_by f (insert k v d) ≡ sum_by f d + f v
  sum_by-insert_new f k v [] e = omega arith
  sum_by-insert_new f k v (x ∷ d) e = ground (arith, sum_by-insert_new f k v d)

  pub le-sum_by :
      (f : Value → ℕ) (k : ℕ) {v : Value} (d : Dict Value) → lookup k d ≡ some v → f v ≤ sum_by f d
  le-sum_by f k {v} [] e = cc
  le-sum_by f k {v} (x ∷ d) e = ground (arith, le-sum_by f k {v = v} d)

-- What holds of every entry.
module _ {ℓ κ} {Value : Type ℓ} (P : ℕ × Value → Type κ) where
  pub All-insert :
      (key : ℕ) (new : Value) (d : Dict Value) → P (key, new) → All P d → All P (insert key new d)
  All-insert key new [] h hs = (h, tt)
  All-insert key new ((other, old) ∷ rest) h (k, hs) = elim (Bool-cases (key == other)) [
    | inl e ↦ rw e (h, hs)
    | inr e ↦ rw e (k, All-insert key new rest h hs)
  ]

  pub All-erase : (key : ℕ) (d : Dict Value) → All P d → All P (erase key d)
  All-erase key [] hs = tt
  All-erase key ((other, old) ∷ rest) (k, hs) = elim (Bool-cases (key == other)) [
    | inl e ↦ rw e hs
    | inr e ↦ rw e (k, All-erase key rest hs)
  ]

module _ {ℓ κ} {Value : Type ℓ} (P : Value → Type κ) where
  pub All-lookup :
      (key : ℕ) (found : Value) (d : Dict Value)
      → All (λ (p : ℕ × Value). P (p.1)) d
      → lookup key d ≡ some found
      → P found
  All-lookup key found [] hs e = absurd (cc e)
  All-lookup key found ((other, old) ∷ rest) (k, hs) e = elim (Bool-cases (key == other)) [
    | inl hit ↦ let same : old ≡ found = ground (arith, e, hit) in subst P same k
    | inr miss ↦ All-lookup key found rest hs (ground (arith, e, miss))
  ]
