-- ===== src/Block/Work/Value.antt =====
-- How much a block counts in the cumulative difficulty.
use virel_blockchain.Base.{
  ℕ, zero, suc, ap, ◌∙◌, ◌+◌, ◌*◌, ◌/◌, ◌^◌, ◌≤◌, ◌<◌, ◌≡◌, refl, Bool, true, false, lt→ltb,
  if◌then◌else◌, some, length, arith, IsU64,
}
use virel_blockchain.Uint128
use virel_blockchain.Uint128.{Uint128, IsWord, value, checked, of_value}
use virel_blockchain.Uint128.Arith.{add-checked}
use virel_blockchain.Uint128.Product.{mul_64-checked}
use virel_blockchain.Uint128.Division.{div_64-exact}
use virel_blockchain.Block.{Block}
use virel_blockchain.Block.Work.{and_then, is_half, contribution}

pub of_value-IsWord : (n : ℕ) → n < 2 ^ 128 → IsWord (of_value n)
of_value-IsWord n h = record { lo_word = omega arith; hi_word = omega arith }

pub value-of_value : (n : ℕ) → value (of_value n) ≡ n
value-of_value n = omega arith

checked_fits : (n : ℕ) → n < 2 ^ 128 → checked n ≡ some (of_value n)
checked_fits n h = rw (lt→ltb n (2 ^ 128) h) refl

mul_le_four : (a n : ℕ) → n ≤ 4 → a * n ≤ a * 4
mul_le_four a zero h = omega arith
mul_le_four a (suc zero) h = omega arith
mul_le_four a (suc (suc zero)) h = omega arith
mul_le_four a (suc (suc (suc zero))) h = omega arith
mul_le_four a (suc (suc (suc (suc n)))) h = let e : n ≡ 0 = omega arith in rw e (omega arith)

div_64-of_value :
    (m v : ℕ)
    → m < 2 ^ 128
    → IsU64 v
    → 0 < v
    → Uint128.div_64 (of_value m) v ≡ some (of_value (m / v))
div_64-of_value m v h word pos =
    div_64-exact (of_value m) v (of_value-IsWord m h) word pos
    ∙ ap (λ (k : ℕ). some (of_value (k / v))) (value-of_value m)

-- The steps, for a difficulty and twice the number of side blocks.
module _ (d : Uint128) (n : ℕ) (word : IsWord d) (small : value d < 2 ^ 125) (few : n ≤ 4) where
  doubled_lem : Uint128.mul_64 d n ≡ some (of_value (value d * n))
  doubled_lem =
      mul_64-checked d n word (omega arith)
      ∙ checked_fits (value d * n) (omega (arith, mul_le_four (value d) n few))

  side_lem : Uint128.div_64 (of_value (value d * n)) 3 ≡ some (of_value (value d * n / 3))
  side_lem =
      div_64-of_value (value d * n) 3 (omega (arith, mul_le_four (value d) n few)) (omega arith)
        (omega arith)

  total_bound : value d + value d * n / 3 < 2 ^ 128
  total_bound = omega (arith, mul_le_four (value d) n few)

  total_lem :
      Uint128.add d (of_value (value d * n / 3)) ≡ some (of_value (value d + value d * n / 3))
  total_lem =
      add-checked d (of_value (value d * n / 3)) word
        (of_value-IsWord (value d * n / 3) (omega (arith, total_bound)))
      ∙ ap (λ (k : ℕ). checked (value d + k)) (value-of_value (value d * n / 3))
      ∙ checked_fits (value d + value d * n / 3) total_bound

  halved_lem :
      (half : Bool)
      → (if half
          then Uint128.div_64 (of_value (value d + value d * n / 3)) 2
          else some (of_value (value d + value d * n / 3)))
        ≡ some
            (of_value (if half then (value d + value d * n / 3) / 2 else value d + value d * n / 3))
  halved_lem true =
      div_64-of_value (value d + value d * n / 3) 2 total_bound (omega arith) (omega arith)
  halved_lem false = refl

-- The difficulty, and two thirds of it for each side block.
abbrev pub full_work : Block → ℕ
full_work bl = value bl.difficulty + value bl.difficulty * (2 * length bl.side_blocks) / 3

abbrev pub work : Block → ℕ
work bl = if is_half bl then full_work bl / 2 else full_work bl

half_le : (b : Bool) (n : ℕ) → (if b then n / 2 else n) ≤ n
half_le true n = omega arith
half_le false n = omega arith

pub work_bound :
    (bl : Block) → value bl.difficulty < 2 ^ 125 → length bl.side_blocks ≤ 2 → work bl < 2 ^ 128
work_bound bl small few = omega (
  arith,
  half_le (is_half bl) (full_work bl),
  mul_le_four (value bl.difficulty) (2 * length bl.side_blocks) (omega arith),
)

-- A block contributes its difficulty, and two thirds of it for each side block, rounded down in all;
-- half of that, rounded down, from version 1 on if it has no stake signature. This holds below 2 ^ 125
-- and for at most two side blocks, where nothing overflows.
pub contribution-work :
    (bl : Block)
    → IsWord bl.difficulty
    → value bl.difficulty < 2 ^ 125
    → length bl.side_blocks ≤ 2
    → contribution bl ≡ some (of_value (work bl))
unfolding contribution
contribution-work bl word small few =
    let d = bl.difficulty in
    let n = 2 * length bl.side_blocks in
    let four : n ≤ 4 = omega arith in
    ap
      (λ o. and_then o (λ doubled. and_then (Uint128.div_64 doubled 3) (λ side_diff.
        and_then (Uint128.add d side_diff)
          (λ total. if is_half bl then Uint128.div_64 total 2 else some total))))
      (doubled_lem d n word small four)
    ∙ ap
        (λ o. and_then o (λ side_diff.
          and_then (Uint128.add d side_diff)
            (λ total. if is_half bl then Uint128.div_64 total 2 else some total)))
        (side_lem d n word small four)
    ∙ ap (λ o. and_then o (λ total. if is_half bl then Uint128.div_64 total 2 else some total))
        (total_lem d n word small four)
    ∙ halved_lem d n word small four (is_half bl)
