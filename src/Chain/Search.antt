-- ===== src/Chain/Search.antt =====
-- The search for the common block in CheckReorgs of blockchain/blockchain.go: it ends, and finds the
-- branch from the main chain to the alternative tip.
use virel_blockchain.Base.{
  ℕ, zero, suc, ◌≤◌, ◌<◌, ◌≡◌, ◌≢◌, refl, sym, ◌∙◌, subst, ◌⊎◌, inl, inr, true, false, ◌==◌, ==→eq,
  Option, none, some, List, [], ◌∷◌, ◌++◌, All, All-append, Result, ok, err, panic, arith,
  Bool-cases, Option-cases,
}
use mathlib.Core.List.{append_assoc}
use virel_blockchain.Base.Dict.{Dict, lookup, All-lookup}
use virel_blockchain.Block.{Block, prev_hash}
use virel_blockchain.Ledger.{Ledger, Error, unknown_block, no_common_block}
use virel_blockchain.Chain.{or_zero_hash}
use virel_blockchain.Chain.Reorg.{search_common}

-- The stored predecessor of a block above height zero is below it.
abbrev pub IsAbove : Block → Option Block → Type 0
IsAbove b none = Unit {0}
IsAbove b (some p) = (b.height ≡ 0) ⊎ (p.height < b.height)

abbrev pub IsDescending : Dict Block → Type 0
IsDescending blocks =
    All (λ (p : ℕ × Block). IsAbove (p.1) (lookup (prev_hash (p.1)) blocks)) blocks

-- Each block names the one before as its predecessor, and the first names `below`.
abbrev pub IsLinked : (below : ℕ) → List (ℕ × Block) → Type 0
IsLinked below [] = Unit {0}
IsLinked below ((hash, b) ∷ rest) = (prev_hash b ≡ below) × IsLinked hash rest

-- A block that the search passes by: it is stored, above height zero, and not on the main chain.
pub record IsPassed (s : Ledger) (p : ℕ × Block) : Type 0 where
  pub stored : lookup p.0 s.blocks ≡ some (p.1)
  pub above_genesis : p.1.height ≢ 0
  pub off_main : or_zero_hash (lookup p.1.height s.topo) ≢ p.0

-- A chain of passed blocks from a block with a hash up to the ones at the top, with the hash that the
-- lowest of all names as its predecessor.
pub record IsDescent (s : Ledger) (top : List (ℕ × Block)) (below : ℕ) (branch : List (ℕ × Block))
    : Type 0 where
  pub linked : IsLinked below branch
  pub added : List (ℕ × Block)
  pub reaches : branch ≡ added ++ top
  pub passed : All (IsPassed s) added

-- A branch that goes on down to a block of the main chain, above height zero.
pub record IsBranch (s : Ledger) (top : List (ℕ × Block)) (common : ℕ) (branch : List (ℕ × Block))
    : Type 0 where
  pub block : Block
  pub stored : lookup common s.blocks ≡ some block
  pub on_main : or_zero_hash (lookup block.height s.topo) ≡ common
  pub above_genesis : block.height ≢ 0
  pub descent : IsDescent s top common branch

-- The error, and the block that it is about.
pub data IsCause (s : Ledger) (below : ℕ) : Error → Type 0 where
  missing : lookup below s.blocks ≡ none → IsCause s below unknown_block
  at_genesis :
      (block : Block)
      → lookup below s.blocks ≡ some block
      → block.height ≡ 0
      → IsCause s below no_common_block

-- A branch that goes on down to a block that is the cause of the error.
pub record IsFailed (s : Ledger) (top : List (ℕ × Block)) (x : Error) : Type 0 where
  pub below : ℕ
  pub branch : List (ℕ × Block)
  pub descent : IsDescent s top below branch
  pub cause : IsCause s below x

-- The ways in which the search may end.
abbrev pub IsSearched : Ledger → List (ℕ × Block) → Result Error (ℕ × List (ℕ × Block)) → Type 0
IsSearched s top (ok (common, branch)) = IsBranch s top common branch
IsSearched s top (err x) = IsFailed s top x
IsSearched s top panic = ⊥

start_IsDescent :
    (s : Ledger) (top : List (ℕ × Block)) (below : ℕ)
    → IsLinked below top
    → IsDescent s top below top
start_IsDescent s top below linked = record {
  linked = linked;
  added = [];
  reaches = refl;
  passed = tt;
}

-- A passed block may be seen as one that was added.
IsDescent-grow :
    (s : Ledger) (p : ℕ × Block) (top : List (ℕ × Block)) (below : ℕ) (branch : List (ℕ × Block))
    → IsPassed s p
    → IsDescent s (p ∷ top) below branch
    → IsDescent s top below branch
IsDescent-grow s p top below branch passed h = record {
  linked = h.linked;
  added = h.added ++ (p ∷ []);
  reaches = h.reaches ∙ sym (append_assoc h.added (p ∷ []) top);
  passed = All-append (IsPassed s) h.added (p ∷ []) h.passed (passed, tt);
}

IsSearched-grow :
    (s : Ledger) (p : ℕ × Block) (top : List (ℕ × Block)) (r : Result Error (ℕ × List (ℕ × Block)))
    → IsPassed s p
    → IsSearched s (p ∷ top) r
    → IsSearched s top r
IsSearched-grow s p top (ok (common, branch)) passed h = record {
  block = h.block;
  stored = h.stored;
  on_main = h.on_main;
  above_genesis = h.above_genesis;
  descent = IsDescent-grow s p top common branch passed h.descent;
}
IsSearched-grow s p top (err x) passed h = record {
  below = h.below;
  branch = h.branch;
  descent = IsDescent-grow s p top h.below h.branch passed h.descent;
  cause = h.cause;
}
IsSearched-grow s p top panic passed h = h

-- One round: the predecessor of the branch's first block is found, and `rest` is the way on from it.
module _ (n : ℕ) (s : Ledger) (hash : ℕ) (current : Block) (branch : List (ℕ × Block))
    (common : Block) (stored : lookup (prev_hash current) s.blocks ≡ some common)
    (linked : IsLinked hash branch) where
  abbrev top : List (ℕ × Block)
  top = (hash, current) ∷ branch

  abbrev outcome : Result Error (ℕ × List (ℕ × Block))
  outcome = search_common (suc n) s current top

  abbrev rest : Result Error (ℕ × List (ℕ × Block))
  rest = search_common n s common ((prev_hash current, common) ∷ top)

  zero_height_outcome : (common.height == 0) ≡ true → outcome ≡ err no_common_block
  unfolding search_common
  zero_height_outcome e = ground (arith, stored, e)

  at_main :
      (common.height == 0) ≡ false
      → (or_zero_hash (lookup common.height s.topo) == prev_hash current) ≡ true
      → outcome ≡ ok (prev_hash current, top)
  unfolding search_common
  at_main e h = ground (arith, stored, e, h)

  at_branch :
      (common.height == 0) ≡ false
      → (or_zero_hash (lookup common.height s.topo) == prev_hash current) ≡ false
      → outcome ≡ rest
  unfolding search_common
  at_branch e h = ground (arith, stored, e, h)

  main_IsBranch :
      common.height ≢ 0
      → or_zero_hash (lookup common.height s.topo) ≡ prev_hash current
      → IsBranch s top (prev_hash current) top
  main_IsBranch above on_main = record {
    block = common;
    stored = stored;
    on_main = on_main;
    above_genesis = above;
    descent = start_IsDescent s top (prev_hash current) (refl, linked);
  }

  search_round :
      (common.height ≢ 0 → IsSearched s ((prev_hash current, common) ∷ top) rest)
      → IsSearched s top outcome
  search_round ih = elim (Bool-cases (common.height == 0)) [
    | inl zero_height ↦ subst (IsSearched s top) (sym (zero_height_outcome zero_height)) record {
      below = prev_hash current;
      branch = top;
      descent = start_IsDescent s top (prev_hash current) (refl, linked);
      cause = at_genesis common stored (==→eq _ _ zero_height);
    }
    | inr above ↦
        let positive : common.height ≢ 0 = λ e. ground (arith, above, e) in
        elim (Bool-cases (or_zero_hash (lookup common.height s.topo) == prev_hash current)) [
          | inl main ↦
              subst (IsSearched s top) (sym (at_main above main))
                (main_IsBranch positive (==→eq _ _ main))
          | inr side ↦ subst (IsSearched s top) (sym (at_branch above side)) (
              IsSearched-grow s (prev_hash current, common) top rest
                (record {
                  stored = stored;
                  above_genesis = positive;
                  off_main = λ e. ground (arith, side, e);
                })
                (ih positive))
        ]
  ]

missing_round :
    (n : ℕ) (s : Ledger) (current : Block) (branch : List (ℕ × Block))
    → lookup (prev_hash current) s.blocks ≡ none
    → search_common (suc n) s current branch ≡ err unknown_block
unfolding search_common
missing_round n s current branch absent = ground (arith, absent)

-- If the predecessors of stored blocks are below them, the search for the common block ends within the
-- fuel that the height of a stored block above zero gives. From the branch that it began with, whose
-- blocks name each other as predecessors, it goes down a chain of stored blocks above height zero that
-- are not on the main chain, each named by the one above it. It succeeds with the first predecessor
-- that is on the main chain and above height zero, and with the branch above that; it fails with
-- `unknown_block` only at a predecessor that is not stored, and with `no_common_block` only at one of
-- height zero.
pub search_common-IsSearched :
    (n : ℕ) (s : Ledger) (hash : ℕ) (current : Block) (branch : List (ℕ × Block))
    → IsDescending s.blocks
    → lookup hash s.blocks ≡ some current
    → current.height ≢ 0
    → current.height ≤ n
    → IsLinked hash branch
    → IsSearched s
        ((hash, current) ∷ branch)
        (search_common (suc n) s current ((hash, current) ∷ branch))
search_common-IsSearched zero s hash current branch down at above low linked =
    absurd (above (omega arith))
search_common-IsSearched (suc n) s hash current branch down at above low linked =
    elim (Option-cases (lookup (prev_hash current) s.blocks)) [
      | inl absent ↦
          subst (IsSearched s ((hash, current) ∷ branch))
            (sym (missing_round (suc n) s current ((hash, current) ∷ branch) absent))
            record {
              below = prev_hash current;
              branch = (hash, current) ∷ branch;
              descent =
                  start_IsDescent s ((hash, current) ∷ branch) (prev_hash current) (refl, linked);
              cause = missing absent;
            }
      | inr (common, stored) ↦
          let lower : IsAbove current (some common) = subst (IsAbove current) stored (
            All-lookup (λ b. IsAbove b (lookup (prev_hash b) s.blocks)) hash current s.blocks down
              at) in
          search_round (suc n) s hash current branch common stored linked (λ positive.
            search_common-IsSearched n s (prev_hash current) common ((hash, current) ∷ branch) down
              stored positive (lower_fits common lower) (refl, linked))
    ]
  where
    lower_fits : (c : Block) → IsAbove current (some c) → c.height ≤ n
    lower_fits c (inl e) = absurd (above e)
    lower_fits c (inr h) = omega arith
