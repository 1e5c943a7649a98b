-- ===== src/Chain/Siblings.antt =====
-- Two blocks beside the main chain with the same predecessor: addAltchainBlock of
-- blockchain/blockchain.go.
use virel_blockchain.Base.{
  ℕ, ◌+◌, ◌<◌, ◌^◌, ◌≡◌, ap, ◌∙◌, if◌then◌else◌, some, arith, add64, ==-refl,
}
use virel_blockchain.Base.Dict.{Dict, lookup, insert, lookup-insert}
use virel_blockchain.Block.{Block, prev_hash}
use virel_blockchain.Stats.{AltchainTip}
use virel_blockchain.Chain.Add.{extend_with, extend_tips}

abbrev grown : Block → (hash : ℕ) → AltchainTip → AltchainTip
grown x hash tip = record {
  hash = hash;
  height = add64 tip.height 1;
  cumulative_diff = x.cumulative_diff;
}

extended :
    (x : Block) (hash p : ℕ) (tip : AltchainTip) (tips : Dict AltchainTip)
    → prev_hash x ≡ p
    → lookup p tips ≡ some tip
    → lookup p (extend_tips x hash tips) ≡ some (grown x hash tip)
unfolding extend_tips
extended x hash p tip tips e at =
    let way : extend_with x hash tips (lookup (prev_hash x) tips)
        ≡ insert p (grown x hash tip) tips =
      ap (λ k. extend_with x hash tips (lookup k tips)) e
      ∙ ap (extend_with x hash tips) at
      ∙ (unfold extend_with in ap (λ k. insert k (grown x hash tip) tips) e) in
    ap (lookup p) way
    ∙ lookup-insert p p (grown x hash tip) tips
    ∙ ap (λ c. if c then some (grown x hash tip) else lookup p tips) (==-refl p)

-- A second block on the predecessor of a tip takes the tip over from the first, with a height that is
-- one too large.
extend_tips_siblings :
    (a b : Block) (hash_a hash_b p : ℕ) (tip : AltchainTip) (tips : Dict AltchainTip)
    → prev_hash a ≡ p
    → prev_hash b ≡ p
    → lookup p tips ≡ some tip
    → b.height ≡ tip.height + 1
    → tip.height + 2 < 2 ^ 64
    → lookup p (extend_tips b hash_b (extend_tips a hash_a tips))
      ≡ some record { hash = hash_b; height = b.height + 1; cumulative_diff = b.cumulative_diff }
extend_tips_siblings a b hash_a hash_b p tip tips ea eb at height word =
    let twice : add64 (add64 tip.height 1) 1 ≡ b.height + 1 = omega arith in
    extended b hash_b p (grown a hash_a tip) (extend_tips a hash_a tips) eb
      (extended a hash_a p tip tips ea at)
    ∙ ap (λ (h : ℕ). some record { hash = hash_b; height = h; cumulative_diff = b.cumulative_diff })
        twice
