-- ===== src/Ledger/Backing/Rewards.antt =====
-- A delegate's reward keeps the staked amount backed.
use virel_blockchain.Base.{
  ℕ, ◌+◌, ◌^◌, ◌≤◌, ◌<◌, ◌≡◌, refl, ap, ◌∙◌, sym, subst, none, some, Option-cases, inl, inr, List,
  [], ◌∷◌, arith, IsU64, All, safe_add, add64, bind_at_keeps,
}
use native.Mathlib.Decide.{dec_le}
use virel_blockchain.Base.Dict.{lookup, insert}
use virel_blockchain.Chaintype.{State, Delegate, DelegatedFund}
use virel_blockchain.Chaintype
use virel_blockchain.Chaintype.Totals.{sum_funds}
use virel_blockchain.Transaction.{StateOutput, StateOutputType, out_normal, out_coinbase_pos}
use virel_blockchain.Ledger.{
  Ledger, Do, topo_key, get_delegate, set_delegate, set_delegate_history, stats_staked, set_state,
  set_tx_topo_inc,
}
use virel_blockchain.Ledger.Outputs.{
  apply_output, apply_tx_outputs_to_state, when_pos, state_or_empty,
}
use virel_blockchain.Stats
use virel_blockchain.Ledger.Rewards.{apply_pos_reward}
use virel_blockchain.Ledger.Rewards.Payout.{
  after_reward, apply_pos_reward-after_reward, total_amount_fits,
}
use virel_blockchain.Ledger.Backing.{IsBacked, IsBacked-same, replaced-IsBacked, stake-le}

module _ (key : ℕ → ℕ) (blockhash : ℕ) (out : StateOutput) (s : Ledger) where
  abbrev rewarded : Ledger
  rewarded = (apply_pos_reward key blockhash out s).1

  reward_zero : out.extra_data ≡ 0 → rewarded ≡ s
  unfolding apply_pos_reward
  reward_zero e = ground (arith, e)

  reward_absent : lookup out.extra_data s.delegates ≡ none → rewarded ≡ s
  unfolding apply_pos_reward get_delegate
  reward_absent e = ground (arith, e)

  reward_no_stake :
      (d : Delegate)
      → lookup out.extra_data s.delegates ≡ some d
      → Chaintype.total_amount d ≡ some 0
      → rewarded ≡ s
  unfolding apply_pos_reward get_delegate
  reward_no_stake d e t = ground (arith, e, t)

  reward_with_room : IsBacked s → s.stats.staked_amount + out.amount < 2 ^ 64 → IsBacked rewarded
  reward_with_room b room = elim (Option-cases (lookup out.extra_data s.delegates)) [
    | inl absent ↦ subst IsBacked (sym (reward_absent absent)) b
    | inr (d, known) ↦
        let le = stake-le s out.extra_data d b known in
        elim (dec_le 1 out.extra_data) [
          | no zero_id ↦ subst IsBacked (sym (reward_zero (omega (arith, zero_id)))) b
          | yes pos ↦ elim (dec_le 1 (sum_funds d.funds)) [
            | no empty ↦
                subst IsBacked
                  (sym (
                    reward_no_stake d known (
                      total_amount_fits d (omega arith)
                      ∙ ap (λ (t : ℕ). some t) {x = sum_funds d.funds} {y = 0}
                          (omega (arith, empty)))))
                  b
            | yes stake ↦
                let (gs, e, total) =
                  apply_pos_reward-after_reward key blockhash out s d known pos stake (omega arith)
                    room in
                subst IsBacked (sym (ap (λ r. r.1) e)) (
                  replaced-IsBacked s (after_reward blockhash out.amount d gs s) out.extra_data d
                    (record d { funds = gs }) b known refl refl (omega arith) (omega arith))
          ]
        ]
  ]

  -- Without room in the staked amount the call ends in an error, and nothing but the history is written.
  reward_without_room :
      IsU64 (s.stats.staked_amount)
      → IsU64 out.amount
      → 2 ^ 64 ≤ s.stats.staked_amount + out.amount
      → (rewarded.delegates ≡ s.delegates) × (rewarded.stats ≡ s.stats)
  unfolding apply_pos_reward get_delegate set_delegate set_delegate_history stats_staked
      Stats.staked
  reward_without_room hs ha full = (ground arith, ground arith)

  -- A delegate's reward keeps the staked amount backed, however it ends.
  pub apply_pos_reward-IsBacked : IsU64 out.amount → IsBacked s → IsBacked rewarded
  apply_pos_reward-IsBacked ha b = elim (dec_le (2 ^ 64) (s.stats.staked_amount + out.amount)) [
    | yes full ↦
        let kept = reward_without_room b.fits ha full in
        IsBacked-same s rewarded kept.0 (ap (λ x. x.staked_amount) kept.1) b
    | no room ↦ reward_with_room b (omega (arith, room))
  ]

-- So do the outputs of a block or a transaction, however they end.
pub apply_output-IsBacked :
    (key : ℕ → ℕ) (blockhash txid : ℕ) (out : StateOutput) (s : Ledger)
    → IsU64 out.amount
    → IsBacked s
    → IsBacked (apply_output key blockhash txid out s).1
unfolding apply_output set_tx_topo_inc set_state
apply_output-IsBacked key blockhash txid out s ha b =
    elim (Option-cases
      (safe_add (state_or_empty (lookup out.recipient s.states)).balance out.amount)) [
        | inl overflow ↦
            let kept : (apply_output key blockhash txid out s).1 ≡ s = ground arith in
            subst IsBacked (sym kept) b
        | inr (balance, fits) ↦
            let rec : State = state_or_empty (lookup out.recipient s.states) in
            let incoming : ℕ = add64 rec.last_incoming 1 in
            let t : Ledger = record s {
              in_txs = insert (topo_key out.recipient incoming) txid s.in_txs;
              states =
                  insert out.recipient (record rec { balance = balance; last_incoming = incoming })
                    s.states;
            } in
            let credited : (apply_output key blockhash txid out s).1
                ≡ (when_pos out.kind (apply_pos_reward key blockhash out) t).1 =
              ground arith in
            subst IsBacked (sym credited) (
              when_pos-IsBacked out.kind (apply_pos_reward key blockhash out) t
                (IsBacked-same s t refl refl b)
                (apply_pos_reward-IsBacked key blockhash out t ha (IsBacked-same s t refl refl b)))
      ]
  where
    when_pos-IsBacked :
        (k : StateOutputType) (m : Do (Unit {0})) (t : Ledger)
        → IsBacked t
        → IsBacked (m t).1
        → IsBacked (when_pos k m t).1
    when_pos-IsBacked out_coinbase_pos m t b h = h
    when_pos-IsBacked out_normal m t b h = b
    when_pos-IsBacked _ m t b h = b

pub apply_outputs-IsBacked :
    (key : ℕ → ℕ) (blockhash txid : ℕ) (outs : List StateOutput) (s : Ledger)
    → All (λ o. IsU64 (o.amount)) outs
    → IsBacked s
    → IsBacked (apply_tx_outputs_to_state key blockhash txid outs s).1
unfolding apply_tx_outputs_to_state
apply_outputs-IsBacked key blockhash txid [] s w b = b
apply_outputs-IsBacked key blockhash txid (out ∷ outs) s (h, w) b =
    let t : Ledger = (apply_output key blockhash txid out s).1 in
    let c = apply_output-IsBacked key blockhash txid out s h b in
    bind_at_keeps IsBacked (apply_output key blockhash txid out s).0 t
      (λ _. apply_tx_outputs_to_state key blockhash txid outs) c
      (λ _ _. apply_outputs-IsBacked key blockhash txid outs t w c)
