-- ===== src/Queue/Requests.antt =====
-- Which block the queue gives out for a request.
use virel_blockchain.Base.{
  ℕ, ◌+◌, ◌≤◌, ◌<◌, ◌≡◌, refl, ap, inl, inr, Option, none, some, [], ◌∷◌, ◌++◌, All, arith,
  Bool-cases,
}
use virel_blockchain.Queue.{
  QueuedBlock, Queue, rerequest_time, requested_at, is_requestable, requestable_block,
}

-- The last request of the block is more than a second ago.
abbrev pub IsDue : (now : ℕ) → QueuedBlock → Type 0
IsDue now v = v.last_request + rerequest_time < now

abbrev pub IsWaiting : (now : ℕ) → QueuedBlock → Type 0
IsWaiting now v = now ≤ v.last_request + rerequest_time

-- The queue around the block that is given out.
pub record IsGiven (now : ℕ) (q : Queue) (given : QueuedBlock) (after : Queue) : Type 0 where
  pub front : Queue
  pub chosen : QueuedBlock
  pub back : Queue
  pub before_shape : q ≡ front ++ (chosen ∷ back)
  pub after_shape : after ≡ front ++ (given ∷ back)
  pub front_waits : All (IsWaiting now) front
  pub chosen_due : IsDue now chosen
  pub stamped : given ≡ requested_at now chosen

abbrev pub IsAnswer : (now : ℕ) → Queue → Option QueuedBlock → Queue → Type 0
IsAnswer now q none after = All (IsWaiting now) q × (after ≡ q)
IsAnswer now q (some given) after = IsGiven now q given after

further :
    (now : ℕ) (v : QueuedBlock) (q : Queue) (o : Option QueuedBlock) (after : Queue)
    → IsWaiting now v
    → IsAnswer now q o after
    → IsAnswer now (v ∷ q) o (v ∷ after)
further now v q none after w (all, same) = ((w, all), ap (λ (l : Queue). v ∷ l) same)
further now v q (some given) after w g = record {
  front = v ∷ g.front;
  chosen = g.chosen;
  back = g.back;
  before_shape = ap (λ (l : Queue). v ∷ l) g.before_shape;
  after_shape = ap (λ (l : Queue). v ∷ l) g.after_shape;
  front_waits = (w, g.front_waits);
  chosen_due = g.chosen_due;
  stamped = g.stamped;
}

-- If every block was last requested at most a second ago, or will be, the queue gives out none and
-- stays as it is. Else it gives out the first that was not, marked as requested now, and changes
-- nothing but that mark.
pub requestable_block-IsAnswer :
    (now : ℕ) (q : Queue)
    → IsAnswer now q ((requestable_block now q).0) ((requestable_block now q).1)
unfolding requestable_block
requestable_block-IsAnswer now [] = (tt, refl)
requestable_block-IsAnswer now (v ∷ vs) = elim (Bool-cases (is_requestable now v)) [
  | inl due ↦ rw due record {
    front = [];
    chosen = v;
    back = vs;
    before_shape = refl;
    after_shape = refl;
    front_waits = tt;
    chosen_due = ground (arith, due);
    stamped = refl;
  }
  | inr waits ↦ rw waits (
      further now v vs ((requestable_block now vs).0) ((requestable_block now vs).1)
        (ground (arith, waits)) (requestable_block-IsAnswer now vs))
]
