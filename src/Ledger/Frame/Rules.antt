-- ===== src/Ledger/Frame/Rules.antt =====
-- The rules for actions that leave the chain's view alone: sequences, tests and the operations on the
-- ledger's other parts.
use virel_blockchain.Base.{
  ℕ, ◌≡◌, refl, ◌∙◌, Bool, true, false, if◌then◌else◌, Option, none, some, Result, ok, err, panic,
  ◌>>=◌, pure, fail, crash, gets, fail_if, or_fail, or_crash, lift, bind_at, arith,
}
use virel_blockchain.Chaintype.{State, Delegate}
use virel_blockchain.Stats
use virel_blockchain.Ledger.{
  Ledger, Do, Error, get_state, set_state, get_delegate, set_delegate, remove_delegate,
  get_delegate_history, set_delegate_history, set_tx_topo_inc, set_tx_topo_out, get_tx,
  set_tx_height, stats_staked, stats_unstaked, drop_error,
}
use virel_blockchain.Ledger.Frame.{view, Keeps}

bind_at-view {ℓ κ} :
    {A : Type ℓ} {B : Type κ} (r : Result Error A) (s : Ledger) (f : A → Do B)
    → ((a : A) → Keeps (f a))
    → view (bind_at r s f).1 ≡ view s
bind_at-view (ok a) s f h = (h a).run s
bind_at-view (err e) s f h = refl
bind_at-view panic s f h = refl

module _ {ℓ} {A : Type ℓ} where
  pub Keeps-bind {κ} :
      {B : Type κ} (m : Do A) (f : A → Do B) → Keeps m → ((a : A) → Keeps (f a)) → Keeps (m >>= f)
  Keeps-bind m f h k = record { run = λ s. bind_at-view (m s).0 (m s).1 f k ∙ h.run s }

  pub Keeps-if : (c : Bool) (x y : Do A) → Keeps x → Keeps y → Keeps (if c then x else y)
  Keeps-if true x y h k = h
  Keeps-if false x y h k = k

  pub Keeps-pure : (a : A) → Keeps (pure a)
  Keeps-pure a = record { run = λ s. refl }

  pub Keeps-fail : (e : Error) → Keeps (fail {A = A} e)
  Keeps-fail e = record { run = λ s. refl }

  pub Keeps-crash : Keeps (crash {A = A})
  Keeps-crash = record { run = λ s. refl }

  pub Keeps-gets : (f : Ledger → A) → Keeps (gets f)
  Keeps-gets f = record { run = λ s. refl }

  pub Keeps-lift : (r : Result Error A) → Keeps (lift r)
  Keeps-lift r = record { run = λ s. refl }

  pub Keeps-or_fail : (o : Option A) (e : Error) → Keeps (or_fail o e)
  Keeps-or_fail none e = record { run = λ s. refl }
  Keeps-or_fail (some a) e = record { run = λ s. refl }

  pub Keeps-or_crash : (o : Option A) → Keeps (or_crash o)
  Keeps-or_crash none = record { run = λ s. refl }
  Keeps-or_crash (some a) = record { run = λ s. refl }

pub Keeps-fail_if : (c : Bool) (e : Error) → Keeps (fail_if c e)
Keeps-fail_if true e = record { run = λ s. refl }
Keeps-fail_if false e = record { run = λ s. refl }

pub ruleset flow = (
  Keeps-bind, Keeps-if, Keeps-pure, Keeps-fail, Keeps-crash, Keeps-gets, Keeps-lift, Keeps-or_fail,
  Keeps-or_crash, Keeps-fail_if,
)

pub Keeps-get_state : (addr : ℕ) → Keeps (get_state addr)
unfolding get_state
Keeps-get_state addr = search flow

pub Keeps-set_state : (addr : ℕ) (st : State) → Keeps (set_state addr st)
unfolding set_state
Keeps-set_state addr st = record { run = λ s. refl }

pub Keeps-get_delegate : (id : ℕ) → Keeps (get_delegate id)
unfolding get_delegate
Keeps-get_delegate id = search flow

pub Keeps-set_delegate : (d : Delegate) → Keeps (set_delegate d)
unfolding set_delegate
Keeps-set_delegate d = record { run = λ s. refl }

pub Keeps-remove_delegate : (id : ℕ) → Keeps (remove_delegate id)
unfolding remove_delegate
Keeps-remove_delegate id = record { run = λ s. refl }

pub Keeps-get_delegate_history : (hash : ℕ) → Keeps (get_delegate_history hash)
unfolding get_delegate_history
Keeps-get_delegate_history hash = search flow

pub Keeps-set_delegate_history : (hash : ℕ) (d : Delegate) → Keeps (set_delegate_history hash d)
unfolding set_delegate_history
Keeps-set_delegate_history hash d = record { run = λ s. refl }

pub Keeps-set_tx_topo_inc : (txid addr n : ℕ) → Keeps (set_tx_topo_inc txid addr n)
unfolding set_tx_topo_inc
Keeps-set_tx_topo_inc txid addr n = record { run = λ s. refl }

pub Keeps-set_tx_topo_out : (txid addr n : ℕ) → Keeps (set_tx_topo_out txid addr n)
unfolding set_tx_topo_out
Keeps-set_tx_topo_out txid addr n = record { run = λ s. refl }

pub Keeps-get_tx : (txid : ℕ) → Keeps (get_tx txid)
unfolding get_tx
Keeps-get_tx txid = search flow

pub Keeps-set_tx_height : (txid height : ℕ) → Keeps (set_tx_height txid height)
unfolding set_tx_height
Keeps-set_tx_height txid height = record { run = λ s. ground arith }

pub Keeps-stats_staked : (amount : ℕ) → Keeps (stats_staked amount)
unfolding stats_staked Stats.staked
Keeps-stats_staked amount = record { run = λ s. ground arith }

pub Keeps-stats_unstaked : (amount : ℕ) → Keeps (stats_unstaked amount)
unfolding stats_unstaked Stats.unstaked
Keeps-stats_unstaked amount = record { run = λ s. ground arith }

pub Keeps-drop_error : (m : Do (Unit {0})) → Keeps m → Keeps (drop_error m)
unfolding drop_error
Keeps-drop_error m h = record { run = λ s. h.run s }

pub ruleset keeps_rules = (
  flow, Keeps-get_state, Keeps-set_state, Keeps-get_delegate, Keeps-set_delegate,
  Keeps-remove_delegate, Keeps-get_delegate_history, Keeps-set_delegate_history,
  Keeps-set_tx_topo_inc, Keeps-set_tx_topo_out, Keeps-get_tx, Keeps-set_tx_height,
  Keeps-stats_staked, Keeps-stats_unstaked, Keeps-drop_error,
)
