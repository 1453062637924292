-- ===== src/AtomicSwap/WellFormed.antt =====
-- The well-formedness of the storage of swaptrade-contracts/atomic-swap/src/storage.rs.
use swaptrade_contract.Prelude.{
  ℕ, ◌+◌, ◌≡◌, ◌≢◌, ◌≤◌, ◌<◌, refl, sym, subst, Bool, true, false, Option, none, some,
  if◌then◌else◌, arith,
}
use swaptrade_contract.Prelude.Int.{ℤ, pos, ◌≤ℤ◌}
use swaptrade_contract.Prelude.Maps.{every-set}
use swaptrade_contract.Host.{Address, Env}
use swaptrade_contract.Host.Tokens.{Tokens}
use swaptrade_contract.AtomicSwap.Types.{
  Swap, SwapState, created, funded, accepted, cancelled, refunded,
}
use swaptrade_contract.AtomicSwap.Storage.{Store, next, deployed, save_swap, update_swap}
use swaptrade_contract.AtomicSwap.Calls
use swaptrade_contract.AtomicSwap.Calls.{State, Reach, here}
use swaptrade_contract.AtomicSwap.Moves.{
  Moves, side_a, side_b, configuring, opening, depositing, accepting, cancelling, refunding,
}
use swaptrade_contract.AtomicSwap.Refinement.{Progress, stays, moves, outside, Step-Progress}

-- Which deposits there are in each state: not both while it is created, both once it is funded and
-- after it was accepted, none after it was cancelled or refunded.
abbrev pub Flags : SwapState → Bool → Bool → Type 0
Flags created true true = ⊥
Flags created _ _ = Unit
Flags funded true true = Unit
Flags accepted true true = Unit
Flags cancelled false false = Unit
Flags refunded false false = Unit
Flags _ _ _ = ⊥

pub record IsFiled (id : ℕ) (s : Swap) : Type 0 where
  pub keyed : s.id ≡ id
  pub positive_a : pos 1 ≤ℤ s.amount_a
  pub positive_b : pos 1 ≤ℤ s.amount_b
  pub assets : s.asset_a ≢ s.asset_b
  pub parties : s.creator ≢ s.counterparty
  pub flags : Flags s.state s.creator_funded s.counterparty_funded

-- What the storage has under one id.
abbrev pub Entry : ℕ → Option Swap → Type 0
Entry id none = Unit
Entry id (some s) = IsFiled id s

pub record IsWellFormed (s : Store) : Type 0 where
  pub positive : 1 ≤ next s
  pub fresh : (id : ℕ) → next s ≤ id → s.swaps id ≡ none
  pub entries : (id : ℕ) → Entry id (s.swaps id)

pub deployed-IsWellFormed : IsWellFormed deployed
deployed-IsWellFormed = record { positive = omega arith; fresh = λ id h. refl; entries = λ id. tt }

module _ {st : Store} (h : IsWellFormed st) (id : ℕ) (s : Swap) (p : st.swaps id ≡ some s) where
  pub filed : IsFiled id s
  filed = rw p at (h.entries id)

  -- It stands under its own id, which is below the next one.
  pub own_id : st.swaps s.id ≡ some s
  own_id = subst (λ i. st.swaps i ≡ some s) (sym filed.keyed) p

  pub below_next : s.id < next st
  below_next = ground (arith, h.fresh s.id, own_id)

  -- A write of the swap with other flags keeps the storage well formed, if they go with its state.
  rewrite_IsWellFormed :
      (state : SwapState) (a b : Bool)
      → Flags state a b
      → IsWellFormed
          (update_swap (record s { state = state; creator_funded = a; counterparty_funded = b }) st)
  rewrite_IsWellFormed state a b f =
      let s' : Swap = record s { state = state; creator_funded = a; counterparty_funded = b } in
      let fs = filed in
      record {
        positive = h.positive;
        fresh = λ i l. ground (arith, h.fresh i, below_next);
        entries = every-set Entry s.id s' h.entries (record {
          keyed = refl;
          positive_a = fs.positive_a;
          positive_b = fs.positive_b;
          assets = fs.assets;
          parties = fs.parties;
          flags = f;
        });
      }

open_IsWellFormed :
    {st : Store} (s : Swap)
    → IsWellFormed st
    → s.id ≡ next st
    → IsFiled s.id s
    → IsWellFormed (save_swap s (record st { next_id = some (s.id + 1) }))
open_IsWellFormed {st} s h k f = record {
  positive = omega arith;
  fresh = λ id l. ground (arith, h.fresh id, h.positive);
  entries = every-set Entry s.id s h.entries f;
}

module _ {L : Type 0} {tok : Tokens L} {env : Env} {w w' : State L} where
  -- Every step of the abstract machine keeps the storage well formed.
  pub Moves-IsWellFormed : Moves tok env w w' → IsWellFormed w.store → IsWellFormed w'.store
  Moves-IsWellFormed (configuring e o n t) h = record {
    positive = rw n h.positive;
    fresh = rw (n, e) h.fresh;
    entries = rw e h.entries;
  }
  Moves-IsWellFormed (opening s k c fa fb a b x y z g n e t) h = rw e (
      open_IsWellFormed s h k (record {
        keyed = refl;
        positive_a = a;
        positive_b = b;
        assets = x;
        parties = y;
        flags = ground arith;
      }))
  Moves-IsWellFormed (depositing id s side_a r p c f g x e t) h = rw e (
      rewrite_IsWellFormed h id s p (if s.counterparty_funded then funded else created) true
        s.counterparty_funded (ground arith))
  Moves-IsWellFormed (depositing id s side_b r p c f g x e t) h = rw e (
      rewrite_IsWellFormed h id s p (if s.creator_funded then funded else created) s.creator_funded
        true (ground arith))
  Moves-IsWellFormed (accepting id s p l fa fb x g ra rb e t) h =
      rw e (
        rewrite_IsWellFormed h id s p accepted s.creator_funded s.counterparty_funded
          (ground arith))
  Moves-IsWellFormed (cancelling id s p c fa fb g e t) h = rw e (
      rewrite_IsWellFormed h id s p cancelled s.creator_funded s.counterparty_funded (ground arith))
  Moves-IsWellFormed (refunding id s p l x g ra rb e t) h =
      rw e (rewrite_IsWellFormed h id s p refunded false false tt)

module _ {L : Type 0} {tok : Tokens L} {holding : Address → Address → L → ℤ} {self : Address} where
  Step-IsWellFormed :
      {w w' : State L}
      → Progress tok holding self w w'
      → IsWellFormed w.store
      → IsWellFormed w'.store
  Step-IsWellFormed (stays e) h = rw e h
  Step-IsWellFormed (moves env at unsigned m) h = Moves-IsWellFormed m h
  Step-IsWellFormed (outside l more e) h = rw e h

  -- From a storage that is well formed, as the empty one of a new contract is, every sequence of
  -- invocations, in any order and by anyone, leads to one that is well formed: the deposits of every swap
  -- are those that go with its state.
  pub swaps-IsWellFormed :
      {w w' : State L} → Reach tok holding self w w' → IsWellFormed w.store → IsWellFormed w'.store
  swaps-IsWellFormed here h = h
  swaps-IsWellFormed (Calls.next r s) h =
      Step-IsWellFormed (Step-Progress s) (swaps-IsWellFormed r h)
