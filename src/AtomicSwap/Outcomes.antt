-- ===== src/AtomicSwap/Outcomes.antt =====
-- `accept_swap`, `refund_swap` and `fund_swap` of swaptrade-contracts/atomic-swap/src/lib.rs.
use swaptrade_contract.Prelude.{
  ℕ, ◌≡◌, ◌≢◌, ◌≤◌, ◌<◌, ◌⊎◌, inl, inr, sym, true, false, ◌||◌, none, some, arith, Option-cases,
  Bool-cases,
}
use swaptrade_contract.Prelude.Int.{ℤ}
use swaptrade_contract.Host.{Address, Env, ok, err, invoke, invoke_cases}
use swaptrade_contract.Host.Tokens.{Tokens, IsToken, IsPayment, transfer-IsPayment}
use swaptrade_contract.AtomicSwap
use swaptrade_contract.AtomicSwap.Types.{Swap, accepted, is_over, invalid_state}
use swaptrade_contract.AtomicSwap.Calls.{State}
use swaptrade_contract.AtomicSwap.Moves.{
  side_a, side_b, asset, amount, closed, paid_out, Returns, returned,
}
use swaptrade_contract.AtomicSwap.WellFormed.{IsWellFormed, filed}
use swaptrade_contract.AtomicSwap.Custody.{IsSolvent}
use swaptrade_contract.AtomicSwap.Liabilities.{Outsiders}

module _ {L : Type 0} (tok : Tokens L) (holding : Address → Address → L → ℤ) (env : Env)
    (w : State L) where
  -- The tokens after the first of the two transfers of an acceptance.
  abbrev pub halfway : Swap → L
  halfway s = paid_out tok side_a s env.contract s.counterparty w.tokens

  -- What a successful acceptance has done: by the counterparty, before the expiry, the amount of asset A went
  -- from the contract to the counterparty, then the amount of asset B to the creator, and the swap is accepted.
  pub record IsExchange (id : ℕ) (acceptor : Address) (s : Swap) (w' : State L) : Type 0 where
    pub by_counterparty : acceptor ≡ s.counterparty
    pub in_time : env.now < s.expiry
    pub first :
        IsPayment holding s.asset_a env.contract s.counterparty s.amount_a w.tokens (halfway s)
    pub second : IsPayment holding s.asset_b env.contract s.creator s.amount_b (halfway s) w'.tokens
    pub stored : w'.store.swaps id ≡ some (record s { state = accepted })

module _ {L : Type 0} {tok : Tokens L} {holding : Address → Address → L → ℤ}
    (law : IsToken tok holding) (env : Env) (id : ℕ) (w : State L)
    (h : IsSolvent holding env.contract w) where
  accepted_parts :
      (acceptor : Address) (s : Swap)
      → w.store.swaps id ≡ some s
      → (AtomicSwap.accept_swap tok env id acceptor w).0 ≡ ok tt
      → (acceptor ≡ s.counterparty)
        × (s.counterparty_funded ≡ true)
        × (env.now < s.expiry)
        × (((tok.transfer s.asset_a env.contract s.counterparty s.amount_a w.tokens).0 ≢ none))
        × ((tok.transfer s.asset_b env.contract s.creator s.amount_b
              (halfway tok holding env w s)).0
            ≢ none)
        × ((AtomicSwap.accept_swap tok env id acceptor w).1.store.swaps id
            ≡ some (record s { state = accepted }))
        × ((AtomicSwap.accept_swap tok env id acceptor w).1.tokens
            ≡ paid_out tok side_b s env.contract s.creator (halfway tok holding env w s))
  unfolding AtomicSwap.accept_swap
  accepted_parts acceptor s p x =
      let k = (filed h.well_formed id s p).keyed in
      (
        ground arith,
        ground arith,
        ground arith,
        ground arith,
        ground arith,
        ground (arith, k),
        ground arith,
      )

  -- A transfer that did not fail is a payment.
  payment :
      (asset to : Address) (amount : ℤ) (l : L)
      → (tok.transfer asset env.contract to amount l).0 ≢ none
      → to ≢ env.contract
      → IsPayment holding asset env.contract to amount l
          (tok.transfer asset env.contract to amount l).1
  payment asset to amount l n ne =
      elim (Option-cases (tok.transfer asset env.contract to amount l).0) [
        | inl z ↦ absurd (n z)
        | inr (r, z) ↦ transfer-IsPayment law asset env.contract to amount l r z (λ e. ne (sym e))
      ]

  accept_swap-IsExchange :
      (acceptor : Address) (s : Swap)
      → w.store.swaps id ≡ some s
      → (AtomicSwap.accept_swap tok env id acceptor w).0 ≡ ok tt
      → IsExchange tok holding env w id acceptor s (AtomicSwap.accept_swap tok env id acceptor w).1
  accept_swap-IsExchange acceptor s p x =
      let (c, f, t, na, nb, st, tk) = accepted_parts acceptor s p x in
      let o : Outsiders env.contract (some s) = rw p at (h.outsiders id) in
      record {
        by_counterparty = c;
        in_time = t;
        first = payment s.asset_a s.counterparty s.amount_a w.tokens na (o.1 f);
        second =
            rw tk (payment s.asset_b s.creator s.amount_b (halfway tok holding env w s) nb o.0);
        stored = st;
      }

  -- On a solvent contract, an invocation of `accept_swap` on a swap that exists is atomic: it changes nothing
  -- at all, or both assets have changed hands and the swap is accepted.
  pub accept_swap_atomic :
      (acceptor : Address) (s : Swap)
      → w.store.swaps id ≡ some s
      → let w' = (invoke (AtomicSwap.accept_swap tok env id acceptor) w).1 in
        (w' ≡ w) ⊎ IsExchange tok holding env w id acceptor s w'
  accept_swap_atomic acceptor s p =
      elim (invoke_cases (AtomicSwap.accept_swap tok env id acceptor) w) [
        | inl same ↦ inl same
        | inr (_, done, kept) ↦ inr (rw kept (accept_swap-IsExchange acceptor s p done))
      ]

module _ {L : Type 0} (tok : Tokens L) (id : ℕ) (w : State L) (s : Swap)
    (p : w.store.swaps id ≡ some s) where
  accept_in_time :
      (env : Env) (acceptor : Address)
      → (AtomicSwap.accept_swap tok env id acceptor w).0 ≡ ok tt
      → env.now < s.expiry
  unfolding AtomicSwap.accept_swap
  accept_in_time env acceptor x = ground arith

  refund_in_time :
      (env : Env) → (AtomicSwap.refund_swap tok env id w).0 ≡ ok tt → s.expiry ≤ env.now
  unfolding AtomicSwap.refund_swap
  refund_in_time env x = ground arith

  -- At one time a swap can be accepted or refunded, never both: where an acceptance would succeed, a refund at
  -- the same time stamp or earlier would not, whoever invokes it.
  pub accept_excludes_refund :
      (env env' : Env) (acceptor : Address)
      → env'.now ≤ env.now
      → (AtomicSwap.accept_swap tok env id acceptor w).0 ≡ ok tt
      → (AtomicSwap.refund_swap tok env' id w).0 ≢ ok tt
  accept_excludes_refund env env' acceptor t x y =
      omega (arith, accept_in_time env acceptor x, refund_in_time env' y)

  -- On well-formed storage, from the expiry on, the creator of a swap that is not over and has a deposit
  -- gets `Ok` for a signed refund, if the token contracts make the transfers; the swap is refunded then,
  -- and every deposit that was made went back.
  pub refund_swap_available :
      (env : Env)
      → IsWellFormed w.store
      → is_over s.state ≡ false
      → (s.creator_funded || s.counterparty_funded) ≡ true
      → s.expiry ≤ env.now
      → env.signed s.creator ≡ true
      → Returns tok side_a s env.contract w.tokens
      → Returns tok side_b s env.contract (returned tok side_a s env.contract w.tokens)
      → let (r, w') = AtomicSwap.refund_swap tok env id w in
        (r ≡ ok tt)
        × (w'.store.swaps id ≡ some (closed s))
        × (w'.tokens
            ≡ returned tok side_b s env.contract (returned tok side_a s env.contract w.tokens))
  unfolding AtomicSwap.refund_swap
  refund_swap_available env g l f t c ra rb = elim (Bool-cases s.creator_funded) [
    | inl fa ↦ elim (Bool-cases s.counterparty_funded) [
      | inl fb ↦
          let (x, na) = ra fa in
          let (y, nb) = rb fb in
          (ground arith, ground (arith, (filed g id s p).keyed), ground arith)
      | inr fb ↦
          let (x, na) = ra fa in
          (ground arith, ground (arith, (filed g id s p).keyed), ground arith)
    ]
    | inr fa ↦ elim (Bool-cases s.counterparty_funded) [
      | inl fb ↦
          let (y, nb) = rb fb in
          (ground arith, ground (arith, (filed g id s p).keyed), ground arith)
      | inr fb ↦ absurd (ground arith)
    ]
  ]

  -- A side is funded once: right after a deposit that was accepted, another one by the same party on the same
  -- swap is refused as an invalid state, and writes nothing.
  fund_swap_twice :
      (env env' : Env) (funder : Address)
      → IsWellFormed w.store
      → env'.signed funder ≡ true
      → (AtomicSwap.fund_swap tok env id funder w).0 ≡ ok tt
      → let w' = (AtomicSwap.fund_swap tok env id funder w).1 in
        AtomicSwap.fund_swap tok env' id funder w' ≡ (err invalid_state, w')
  unfolding AtomicSwap.fund_swap
  fund_swap_twice env env' funder g u x = let k = (filed g id s p).keyed in ground (arith, k)
