-- ===== src/Escrow/Refinement.antt =====
-- The entry points of swaptrade-contracts/escrow-dispute/src/lib.rs against the machine of `Moves`.
use swaptrade_contract.Prelude.{
  ℕ, ◌≡◌, ◌≢◌, inl, inr, refl, ◌∙◌, Bool, false, none, some, List, leb, arith, Option-cases,
  Bool-cases,
}
use swaptrade_contract.Prelude.Int.{ℤ, ◌≤ℤ◌}
use swaptrade_contract.Host.{Address, saturating_add, Env, ok, invoke_cases}
use swaptrade_contract.Host.Tokens.{Tokens}
use swaptrade_contract.Escrow
use swaptrade_contract.Escrow.Types.{Escrow, Dispute, created, opened}
use swaptrade_contract.Escrow.Storage.{
  next, update_escrow, update_dispute, load_threshold, count_release_votes,
}
use swaptrade_contract.Escrow.Calls.{State, Call, perform, Step, invoked, elsewhere}
use swaptrade_contract.Escrow.Moves.{
  Moves, Verdict, release, refund, expire, status_of, state_of, payee, IsDue, configuring, opening,
  funding, disputing, arguing, voting, settling, cancelling,
}

module _ {L : Type 0} (tok : Tokens L) (env : Env) (w : State L) where
  initialize-Moves :
      (admin : Address) (signers : List Address) (threshold window : ℕ)
      → (Escrow.initialize env admin signers threshold window w).0 ≡ ok tt
      → Moves tok env w (Escrow.initialize env admin signers threshold window w).1
  unfolding Escrow.initialize
  initialize-Moves admin signers threshold window h =
      configuring (ground arith) (ground arith) (ground arith) (ground arith) (ground arith)
        (ground arith)

  create_escrow-Moves :
      (seller buyer asset : Address) (amount : ℤ) (timelock nonce : ℕ) {id : ℕ}
      → (Escrow.create_escrow tok env seller buyer asset amount timelock nonce w).0 ≡ ok id
      → Moves tok env w (Escrow.create_escrow tok env seller buyer asset amount timelock nonce w).1
  unfolding Escrow.create_escrow
  create_escrow-Moves seller buyer asset amount timelock nonce h =
      elim (Option-cases (w.store.nonces seller nonce)) [
        | inl p ↦
            opening
              (record {
                id = next w.store;
                nonce = nonce;
                seller = seller;
                buyer = buyer;
                asset = asset;
                amount = amount;
                state = created;
                created_at = env.now;
              })
              refl refl (ground arith) (ground arith) (ground arith) p (ground arith) (ground arith)
        | inr (id', p) ↦
            configuring (ground arith) (ground arith) (ground arith) (ground arith) (ground arith)
              (ground arith)
      ]

  fund_escrow-Moves :
      (id : ℕ) (funder : Address)
      → (Escrow.fund_escrow tok env id funder w).0 ≡ ok tt
      → Moves tok env w (Escrow.fund_escrow tok env id funder w).1
  unfolding Escrow.fund_escrow
  fund_escrow-Moves id funder h = elim (Option-cases (w.store.escrows id)) [
    | inl p ↦ absurd (ground arith)
    | inr (e, p) ↦
        elim (Option-cases (tok.transfer e.asset e.buyer env.contract e.amount w.tokens).0) [
          | inl q ↦ absurd (ground arith)
          | inr (r, q) ↦
              funding id e r p (ground arith) (ground arith) q (ground arith) (ground arith)
        ]
  ]

  raise_dispute-Moves :
      (id : ℕ) (disputer : Address) (window : ℕ)
      → (Escrow.raise_dispute env id disputer window w).0 ≡ ok tt
      → Moves tok env w (Escrow.raise_dispute env id disputer window w).1
  unfolding Escrow.raise_dispute
  raise_dispute-Moves id disputer window h = elim (Option-cases (w.store.escrows id)) [
    | inl p ↦ absurd (ground arith)
    | inr (e, p) ↦
        disputing id e
          (record {
            escrow_id = id;
            raised_by = disputer;
            status = opened;
            raised_at = env.now;
            deadline = saturating_add env.now window;
            evidence_count = 0;
            vote_count = 0;
          })
          p (ground arith) (ground arith) (ground arith) refl refl refl (ground arith)
          (ground arith)
  ]

  submit_evidence-Moves :
      (id : ℕ) (submitter : Address) (hash description : ℕ)
      → (Escrow.submit_evidence env id submitter hash description w).0 ≡ ok tt
      → Moves tok env w (Escrow.submit_evidence env id submitter hash description w).1
  unfolding Escrow.submit_evidence
  submit_evidence-Moves id submitter hash description h =
      elim (Option-cases (w.store.disputes id)) [
        | inl q ↦ absurd (ground arith)
        | inr (d, q) ↦ elim (Option-cases (w.store.escrows id)) [
          | inl p ↦ absurd (ground arith)
          | inr (e, p) ↦
              arguing id e d
                (record {
                  hash = hash;
                  submitted_by = submitter;
                  submitted_at = env.now;
                  description = description;
                })
                p q (ground arith) (ground arith) (ground arith) (ground arith)
        ]
      ]

  vote-Moves :
      (id : ℕ) (signer : Address) (in_favour : Bool)
      → (Escrow.vote env id signer in_favour w).0 ≡ ok tt
      → Moves tok env w (Escrow.vote env id signer in_favour w).1
  unfolding Escrow.vote
  vote-Moves id signer in_favour h = elim (Option-cases (w.store.disputes id)) [
    | inl q ↦ absurd (ground arith)
    | inr (d, q) ↦
        voting id d
          (record { signer = signer; in_favour_of_release = in_favour; voted_at = env.now }) q
          (ground arith) (ground arith) (ground arith) (ground arith) (ground arith) (ground arith)
  ]

  -- The three ways in which a dispute ends.
  settle :
      (id : ℕ) (e : Escrow) (d : Dispute) (v : Verdict) (w' : State L)
      → w.store.escrows id ≡ some e
      → w.store.disputes id ≡ some d
      → d.status ≡ opened
      → IsDue env id w.store d v
      → (tok.transfer e.asset env.contract (payee v e) e.amount w.tokens).0 ≢ none
      → w'.store
        ≡ update_dispute
            (record d { status = status_of v })
            (update_escrow (record e { state = state_of v }) w.store)
      → w'.tokens ≡ (tok.transfer e.asset env.contract (payee v e) e.amount w.tokens).1
      → Moves tok env w w'
  settle id e d v w' p q o due paid s t =
      elim (Option-cases (tok.transfer e.asset env.contract (payee v e) e.amount w.tokens).0) [
        | inl n ↦ absurd (paid n)
        | inr (r, n) ↦ settling id e d v r p q o due n s t
      ]

  resolve_dispute-Moves :
      (id : ℕ) (resolver : Address)
      → (Escrow.resolve_dispute tok env id resolver w).0 ≡ ok tt
      → Moves tok env w (Escrow.resolve_dispute tok env id resolver w).1
  unfolding Escrow.resolve_dispute
  resolve_dispute-Moves id resolver h = elim (Option-cases (w.store.disputes id)) [
    | inl q ↦ absurd (ground arith)
    | inr (d, q) ↦ elim (Option-cases (w.store.escrows id)) [
      | inl p ↦ absurd (ground arith)
      | inr (e, p) ↦
          elim (Bool-cases (leb (load_threshold w.store) (count_release_votes id w.store))) [
            | inl b ↦
                settle id e d release (Escrow.resolve_dispute tok env id resolver w).1 p q
                  (ground arith) (ground arith) (ground arith) (ground arith) (ground arith)
            | inr b ↦
                settle id e d refund (Escrow.resolve_dispute tok env id resolver w).1 p q
                  (ground arith) (ground arith, ground arith) (ground arith) (ground arith)
                  (ground arith)
          ]
    ]
  ]

  auto_refund-Moves :
      (id : ℕ)
      → (Escrow.auto_refund tok env id w).0 ≡ ok tt
      → Moves tok env w (Escrow.auto_refund tok env id w).1
  unfolding Escrow.auto_refund
  auto_refund-Moves id h = elim (Option-cases (w.store.disputes id)) [
    | inl q ↦ absurd (ground arith)
    | inr (d, q) ↦ elim (Option-cases (w.store.escrows id)) [
      | inl p ↦ absurd (ground arith)
      | inr (e, p) ↦
          settle id e d expire (Escrow.auto_refund tok env id w).1 p q (ground arith) (ground arith)
            (ground arith) (ground arith) (ground arith)
    ]
  ]

  cancel_escrow-Moves :
      (id : ℕ)
      → (Escrow.cancel_escrow env id w).0 ≡ ok tt
      → Moves tok env w (Escrow.cancel_escrow env id w).1
  unfolding Escrow.cancel_escrow
  cancel_escrow-Moves id h = elim (Option-cases (w.store.escrows id)) [
    | inl p ↦ absurd (ground arith)
    | inr (e, p) ↦ cancelling id e p (ground arith) (ground arith) (ground arith) (ground arith)
  ]

  set_dispute_window-Moves :
      (caller : Address) (seconds : ℕ)
      → (Escrow.set_dispute_window env caller seconds w).0 ≡ ok tt
      → Moves tok env w (Escrow.set_dispute_window env caller seconds w).1
  unfolding Escrow.set_dispute_window
  set_dispute_window-Moves caller seconds h =
      configuring (ground arith) (ground arith) (ground arith) (ground arith) (ground arith)
        (ground arith)

  set_min_timelock-Moves :
      (caller : Address) (seconds : ℕ)
      → (Escrow.set_min_timelock env caller seconds w).0 ≡ ok tt
      → Moves tok env w (Escrow.set_min_timelock env caller seconds w).1
  unfolding Escrow.set_min_timelock
  set_min_timelock-Moves caller seconds h =
      configuring (ground arith) (ground arith) (ground arith) (ground arith) (ground arith)
        (ground arith)

  create_ok :
      (seller buyer asset : Address) (amount : ℤ) (timelock nonce : ℕ)
      → (perform tok env (Call.create_escrow seller buyer asset amount timelock nonce) w).0 ≡ ok tt
      → (id : ℕ) × ((Escrow.create_escrow tok env seller buyer asset amount timelock nonce w).0
          ≡ ok id)
        × ((perform tok env (Call.create_escrow seller buyer asset amount timelock nonce) w).1
            ≡ (Escrow.create_escrow tok env seller buyer asset amount timelock nonce w).1)
  unfolding perform
  create_ok seller buyer asset amount timelock nonce h = ground arith

  -- Every call that returns `Ok` is one step of the abstract machine.
  pub perform-Moves :
      (c : Call) → (perform tok env c w).0 ≡ ok tt → Moves tok env w (perform tok env c w).1
  unfolding perform
  perform-Moves (Call.initialize admin signers threshold window) h =
      initialize-Moves admin signers threshold window h
  perform-Moves (Call.create_escrow seller buyer asset amount timelock nonce) h =
      let (id, r, s) = create_ok seller buyer asset amount timelock nonce h in
      rw s (create_escrow-Moves seller buyer asset amount timelock nonce r)
  perform-Moves (Call.fund_escrow id funder) h = fund_escrow-Moves id funder h
  perform-Moves (Call.raise_dispute id disputer window) h = raise_dispute-Moves id disputer window h
  perform-Moves (Call.submit_evidence id submitter hash description) h =
      submit_evidence-Moves id submitter hash description h
  perform-Moves (Call.vote id signer in_favour) h = vote-Moves id signer in_favour h
  perform-Moves (Call.resolve_dispute id resolver) h = resolve_dispute-Moves id resolver h
  perform-Moves (Call.auto_refund id) h = auto_refund-Moves id h
  perform-Moves (Call.cancel_escrow id) h = cancel_escrow-Moves id h
  perform-Moves (Call.set_dispute_window caller seconds) h =
      set_dispute_window-Moves caller seconds h
  perform-Moves (Call.set_min_timelock caller seconds) h = set_min_timelock-Moves caller seconds h

-- A step of the contract or of the tokens, as the invariants read it.
module _ {L : Type 0} (tok : Tokens L) (holding : Address → Address → L → ℤ) (self : Address) where
  pub data Progress (w w' : State L) : Type 0 where
    stays : w' ≡ w → Progress w w'
    moves :
        (env : Env)
        → env.contract ≡ self
        → env.signed self ≡ false
        → Moves tok env w w'
        → Progress w w'
    outside :
        (l : L)
        → ((asset : Address) → holding asset self w.tokens ≤ℤ holding asset self l)
        → w' ≡ record w { tokens = l }
        → Progress w w'

module _ {L : Type 0} {tok : Tokens L} {holding : Address → Address → L → ℤ} {self : Address} where
  -- A call that fails changes nothing, and one that succeeds is a step of the abstract machine.
  pub Step-Progress : {w w' : State L} → Step tok holding self w w' → Progress tok holding self w w'
  Step-Progress {w} (invoked env c at unsigned e) = elim (invoke_cases (perform tok env c) w) [
    | inl same ↦ stays (e ∙ same)
    | inr (_, done, kept) ↦ moves env at unsigned (rw (e, kept) (perform-Moves tok env w c done))
  ]
  Step-Progress (elsewhere l more e) = outside l more e
