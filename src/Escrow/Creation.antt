-- ===== src/Escrow/Creation.antt =====
-- `create_escrow` and `initialize` of swaptrade-contracts/escrow-dispute/src/lib.rs.
use swaptrade_contract.Prelude.{
  ℕ, ◌≡◌, ◌≢◌, ◌≤◌, ◌<◌, refl, true, ◌||◌, none, some, List, [], ◌∷◌, length, ◌==◌, arith,
}
use swaptrade_contract.Prelude.Int.{ℤ, pos, ◌≤ℤ◌}
use swaptrade_contract.Host.{Address, Env, ok}
use swaptrade_contract.Host.Tokens.{Tokens}
use swaptrade_contract.Escrow
use swaptrade_contract.Escrow.{without_admin}
use swaptrade_contract.Escrow.Storage.{
  find_by_nonce, min_timelock, is_signer, contains, load_signers, load_threshold,
}
use swaptrade_contract.Escrow.Calls.{State, Reach, here}
use swaptrade_contract.Escrow.Calls
use swaptrade_contract.Escrow.Moves.{
  Moves, configuring, opening, funding, disputing, arguing, voting, settling, cancelling,
}
use swaptrade_contract.Escrow.Refinement.{Progress, stays, moves, outside, Step-Progress}

module _ {L : Type 0} {tok : Tokens L} {env : Env} {w w' : State L} where
  -- An entry of the nonce index is never written again.
  Moves-nonce :
      Moves tok env w w'
      → (a : Address) (n id : ℕ) → find_by_nonce a n w.store ≡ some id
      → find_by_nonce a n w'.store ≡ some id
  Moves-nonce (configuring x d v o n t) a k id h = rw o h
  Moves-nonce (opening f k c b p g u s t) a n id h = rw s (ground arith)
  Moves-nonce (funding j f r p c g x s t) a n id h = rw s h
  Moves-nonce (disputing j f d p c g1 g2 k o u s t) a n id h = rw s h
  Moves-nonce (arguing j f d v p r o g s t) a n id h = rw s h
  Moves-nonce (voting j d v p o g g2 k s t) a n id h = rw s h
  Moves-nonce (settling j f d v r p z o due x s t) a n id h = rw s h
  Moves-nonce (cancelling j f p c g s t) a n id h = rw s h

module _ {L : Type 0} {tok : Tokens L} {holding : Address → Address → L → ℤ} {self : Address} where
  Step-nonce :
      {w w' : State L}
      → Progress tok holding self w w'
      → (a : Address) (n id : ℕ) → find_by_nonce a n w.store ≡ some id
      → find_by_nonce a n w'.store ≡ some id
  Step-nonce (stays e) a n id h = rw e h
  Step-nonce (moves env at unsigned m) a n id h = Moves-nonce m a n id h
  Step-nonce (outside l more e) a n id h = rw e h

  Reach-nonce :
      {w w' : State L}
      → Reach tok holding self w w'
      → (a : Address) (n id : ℕ) → find_by_nonce a n w.store ≡ some id
      → find_by_nonce a n w'.store ≡ some id
  Reach-nonce here a n id h = h
  Reach-nonce (Calls.next r s) a n id h =
      Step-nonce (Step-Progress s) a n id (Reach-nonce r a n id h)

module _ {L : Type 0} (tok : Tokens L) (env : Env) (seller buyer asset : Address) (amount : ℤ)
    (timelock nonce : ℕ) (w : State L) where
  create-find_by_nonce :
      (id : ℕ)
      → (Escrow.create_escrow tok env seller buyer asset amount timelock nonce w).0 ≡ ok id
      → find_by_nonce seller nonce
          (Escrow.create_escrow tok env seller buyer asset amount timelock nonce w).1.store
        ≡ some id
  unfolding Escrow.create_escrow
  create-find_by_nonce id h = ground arith

  create_known :
      (id : ℕ)
      → find_by_nonce seller nonce w.store ≡ some id
      → env.signed seller ≡ true
      → pos 1 ≤ℤ amount
      → seller ≢ buyer
      → min_timelock w.store ≤ timelock
      → tok.balance asset seller w.tokens ≢ none
      → Escrow.create_escrow tok env seller buyer asset amount timelock nonce w ≡ (ok id, w)
  unfolding Escrow.create_escrow
  create_known id n s a p t b = ground arith

module _ {L : Type 0} {tok : Tokens L} {holding : Address → Address → L → ℤ} {self : Address} where
  -- After a creation that returned `id`, whatever is invoked in between, a valid creation by the same seller
  -- with the same nonce, whatever its other terms, returns `id` again and changes nothing.
  pub create_twice :
      (env env' : Env) (seller buyer buyer' asset asset' : Address) (amount amount' : ℤ)
      (timelock timelock' nonce id : ℕ) (w w' : State L)
      → (Escrow.create_escrow tok env seller buyer asset amount timelock nonce w).0 ≡ ok id
      → Reach tok holding self
          (Escrow.create_escrow tok env seller buyer asset amount timelock nonce w).1
          w'
      → env'.signed seller ≡ true
      → pos 1 ≤ℤ amount'
      → seller ≢ buyer'
      → min_timelock w'.store ≤ timelock'
      → tok.balance asset' seller w'.tokens ≢ none
      → Escrow.create_escrow tok env' seller buyer' asset' amount' timelock' nonce w' ≡ (ok id, w')
  create_twice env env' seller buyer buyer' asset asset' amount amount' timelock timelock' nonce id
        w w' h r s a p t b =
      create_known tok env' seller buyer' asset' amount' timelock' nonce w' id
        (Reach-nonce r seller nonce id
          (create-find_by_nonce tok env seller buyer asset amount timelock nonce w id h))
        s a p t b

contains-without_admin :
    (admin a : Address) (signers : List Address)
    → (contains (admin ∷ without_admin admin signers) a) ≡ (admin == a || contains signers a)
unfolding contains without_admin
contains-without_admin admin a [] = refl
contains-without_admin admin a (s ∷ ss) = ground (arith, contains-without_admin admin a ss)

module _ {L : Type 0} (env : Env) (admin : Address) (signers : List Address) (threshold window : ℕ)
    (w : State L) where
  initialize_store :
      (Escrow.initialize env admin signers threshold window w).0 ≡ ok tt
      → ((Escrow.initialize env admin signers threshold window w).1.store ≡ record w.store {
        signers = some (admin ∷ without_admin admin signers);
        threshold = some threshold;
        dispute_window = some window;
      })
        × (env.signed admin ≡ true)
        × (0 < threshold)
        × (threshold ≤ length (admin ∷ without_admin admin signers))
  unfolding Escrow.initialize
  initialize_store h = (ground arith, ground arith, ground arith, ground arith)

  -- After a successful `initialize` the signers are the admin and the given signers and no other address, the
  -- threshold is the given one, and it lies between 1 and the length of the list of signers.
  pub initialize_signers :
      (Escrow.initialize env admin signers threshold window w).0 ≡ ok tt
      → let s' = (Escrow.initialize env admin signers threshold window w).1.store in
        ((a : Address) → is_signer a s' ≡ (admin == a || contains signers a))
        × (load_threshold s' ≡ threshold)
        × (0 < load_threshold s')
        × (load_threshold s' ≤ length (load_signers s'))
  unfolding is_signer
  initialize_signers h =
      let (s, g, p, b) = initialize_store h in
      (λ a. rw s (contains-without_admin admin a signers), rw s refl, rw s p, rw s b)

  -- `initialize` can be repeated: whatever the storage holds, and whoever has initialized the contract before,
  -- an address that signs for itself becomes a signer by it, with a threshold of 1.
  pub initialize_again :
      env.signed admin ≡ true
      → let (r, w') = Escrow.initialize env admin [] 1 window w in
        (r ≡ ok tt)
        × (is_signer admin w'.store ≡ true)
        × (load_threshold w'.store ≡ 1)
        × (load_signers w'.store ≡ admin ∷ [])
  unfolding Escrow.initialize is_signer
  initialize_again s = (ground arith, ground arith, ground arith, ground arith)
