-- ===== src/Escrow/WellFormed.antt =====
-- The well-formedness of the storage of swaptrade-contracts/escrow-dispute/src/storage.rs.
use swaptrade_contract.Prelude.{
  ℕ, ◌≡◌, ◌≢◌, ◌≤◌, ◌<◌, ◌⊎◌, inl, inr, refl, sym, subst, Option, none, some, arith, Option-cases,
}
use swaptrade_contract.Prelude.Int.{pos, ◌≤ℤ◌}
use swaptrade_contract.Prelude.Maps.{set, every-set_left, every-set_right, every-set_both}
use swaptrade_contract.Escrow.Types.{
  Escrow, Dispute, EscrowState, DisputeStatus, created, escrowed, disputed, released, refunded,
  opened, resolved_release, resolved_refund, auto_refunded,
}
use swaptrade_contract.Escrow.Storage.{Store, next, deployed}

-- The states of an escrow that has no dispute, and those that go with a dispute's status.
abbrev pub Undisputed : EscrowState → Type 0
Undisputed created = Unit
Undisputed escrowed = Unit
Undisputed refunded = Unit
Undisputed _ = ⊥

abbrev pub Agrees : DisputeStatus → EscrowState → Type 0
Agrees opened disputed = Unit
Agrees resolved_release released = Unit
Agrees resolved_refund refunded = Unit
Agrees auto_refunded refunded = Unit
Agrees _ _ = ⊥

pub record IsFiled (id : ℕ) (e : Escrow) : Type 0 where
  pub keyed : e.id ≡ id
  pub positive : pos 1 ≤ℤ e.amount
  pub parties : e.seller ≢ e.buyer

pub record IsAbout (id : ℕ) (d : Dispute) (e : Escrow) : Type 0 where
  pub keyed : d.escrow_id ≡ id
  pub uncounted : d.vote_count ≡ 0
  pub agrees : Agrees d.status e.state

-- What the storage has under one id.
abbrev pub Entry : ℕ → Option Escrow → Option Dispute → Type 0
Entry id none none = Unit
Entry id none (some d) = ⊥
Entry id (some e) none = IsFiled id e × Undisputed e.state
Entry id (some e) (some d) = IsFiled id e × IsAbout id d e

pub record IsWellFormed (s : Store) : Type 0 where
  pub positive : 1 ≤ next s
  pub fresh : (id : ℕ) → next s ≤ id → s.escrows id ≡ none
  pub entries : (id : ℕ) → Entry id (s.escrows id) (s.disputes id)

pub deployed-IsWellFormed : IsWellFormed deployed
deployed-IsWellFormed = record { positive = omega arith; fresh = λ id h. refl; entries = λ id. tt }

module _ {s : Store} (h : IsWellFormed s) where
  -- An escrow that is found has an id below the next one.
  pub below_next : (id : ℕ) (e : Escrow) → s.escrows id ≡ some e → id < next s
  below_next id e p = grind (arith, h.fresh id)

  -- A write under an id in use keeps the storage well formed, if the new entry is.
  pub put_escrow :
      (k : ℕ) (e : Escrow)
      → k < next s
      → Entry k (some e) (s.disputes k)
      → IsWellFormed (record s { escrows = set s.escrows k e })
  put_escrow k e b n = record {
    positive = h.positive;
    fresh = λ id l. ground (arith, h.fresh id);
    entries = every-set_left Entry k e h.entries n;
  }

  pub put_dispute :
      (k : ℕ) (d : Dispute)
      → Entry k (s.escrows k) (some d)
      → IsWellFormed (record s { disputes = set s.disputes k d })
  put_dispute k d n = record {
    positive = h.positive;
    fresh = h.fresh;
    entries = every-set_right Entry k d h.entries n;
  }

  pub put_both :
      (k : ℕ) (e : Escrow) (d : Dispute)
      → k < next s
      → Entry k (some e) (some d)
      → IsWellFormed (record s { escrows = set s.escrows k e; disputes = set s.disputes k d })
  put_both k e d b n = record {
    positive = h.positive;
    fresh = λ id l. ground (arith, h.fresh id);
    entries = every-set_both Entry k e d h.entries n;
  }

  -- The entry of an escrow that is found, by whether it has a dispute.
  pub filed : (id : ℕ) (e : Escrow) → s.escrows id ≡ some e → IsFiled id e
  filed id e p = go (s.disputes id) (rw p at (h.entries id))
    where
      go : (o : Option Dispute) → Entry id (some e) o → IsFiled id e
      go none n = n.0
      go (some d) n = n.0

  -- It stands under its own id.
  pub own_id : (id : ℕ) (e : Escrow) → s.escrows id ≡ some e → s.escrows e.id ≡ some e
  own_id id e p = subst (λ i. s.escrows i ≡ some e) (sym (filed id e p).keyed) p

  pub about :
      (id : ℕ) (e : Escrow) (d : Dispute)
      → s.escrows id ≡ some e
      → s.disputes id ≡ some d
      → IsAbout id d e
  about id e d p q = (rw (p, q) at (h.entries id)).1

  -- An open dispute freezes its escrow.
  pub open_disputed :
      (id : ℕ) (e : Escrow) (d : Dispute)
      → s.escrows id ≡ some e
      → s.disputes id ≡ some d
      → d.status ≡ opened
      → e.state ≡ disputed
  open_disputed id e d p q o = ground (arith, (about id e d p q).agrees)

  -- An escrow that is not disputed and was not released has no dispute.
  pub undisputed :
      (id : ℕ) (e : Escrow)
      → s.escrows id ≡ some e
      → (e.state ≡ created) ⊎ (e.state ≡ escrowed)
      → s.disputes id ≡ none
  undisputed id e p c = elim (Option-cases (s.disputes id)) [
    | inl n ↦ n
    | inr (d, q) ↦ absurd (ground (arith, (about id e d p q).agrees))
  ]
