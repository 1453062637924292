-- ===== src/Escrow/Events.antt =====
-- The events of the escrow contract: swaptrade-contracts/escrow-dispute/src/events.rs.
use swaptrade_contract.Prelude.{ℕ}
use swaptrade_contract.Prelude.Int.{ℤ}
use swaptrade_contract.Host.{Address, Env}
use swaptrade_contract.Escrow.Types.{
  Escrow, Dispute, DisputeEvidence, DisputeStatus, resolved_release, resolved_refund,
}

-- The symbol that `dispute_resolved` publishes.
pub data Outcome : Type 0 where
  release refund unknown : Outcome

-- One constructor for each topic, with the topic's id and the payload's fields in order.
pub data Event : Type 0 where
  created : ℕ → Address → Address → Address → ℤ → ℕ → Event
  funded : ℕ → Address → Address → ℤ → ℕ → Event
  released : ℕ → Address → Address → ℤ → ℕ → Event
  refunded : ℕ → Address → Address → ℤ → ℕ → Event
  disputed : ℕ → Address → ℕ → ℕ → Event
  evidence : ℕ → Address → ℕ → ℕ → ℕ → Event
  resolved : ℕ → Address → Outcome → ℕ → Event
  autorefund : ℕ → ℕ → ℕ → Event

abbrev pub escrow_created : Env → Escrow → Event
escrow_created env e = created e.id e.seller e.buyer e.asset e.amount env.now

abbrev pub escrow_funded : Env → Escrow → Event
escrow_funded env e = funded e.id e.buyer e.asset e.amount env.now

abbrev pub dispute_raised : Dispute → Event
dispute_raised d = disputed d.escrow_id d.raised_by d.deadline d.raised_at

abbrev pub evidence_submitted : Dispute → DisputeEvidence → Event
evidence_submitted d v = evidence d.escrow_id v.submitted_by v.hash v.description v.submitted_at

abbrev pub outcome : DisputeStatus → Outcome
outcome resolved_release = release
outcome resolved_refund = refund
outcome _ = unknown

abbrev pub dispute_resolved : Env → Dispute → Address → Event
dispute_resolved env d by = resolved d.escrow_id by (outcome d.status) env.now

abbrev pub escrow_released : Env → Escrow → Event
escrow_released env e = released e.id e.seller e.asset e.amount env.now

abbrev pub escrow_refunded : Env → Escrow → Event
escrow_refunded env e = refunded e.id e.buyer e.asset e.amount env.now

abbrev pub dispute_auto_refunded : Env → Dispute → Event
dispute_auto_refunded env d = autorefund d.escrow_id d.deadline env.now
