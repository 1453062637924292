-- ===== src/Host/Tokens.antt =====
-- The token contracts. Their code is not part of the repository: a contract calls them by
-- `env.try_invoke_contract(asset, "balance" | "transfer", …)`, and the two calls are parameters.
use swaptrade_contract.Prelude.{sym, arith, ◌≡◌, ◌≢◌, Option, some, ◌==◌, if◌then◌else◌}
use swaptrade_contract.Prelude.Int.{ℤ, ◌+ℤ◌, ◌-ℤ◌}
use swaptrade_contract.Host.{Address}

-- `L` is the state of all token contracts. `balance asset holder` answers `some` for `Ok(Ok(_))`;
-- `transfer asset from to amount` answers `some` for `Ok(Ok(_))`, beside the state after the call.
pub record Tokens (L : Type 0) : Type 0 where
  pub balance : Address → Address → L → Option ℤ
  pub transfer : Address → Address → Address → ℤ → L → Option ℤ × L

-- What a token's documentation says of `transfer`: a transfer that succeeds between two
-- different holders takes the amount from the one, gives it to the other, and touches no other
-- holding. `holding asset holder` is what the token's ledger has for a holder.
pub record IsToken {L : Type 0} (tok : Tokens L) (holding : Address → Address → L → ℤ)
    : Type 0 where
  pub moved :
      (asset from to : Address) (amount : ℤ) (l : L) (r : ℤ)
      → (tok.transfer asset from to amount l).0 ≡ some r
      → from ≢ to
      → (a h : Address)
      → holding a h (tok.transfer asset from to amount l).1 ≡ (
          if a == asset
          then (if h == from
              then holding a h l -ℤ amount
              else if h == to
              then holding a h l +ℤ amount
              else holding a h l)
          else holding a h l)

-- The contract's holding after it has received a transfer, and after it has made one.
module _ {L : Type 0} {tok : Tokens L} {holding : Address → Address → L → ℤ}
    (law : IsToken tok holding) (self : Address) (asset other : Address) (amount : ℤ) (l : L)
    (r : ℤ) (ne : other ≢ self) where
  pub holding_received :
      (tok.transfer asset other self amount l).0 ≡ some r
      → (a : Address)
      → holding a self (tok.transfer asset other self amount l).1
        ≡ (if a == asset then holding a self l +ℤ amount else holding a self l)
  holding_received h a = ground (arith, law.moved asset other self amount l r h ne a self)

  pub holding_paid :
      (tok.transfer asset self other amount l).0 ≡ some r
      → (a : Address)
      → holding a self (tok.transfer asset self other amount l).1
        ≡ (if a == asset then holding a self l -ℤ amount else holding a self l)
  holding_paid h a =
      ground (arith, law.moved asset self other amount l r h (λ e. ne (sym e)) a self)

-- A payment of one holder to another, as the ledgers of all tokens show it: the one has the amount less, the
-- other has it more, and no other holding of any asset is changed.
pub record IsPayment {L : Type 0} (holding : Address → Address → L → ℤ) (asset from to : Address)
    (amount : ℤ) (l l' : L) : Type 0 where
  pub holdings :
      (a h : Address)
      → holding a h l' ≡ (
          if a == asset
          then (if h == from
              then holding a h l -ℤ amount
              else if h == to
              then holding a h l +ℤ amount
              else holding a h l)
          else holding a h l)

pub transfer-IsPayment :
    {L : Type 0} {tok : Tokens L} {holding : Address → Address → L → ℤ} (law : IsToken tok holding)
    (asset from to : Address) (amount : ℤ) (l : L) (r : ℤ)
    → (tok.transfer asset from to amount l).0 ≡ some r
    → from ≢ to
    → IsPayment holding asset from to amount l (tok.transfer asset from to amount l).1
transfer-IsPayment law asset from to amount l r x ne = record {
  holdings = law.moved asset from to amount l r x ne;
}
