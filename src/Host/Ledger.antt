-- ===== src/Host/Ledger.antt =====
-- Token contracts that can run, for the tests: every balance as a function, and a transfer that is
-- refused where the amount is negative or not covered. They meet what `Host.Tokens` asks.
use swaptrade_contract.Prelude.{◌&&◌, none, some, ◌==◌, if◌then◌else◌, arith}
use swaptrade_contract.Prelude.Int.{ℤ, pos, leb_ℤ, ◌+ℤ◌, ◌-ℤ◌}
use swaptrade_contract.Host.{Address}
use swaptrade_contract.Host.Tokens.{Tokens, IsToken}

abbrev pub Ledger : Type 0
Ledger = Address → Address → ℤ

abbrev pub holding : Address → Address → Ledger → ℤ
holding asset holder l = l asset holder

abbrev pub pay : Address → Address → Address → ℤ → Ledger → Ledger
pay asset from to amount l a h =
    if a == asset
    then (if h == from then l a h -ℤ amount else if h == to then l a h +ℤ amount else l a h)
    else l a h

abbrev pub ledger : Tokens Ledger
ledger = record {
  balance = λ asset holder l. some (l asset holder);
  transfer = λ asset from to amount l.
      if leb_ℤ (pos 0) amount && leb_ℤ amount (l asset from)
      then (some amount, pay asset from to amount l)
      else (none, l);
}

pub ledger-IsToken : IsToken ledger holding
ledger-IsToken = record { moved = λ asset from to amount l r done ne a h. ground arith }
