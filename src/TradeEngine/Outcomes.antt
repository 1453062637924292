-- ===== src/TradeEngine/Outcomes.antt =====
-- What the entry points of the trade engine answer.
use swaptrade_contract.Prelude.{ℕ, ◌≡◌, refl, inl, inr, true, List, [], ◌∷◌, length, arith}
use swaptrade_contract.Host.{Address, Env, World, ok, Result-cases}
use swaptrade_contract.Host.Tokens.{Tokens}
use swaptrade_contract.TradeEngine
use swaptrade_contract.TradeEngine.Types.{TradeLeg, TradeExecutionResult, FillResult, Event}
use swaptrade_contract.TradeEngine.Storage.{Store}
use swaptrade_contract.TradeEngine.Matching
use swaptrade_contract.TradeEngine.Matching.{match_legs}
use swaptrade_contract.TradeEngine.Matching.Fills.{CompletesAll, match_legs-CompletesAll}

module _ {L : Type 0} (tok : Tokens L) (env : Env) (trader : Address) where
  -- A trade that was executed is what the loop over its legs gave.
  pub trade_lem :
      (legs : List TradeLeg) (r : TradeExecutionResult) (w : World Store Event L)
      → (TradeEngine.execute_multi_pair_trade tok env trader legs w).0 ≡ ok r
      → (n : ℕ) × (fills : List FillResult) × ((match_legs tok env trader legs 0 [] w).0
          ≡ ok (n, fills))
        × ((TradeEngine.execute_multi_pair_trade tok env trader legs w).1.store
            ≡ (match_legs tok env trader legs 0 [] w).1.store)
        × (r ≡ record { success = true; legs_executed = n; fills = fills })
  unfolding TradeEngine.execute_multi_pair_trade Matching.execute_multi_pair_trade
  trade_lem [] r w h = absurd (ground arith)
  trade_lem (leg ∷ legs) r w h =
      elim (Result-cases (match_legs tok env trader (leg ∷ legs) 0 [] w).0) [
        | inl ((n, fills), e) ↦ (n, fills, e, ground arith, ground arith)
        | inr (inl (x, e)) ↦ absurd (ground arith)
        | inr (inr e) ↦ absurd (ground arith)
      ]

  -- Where a trade returns `Ok`, its result counts all legs, and the fills are those of the legs, in
  -- order: those of each leg sum up to exactly its amount of the base asset, each has a price in
  -- the leg's limit and, from the book, the quote amount of its price, and what they give of the
  -- asset bought is at least the leg's `min_output_amount`, where that is positive.
  pub trade-CompletesAll :
      (legs : List TradeLeg) (r : TradeExecutionResult) (w : World Store Event L)
      → (TradeEngine.execute_multi_pair_trade tok env trader legs w).0 ≡ ok r
      → (r.success ≡ true) × (r.legs_executed ≡ length legs) × CompletesAll legs r.fills
  trade-CompletesAll legs r w h =
      let (n, fills, m, l, e) = trade_lem legs r w h in
      let (more, p, k, c) = match_legs-CompletesAll tok env trader legs 0 n [] fills w m in
      rw (e, p) (refl, omega (arith, k), c)
