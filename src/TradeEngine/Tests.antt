-- ===== src/TradeEngine/Tests.antt =====
-- Runs of the trade engine, and its theorems at concrete inputs: two sellers of asset 5 against
-- asset 6, at the prices 2 and 1, and a buyer who takes 120. The contract is 99.
use swaptrade_contract.Prelude.{
  ℕ, ◌+◌, ◌-◌, ◌*◌, ◌≡◌, ◌≤◌, refl, true, false, not, [], ◌∷◌, ◌==◌, if◌then◌else◌, arith,
}
use swaptrade_contract.Prelude.Int.{ℤ, pos, ◌+ℤ◌, ◌-ℤ◌, ◌*ℤ◌}
use swaptrade_contract.Host.{Address, Env, ok, invoke}
use swaptrade_contract.Host.Ledger.{Ledger, ledger}
use swaptrade_contract.Host.Words.{
  saturating_mul_u128, saturating_add_i128, saturating_sub_i128, saturating_mul_i128,
}
use swaptrade_contract.TradeEngine
use swaptrade_contract.TradeEngine.Types.{
  TradeLeg, FillResult, TradeExecutionResult, buy, sell, limit,
}
use swaptrade_contract.TradeEngine.Storage.{deployed}
use swaptrade_contract.TradeEngine.OrderBook.{load_book, ids_of, insert_id, without_id}
use swaptrade_contract.TradeEngine.Pools.{get_amount_out}
use swaptrade_contract.TradeEngine.Pools.Bounds.{get_amount_out_product}
use swaptrade_contract.TradeEngine.Matching.{
  match_orders, match_order, match_leg, match_legs, fill_order, match_fallback,
}
use swaptrade_contract.TradeEngine.Matching
use swaptrade_contract.TradeEngine.Matching.Fills.{CompletesAll}
use swaptrade_contract.TradeEngine.Outcomes.{trade-CompletesAll}
use swaptrade_contract.TradeEngine.Priority.{Ranked, prices}
use swaptrade_contract.TradeEngine.Calls.{State, Call, perform, Reach, here}
use swaptrade_contract.TradeEngine.Calls
use swaptrade_contract.TradeEngine.Calls.Ranks.{books-IsRanked}
use swaptrade_contract.TradeEngine.Calls.Fillings.{FillingOf, orders-Filling}
use swaptrade_contract.TradeEngine.Calls.RoundTrip.{place_order-cancel_order}

-- Everybody signs, but for the contract.
abbrev env_at : ℕ → Env
env_at t = record { now = t; contract = 99; signed = λ a. not (a == 99) }

-- Everybody has 500 of every asset, the contract nothing.
abbrev balances : Ledger
balances asset holder = if holder == 99 then pos 0 else pos 500

abbrev start : State Ledger
start = record { store = deployed; tokens = balances; events = [] }

abbrev dear : Call
dear = Calls.place_order 10 5 6 sell limit 20000000 (pos 100) 0

abbrev cheap : Call
cheap = Calls.place_order 11 5 6 sell limit 10000000 (pos 50) 0

abbrev leg : TradeLeg
leg = record {
  base_asset = 5;
  quote_asset = 6;
  side = buy;
  amount = pos 120;
  limit_price = 20000000;
  min_output_amount = pos 120;
}

abbrev take : Call
take = Calls.execute_multi_pair_trade 20 (leg ∷ [])

abbrev after : Call → State Ledger → State Ledger
after c w = (invoke (perform ledger (env_at 100) c) w).1

abbrev offered : State Ledger
offered = after cheap (after dear start)

abbrev traded : State Ledger
traded = after take offered

abbrev offered_reach : Reach ledger start offered
offered_reach = Reach.next (env_at 100) cheap (Reach.next (env_at 100) dear here)

abbrev traded_reach : Reach ledger start traded
traded_reach = Reach.next (env_at 100) take offered_reach

books-IsRanked_example :
    Ranked buy (prices traded.store.orders) (ids_of buy (load_book 5 6 traded.store))
    × Ranked sell (prices traded.store.orders) (ids_of sell (load_book 5 6 traded.store))
books-IsRanked_example = books-IsRanked ledger refl traded_reach 5 6

orders-Filling_example : FillingOf (traded.store.orders 1)
orders-Filling_example = orders-Filling ledger refl traded_reach 1

-- The cheaper order is taken first, and the dearer one stays in the book with 30 left.
book_traded : ids_of sell (load_book 5 6 traded.store) ≡ 1 ∷ []
unfolding perform invoke TradeEngine.place_order TradeEngine.execute_multi_pair_trade
    Matching.execute_multi_pair_trade match_orders match_order match_legs match_leg match_fallback
    fill_order insert_id saturating_add_i128 saturating_sub_i128 saturating_mul_i128
    saturating_mul_u128 ◌+ℤ◌ ◌-ℤ◌ ◌*ℤ◌
book_traded = refl

book_offered : ids_of sell (load_book 5 6 offered.store) ≡ 2 ∷ 1 ∷ []
unfolding perform invoke TradeEngine.place_order insert_id saturating_mul_u128
book_offered = refl

abbrev bought : ℕ → Address → ℕ → ℤ → ℤ → FillResult
bought id maker price base quote = record {
  order_id = id;
  maker = maker;
  taker = 20;
  base_asset = 5;
  quote_asset = 6;
  price = price;
  filled_base = base;
  filled_quote = quote;
  filled_via_pool = false;
  pool_id = 0;
}

abbrev result : TradeExecutionResult
result = record {
  success = true;
  legs_executed = 1;
  fills = bought 2 11 10000000 (pos 50) (pos 50) ∷ bought 1 10 20000000 (pos 70) (pos 140) ∷ [];
}

result_lem :
    (TradeEngine.execute_multi_pair_trade ledger (env_at 100) 20 (leg ∷ []) offered).0 ≡ ok result
unfolding perform invoke TradeEngine.place_order TradeEngine.execute_multi_pair_trade
    Matching.execute_multi_pair_trade match_orders match_order match_legs match_leg match_fallback
    fill_order insert_id saturating_add_i128 saturating_sub_i128 saturating_mul_i128
    saturating_mul_u128 ◌+ℤ◌ ◌-ℤ◌ ◌*ℤ◌
result_lem = refl

trade-CompletesAll_example :
    (result.success ≡ true) × (result.legs_executed ≡ 1) × CompletesAll (leg ∷ []) result.fills
trade-CompletesAll_example =
    trade-CompletesAll ledger (env_at 100) 20 (leg ∷ []) result offered result_lem

-- 200 into reserves of 1000 each, at a fee of 30 basis points.
get_amount_out_product_example :
    (n : ℕ) × (pos 166 ≡ pos n) × (1 ≤ n) × (n ≤ 1000) × (1000 * 1000 ≤ (1000 + 200) * (1000 - n))
unfolding get_amount_out saturating_add_i128 saturating_sub_i128 saturating_mul_i128 ◌+ℤ◌ ◌-ℤ◌ ◌*ℤ◌
get_amount_out_product_example =
    get_amount_out_product 200 1000 1000 30 (pos 166) (omega arith) (omega arith) (omega arith) refl

-- One more order is placed at the best price, and taken back later.
abbrev placed : State Ledger
placed =
    (TradeEngine.place_order ledger (env_at 200) 12 5 6 sell limit 5000000 (pos 40) 0 offered).1

place_lem :
    (TradeEngine.place_order ledger (env_at 200) 12 5 6 sell limit 5000000 (pos 40) 0 offered).0
    ≡ ok 3
unfolding perform invoke TradeEngine.place_order insert_id saturating_mul_u128
place_lem = refl

cancel_lem : (TradeEngine.cancel_order ledger (env_at 300) 12 3 placed).0 ≡ ok tt
unfolding perform invoke TradeEngine.place_order TradeEngine.cancel_order insert_id without_id
    saturating_mul_u128 saturating_sub_i128 ◌-ℤ◌ ◌+ℤ◌
cancel_lem = refl

place_order-cancel_order_example :
    load_book 5 6 (TradeEngine.cancel_order ledger (env_at 300) 12 3 placed).1.store
    ≡ load_book 5 6 offered.store
place_order-cancel_order_example =
    place_order-cancel_order ledger refl offered_reach (env_at 200) (env_at 300) 12 5 6 sell limit
      5000000 (pos 40) 0 3 place_lem cancel_lem
