-- ===== src/TradeEngine/OrderBook.antt =====
-- `OrderBookManager`: swaptrade-contracts/trade-engine/src/orderbook.rs.
use swaptrade_contract.Prelude.{
  ℕ, zero, suc, ◌+◌, Bool, false, not, ◌&&◌, ◌||◌, Option, none, some, List, [], ◌∷◌, ◌++◌, get_or,
  ltb, ◌==◌, if◌then◌else◌,
}
use swaptrade_contract.Prelude.Int.{ℤ, pos, ltb_ℤ}
use swaptrade_contract.Prelude.Maps.{Map, set, set_pair}
use swaptrade_contract.Host.{Address}
use swaptrade_contract.Host.Words.{saturating_add_i128, saturating_sub_i128}
use swaptrade_contract.TradeEngine.Types.{
  Order, OrderSide, buy, sell, OrderBookLevel, OrderBookSummary, PairOrderBook, is_active,
}
use swaptrade_contract.TradeEngine.Storage.{Store}

-- The two addresses of the storage key, in order.
abbrev pub get_pair_key : Address → Address → Address × Address
get_pair_key asset_1 asset_2 =
    if ltb asset_1 asset_2 then (asset_1, asset_2) else (asset_2, asset_1)

abbrev pub new_book : Address → Address → PairOrderBook
new_book base quote = record {
  base_asset = base;
  quote_asset = quote;
  bid_order_ids = [];
  ask_order_ids = [];
}

abbrev pub load_book : Address → Address → Store → PairOrderBook
load_book base quote s =
    let (a, b) = get_pair_key base quote in get_or (s.books a b) (new_book base quote)

abbrev pub save_book : PairOrderBook → Store → Store
save_book book s =
    let (a, b) = get_pair_key book.base_asset book.quote_asset in
    record s { books = set_pair s.books a b book }

abbrev pub save_order : Order → Store → Store
save_order o s = record s { orders = set s.orders o.order_id o }

abbrev pub get_order : ℕ → Store → Option Order
get_order id s = s.orders id

abbrev pub get_user_orders : Address → Store → List ℕ
get_user_orders user s = get_or (s.user_orders user) []

abbrev pub add_user_order : Address → ℕ → Store → Store
add_user_order user id s = record s {
  user_orders = set s.user_orders user (get_user_orders user s ++ id ∷ []);
}

-- The two lists of a book.
abbrev pub ids_of : OrderSide → PairOrderBook → List ℕ
ids_of buy book = book.bid_order_ids
ids_of sell book = book.ask_order_ids

abbrev pub with_ids : OrderSide → List ℕ → PairOrderBook → PairOrderBook
with_ids buy ids book = record book { bid_order_ids = ids }
with_ids sell ids book = record book { ask_order_ids = ids }

-- Does an order at the price go before the one that is there?
abbrev pub beats : OrderSide → ℕ → Option Order → Bool
beats side price none = false
beats buy price (some o) = ltb o.price price
beats sell price (some o) = ltb price o.price

-- The loop of `add_order`, with its flag.
unfoldable pub insert_id : OrderSide → Map Order → ℕ → ℕ → Bool → List ℕ → List ℕ
insert_id side orders price id inserted [] = if inserted then [] else id ∷ []
insert_id side orders price id inserted (e ∷ es) =
    let hit = not inserted && beats side price (orders e) in
    let rest = insert_id side orders price id (inserted || hit) es in
    if hit then id ∷ e ∷ rest else e ∷ rest

abbrev pub add_order : Order → Store → Store
add_order o s =
    let book = load_book o.base_asset o.quote_asset s in
    save_book
      (with_ids o.side (insert_id o.side s.orders o.price o.order_id false (ids_of o.side book))
        book)
      s

-- The loop of `remove_order_id`.
unfoldable pub without_id : ℕ → List ℕ → List ℕ
without_id id [] = []
without_id id (e ∷ es) = let rest = without_id id es in if e == id then rest else e ∷ rest

abbrev pub remove_order_id : Address → Address → OrderSide → ℕ → Store → Store
remove_order_id base quote side id s =
    let book = load_book base quote s in
    save_book (with_ids side (without_id id (ids_of side book)) book) s

-- A `Map<u128, (i128, u32)>` keeps its keys in ascending order; `keys` lists them so.
unfoldable pub add_level : ℕ → ℤ → List OrderBookLevel → List OrderBookLevel
unfolding saturating_add_i128
add_level price amount [] =
    record { price = price; total_amount = saturating_add_i128 (pos 0) amount; order_count = 1 }
    ∷ []
add_level price amount (l ∷ ls) =
    let rest = add_level price amount ls in
    if price == l.price
    then record l {
      total_amount = saturating_add_i128 l.total_amount amount;
      order_count = l.order_count + 1;
    }
      ∷ ls
    else if ltb price l.price
    then record {
      price = price;
      total_amount = saturating_add_i128 (pos 0) amount;
      order_count = 1;
    }
      ∷ l
      ∷ ls
    else l ∷ rest

-- `(Pending || PartiallyFilled) && (expires_at == 0 || expires_at > now)`
abbrev pub is_listed : ℕ → Order → Bool
is_listed now o = is_active o.status && (o.expires_at == 0 || ltb now o.expires_at)

abbrev pub aggregate_order : ℕ → Option Order → List OrderBookLevel → List OrderBookLevel
aggregate_order now none levels = levels
aggregate_order now (some o) levels =
    let remaining = saturating_sub_i128 o.amount o.filled_amount in
    if is_listed now o && ltb_ℤ (pos 0) remaining
    then add_level o.price remaining levels
    else levels

unfoldable pub aggregate : ℕ → Map Order → List ℕ → List OrderBookLevel → List OrderBookLevel
unfolding add_level saturating_sub_i128
aggregate now orders [] levels = levels
aggregate now orders (id ∷ ids) levels =
    aggregate now orders ids (aggregate_order now (orders id) levels)

unfoldable pub take_levels : ℕ → List OrderBookLevel → List OrderBookLevel
take_levels zero ls = []
take_levels (suc n) [] = []
take_levels (suc n) (l ∷ ls) = l ∷ take_levels n ls

unfoldable pub get_summary : ℕ → Address → Address → ℕ → Store → OrderBookSummary
unfolding aggregate take_levels
get_summary now base quote max_levels s =
    let book = load_book base quote s in
    record {
      base_asset = base;
      quote_asset = quote;
      bids = take_levels max_levels (aggregate now s.orders book.bid_order_ids []);
      asks = take_levels max_levels (aggregate now s.orders book.ask_order_ids []);
      timestamp = now;
    }
