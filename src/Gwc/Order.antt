-- ===== src/Gwc/Order.antt =====
-- src/gwcCommon.h: the venue-neutral order. `gwcOrder` derives from `cdr`, so an order carries a
-- message; `Double` is the type of its price, of which the connectors use the conversion to an
-- integer alone.
use fosdk.Common.{ℕ, ℤ, Bool, true}

pub data Side : Type 0 where
  buy sell buy_minus sell_plus sell_short sell_short_exempt undisclosed cross cross_short : Side
  cross_short_exempt as_defined opposite subscribe redeem lend borrow sell_undisclosed : Side

pub data OrderType : Type 0 where
  market limit stop stop_limit market_on_close with_or_without limit_or_better : OrderType
  limit_with_or_without on_basis on_close limit_on_close forex previously_quoted : OrderType
  previously_indicated pegged : OrderType

pub data Tif : Type 0 where
  day gtc opg ioc fok gtx gtd atc gtt cpx gfa gfx gfs : Tif

-- The values of the enumerators.
unfoldable pub side_code : Side → ℕ
side_code buy = 0
side_code sell = 1
side_code buy_minus = 2
side_code sell_plus = 3
side_code sell_short = 4
side_code sell_short_exempt = 5
side_code undisclosed = 6
side_code cross = 7
side_code cross_short = 8
side_code cross_short_exempt = 9
side_code as_defined = 10
side_code opposite = 11
side_code subscribe = 12
side_code redeem = 13
side_code lend = 14
side_code borrow = 15
side_code sell_undisclosed = 16

unfoldable pub order_type_code : OrderType → ℕ
order_type_code market = 0
order_type_code limit = 1
order_type_code stop = 2
order_type_code stop_limit = 3
order_type_code market_on_close = 4
order_type_code with_or_without = 5
order_type_code limit_or_better = 6
order_type_code limit_with_or_without = 7
order_type_code on_basis = 8
order_type_code on_close = 9
order_type_code limit_on_close = 10
order_type_code forex = 11
order_type_code previously_quoted = 12
order_type_code previously_indicated = 13
order_type_code pegged = 14

unfoldable pub tif_code : Tif → ℕ
tif_code day = 0
tif_code gtc = 1
tif_code opg = 2
tif_code ioc = 3
tif_code fok = 4
tif_code gtx = 5
tif_code gtd = 6
tif_code atc = 7
tif_code gtt = 8
tif_code cpx = 9
tif_code gfa = 10
tif_code gfx = 11
tif_code gfs = 12

pub record Order (Msg Double : Type 0) : Type 0 where
  pub msg : Msg
  pub price : Double
  pub price_set : Bool
  pub qty : ℤ
  pub qty_set : Bool
  pub side : Side
  pub side_set : Bool
  pub order_type : OrderType
  pub order_type_set : Bool
  pub tif : Tif
  pub tif_set : Bool

module _ {Msg Double : Type 0} where
  unfoldable pub set_price : Double → Order Msg Double → Order Msg Double
  set_price p o = record o { price_set = true; price = p }

  unfoldable pub set_qty : ℤ → Order Msg Double → Order Msg Double
  set_qty q o = record o { qty_set = true; qty = q }

  unfoldable pub set_side : Side → Order Msg Double → Order Msg Double
  set_side v o = record o { side_set = true; side = v }

  unfoldable pub set_order_type : OrderType → Order Msg Double → Order Msg Double
  set_order_type t o = record o { order_type_set = true; order_type = t }

  unfoldable pub set_tif : Tif → Order Msg Double → Order Msg Double
  set_tif t o = record o { tif_set = true; tif = t }
