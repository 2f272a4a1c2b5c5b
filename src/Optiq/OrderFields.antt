-- ===== src/Optiq/OrderFields.antt =====
-- src/optiq/gwcOptiq.cpp: mapOrderFields and the sends of a gwcOrder.
use fosdk.Common.{Bool, true, false, Option, none, some, ℤ, if◌then◌else◌}
use fosdk.Gwc.Order.{
  Order, Side, OrderType, Tif, market, limit, stop, stop_limit, buy, day, ioc, fok, gtd,
}
use fosdk.Gwc.Env.{Env, order_px, order_qty, order_type, order_side, time_in_force}
use fosdk.Optiq.{Optiq, Codes, Seqnums}
use fosdk.Optiq.Session.{send_order, send_cancel, send_modify}

-- The enumerators of optiqConstants.h that mapOrderFields assigns.
pub record OrderCodes : Type 0 where
  pub market_peg : ℤ
  pub limit_order : ℤ
  pub stop_market : ℤ
  pub stop_limit_order : ℤ
  pub side_buy : ℤ
  pub side_sell : ℤ
  pub tif_day : ℤ
  pub tif_ioc : ℤ
  pub tif_fok : ℤ
  pub tif_gtd : ℤ

module _ (k : OrderCodes) where
  unfoldable pub type_number : OrderType → Option ℤ
  type_number market = some k.market_peg
  type_number limit = some k.limit_order
  type_number stop = some k.stop_market
  type_number stop_limit = some k.stop_limit_order
  type_number _ = none

  unfoldable pub side_number : Side → ℤ
  side_number buy = k.side_buy
  side_number _ = k.side_sell

  unfoldable pub tif_number : Tif → Option ℤ
  tif_number day = some k.tif_day
  tif_number ioc = some k.tif_ioc
  tif_number fok = some k.tif_fok
  tif_number gtd = some k.tif_gtd
  tif_number _ = none

module _ (E : Env Seqnums) (k : Codes) (o : OrderCodes) where
  unfoldable pub with_price : Order E.Msg E.Double → E.Msg → E.Msg
  with_price r m = if r.price_set then E.set_integer m order_px (E.to_integer r.price) else m

  unfoldable pub with_qty : Order E.Msg E.Double → E.Msg → E.Msg
  with_qty r m = if r.qty_set then E.set_integer m order_qty r.qty else m

  unfoldable pub with_side : Order E.Msg E.Double → E.Msg → E.Msg
  with_side r m = if r.side_set then E.set_integer m order_side (side_number o r.side) else m

  unfoldable pub with_tif : Order E.Msg E.Double → E.Msg → E.Msg
  with_tif r m =
      if r.tif_set
      then elim (tif_number o r.tif) [ none ↦ m | some n ↦ E.set_integer m time_in_force n ]
      else m

  unfoldable pub after_type : Order E.Msg E.Double → E.Msg → E.Msg × Bool
  after_type r m = (with_tif r (with_side r m), true)

  -- An order type that the switch does not name ends the function; what was set stays set.
  unfoldable pub map_order_fields : Order E.Msg E.Double → E.Msg × Bool
  unfolding after_type
  map_order_fields r =
      let m = with_qty r (with_price r r.msg) in
      if r.order_type_set
      then elim (type_number o r.order_type) [
        | none ↦ (m, false)
        | some n ↦ after_type r (E.set_integer m order_type n)
      ]
      else after_type r m

  unfoldable pub send_gwc_order : Order E.Msg E.Double → Optiq E.Msg → Optiq E.Msg × Bool
  send_gwc_order r s =
      let q = map_order_fields r in if q.1 then send_order E k q.0 s else (s, false)

  unfoldable pub send_gwc_cancel : Order E.Msg E.Double → Optiq E.Msg → Optiq E.Msg × Bool
  send_gwc_cancel r s =
      let q = map_order_fields r in if q.1 then send_cancel E k q.0 s else (s, false)

  unfoldable pub send_gwc_modify : Order E.Msg E.Double → Optiq E.Msg → Optiq E.Msg × Bool
  send_gwc_modify r s =
      let q = map_order_fields r in if q.1 then send_modify E k q.0 s else (s, false)
