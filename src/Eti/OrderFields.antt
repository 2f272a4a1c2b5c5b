-- ===== src/Eti/OrderFields.antt =====
-- src/eti/gwcEti.cpp: mapOrderFields and the sends of a gwcOrder.
use fosdk.Common.{ℕ, Bool, true, false, Option, none, some, pos, if◌then◌else◌}
use fosdk.Gwc.Order.{
  Order, Side, OrderType, Tif, market, limit, stop, stop_limit, buy, day, ioc, fok, gtd,
}
use fosdk.Gwc.Env.{Env, price, order_qty, ord_type, side, time_in_force}
use fosdk.Eti.{Eti, Item}
use fosdk.Eti.Session.{send_order, send_cancel, send_modify}

unfoldable pub type_number : OrderType → Option ℕ
type_number market = some 1
type_number limit = some 2
type_number stop = some 3
type_number stop_limit = some 4
type_number _ = none

unfoldable pub tif_number : Tif → Option ℕ
tif_number day = some 0
tif_number ioc = some 3
tif_number fok = some 4
tif_number gtd = some 6
tif_number _ = none

unfoldable pub side_number : Side → ℕ
side_number buy = 1
side_number _ = 2

module _ (E : Env Item) where
  unfoldable pub with_price : Order E.Msg E.Double → E.Msg → E.Msg
  with_price r m = if r.price_set then E.set_double m price r.price else m

  -- The quantity, of ten thousandths, goes out as a double.
  unfoldable pub with_qty : Order E.Msg E.Double → E.Msg → E.Msg
  with_qty r m = if r.qty_set then E.set_double m order_qty (E.ten_thousandths r.qty) else m

  unfoldable pub with_side : Order E.Msg E.Double → E.Msg → E.Msg
  with_side r m = if r.side_set then E.set_integer m side (pos (side_number r.side)) else m

  -- A time in force without a label changes nothing.
  unfoldable pub with_tif : Order E.Msg E.Double → E.Msg → E.Msg
  unfolding tif_number
  with_tif r m =
      if r.tif_set
      then elim (tif_number r.tif) [ none ↦ m | some n ↦ E.set_integer m time_in_force (pos n) ]
      else m

  -- An order type without a label ends the function.
  unfoldable pub map_order_fields : Order E.Msg E.Double → E.Msg × Bool
  unfolding type_number
  map_order_fields r =
      let m = with_qty r (with_price r r.msg) in
      if r.order_type_set
      then elim (type_number r.order_type) [
        | none ↦ (m, false)
        | some n ↦ (with_tif r (with_side r (E.set_integer m ord_type (pos n))), true)
      ]
      else (with_tif r (with_side r m), true)

  unfoldable pub send_gwc_order : Order E.Msg E.Double → Eti E.Msg → Eti E.Msg × Bool
  unfolding map_order_fields
  send_gwc_order r s = let q = map_order_fields r in if q.1 then send_order E q.0 s else (s, false)

  unfoldable pub send_gwc_cancel : Order E.Msg E.Double → Eti E.Msg → Eti E.Msg × Bool
  unfolding map_order_fields
  send_gwc_cancel r s =
      let q = map_order_fields r in if q.1 then send_cancel E q.0 s else (s, false)

  unfoldable pub send_gwc_modify : Order E.Msg E.Double → Eti E.Msg → Eti E.Msg × Bool
  unfolding map_order_fields
  send_gwc_modify r s =
      let q = map_order_fields r in if q.1 then send_modify E q.0 s else (s, false)
