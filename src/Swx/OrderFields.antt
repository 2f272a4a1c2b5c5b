-- ===== src/Swx/OrderFields.antt =====
-- src/swx/gwcSwx.cpp: mapOrderFields and the sends of a gwcOrder.
use fosdk.Common.{Bool, true, false, String, Option, none, some, ℤ, pos, if◌then◌else◌}
use fosdk.Gwc.Order.{Order, Side, OrderType, Tif, market, limit, buy, sell, ioc, gtt, opg, day}
use fosdk.Gwc.Env.{Env, order_price, order_quantity, order_verb, time_in_force}
use fosdk.SoupBin.{SoupBin, SeqNum}
use fosdk.Swx.{Codes, send_order, send_cancel, send_modify}

module _ (k : Codes) where
  unfoldable pub verb : Side → Option String
  verb buy = some k.buy_verb
  verb sell = some k.sell_verb
  verb _ = none

  unfoldable pub tif_number : Tif → Option ℤ
  tif_number ioc = some k.immediate
  tif_number gtt = some k.at_close
  tif_number opg = some k.at_opening
  tif_number day = some k.post_trading
  tif_number _ = none

module _ (E : Env SeqNum) (k : Codes) where
  -- Each part passes its message on, and ends the function where it gives false.
  unfoldable pub with_tif : Order E.Msg E.Double → E.Msg → E.Msg × Bool
  with_tif r m =
      if r.tif_set
      then elim (tif_number k r.tif) [
        | none ↦ (m, false)
        | some n ↦ (E.set_integer m time_in_force n, true)
      ]
      else (m, true)

  unfoldable pub with_side : Order E.Msg E.Double → E.Msg → E.Msg × Bool
  unfolding with_tif
  with_side r m =
      if r.side_set
      then elim (verb k r.side) [
        | none ↦ (m, false)
        | some v ↦ with_tif r (E.set_string m order_verb v)
      ]
      else with_tif r m

  unfoldable pub with_price : Order E.Msg E.Double → E.Msg → E.Msg
  with_price r m = if r.price_set then E.set_integer m order_price (E.to_integer r.price) else m

  unfoldable pub with_qty : Order E.Msg E.Double → E.Msg → E.Msg
  with_qty r m = if r.qty_set then E.set_integer m order_quantity r.qty else m

  -- The switch over the order's type.
  unfoldable pub with_type : OrderType → E.Msg → E.Msg × Bool
  with_type market m = (E.set_integer m order_price (pos 2147483647), true)
  with_type limit m = (m, true)
  with_type _ m = (m, false)

  unfoldable pub after_type : Order E.Msg E.Double → E.Msg × Bool → E.Msg × Bool
  unfolding with_side
  after_type r t = if t.1 then with_side r (with_qty r (with_price r t.0)) else t

  unfoldable pub map_order_fields : Order E.Msg E.Double → E.Msg × Bool
  unfolding after_type
  map_order_fields r =
      after_type r (if r.order_type_set then with_type r.order_type r.msg else (r.msg, true))

  unfoldable pub send_gwc_order : Order E.Msg E.Double → SoupBin E.Msg → SoupBin E.Msg × Bool
  send_gwc_order r s =
      let q = map_order_fields r in if q.1 then send_order E k q.0 s else (s, false)

  unfoldable pub send_gwc_cancel : Order E.Msg E.Double → SoupBin E.Msg → SoupBin E.Msg × Bool
  send_gwc_cancel r s =
      let q = map_order_fields r in if q.1 then send_cancel E k q.0 s else (s, false)

  unfoldable pub send_gwc_modify : Order E.Msg E.Double → SoupBin E.Msg → SoupBin E.Msg × Bool
  send_gwc_modify r s =
      let q = map_order_fields r in if q.1 then send_modify E k q.0 s else (s, false)
