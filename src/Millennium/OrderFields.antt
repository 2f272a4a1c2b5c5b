-- ===== src/Millennium/OrderFields.antt =====
-- src/millennium/gwcMillennium.cpp: mapOrderFields, of the template and of its two specialisations,
-- and the sends of a gwcOrder. The three functions have the same shape, and their own switches.
use fosdk.Common.{ℕ, Bool, true, false, Option, none, some, pos, if◌then◌else◌}
use fosdk.Gwc.Order.{
  Order, Side, OrderType, Tif, market, limit, stop, stop_limit, buy, day, opg, ioc, fok, gtd, atc,
  gtt, cpx, gfa, gfx, gfs,
}
use fosdk.Gwc.Env.{Env, limit_price, order_qty, order_type, side, tif}
use fosdk.Millennium.{Millennium, SeqNum}
use fosdk.Millennium.Session.{send_order, send_cancel, send_modify}

-- The switches of the template.
unfoldable pub type_number : OrderType → Option ℕ
type_number market = some 1
type_number limit = some 2
type_number stop = some 3
type_number stop_limit = some 4
type_number _ = none

unfoldable pub tif_number : Tif → Option ℕ
tif_number day = some 0
tif_number ioc = some 3
tif_number fok = some 4
tif_number opg = some 5
tif_number gtd = some 6
tif_number gtt = some 8
tif_number atc = some 10
tif_number cpx = some 12
tif_number gfa = some 50
tif_number gfx = some 51
tif_number gfs = some 52
tif_number _ = none

-- Those for osloCodec.
unfoldable pub oslo_type_number : OrderType → Option ℕ
oslo_type_number market = some 1
oslo_type_number limit = some 2
oslo_type_number _ = none

unfoldable pub oslo_tif_number : Tif → Option ℕ
oslo_tif_number day = some 0
oslo_tif_number ioc = some 3
oslo_tif_number fok = some 4
oslo_tif_number opg = some 5
oslo_tif_number gtd = some 6
oslo_tif_number gtt = some 8
oslo_tif_number gfa = some 9
oslo_tif_number atc = some 10
oslo_tif_number gfs = some 52
oslo_tif_number _ = none

-- Those for lseCodec.
unfoldable pub lse_type_number : OrderType → Option ℕ
lse_type_number market = some 1
lse_type_number limit = some 2
lse_type_number stop = some 3
lse_type_number stop_limit = some 4
lse_type_number _ = none

unfoldable pub lse_tif_number : Tif → Option ℕ
lse_tif_number day = some 0
lse_tif_number ioc = some 3
lse_tif_number fok = some 4
lse_tif_number opg = some 5
lse_tif_number gtd = some 6
lse_tif_number gtt = some 8
lse_tif_number atc = some 10
lse_tif_number cpx = some 12
lse_tif_number gfa = some 50
lse_tif_number gfx = some 51
lse_tif_number gfs = some 52
lse_tif_number _ = none

unfoldable pub side_number : Side → ℕ
side_number buy = 1
side_number _ = 2

module _ (E : Env SeqNum) where
  unfoldable pub with_price : Order E.Msg E.Double → E.Msg → E.Msg
  with_price r m = if r.price_set then E.set_double m limit_price r.price else m

  unfoldable pub with_qty : Order E.Msg E.Double → E.Msg → E.Msg
  with_qty r m = if r.qty_set then E.set_integer m order_qty r.qty else m

  unfoldable pub with_side : Order E.Msg E.Double → E.Msg → E.Msg
  with_side r m = if r.side_set then E.set_integer m side (pos (side_number r.side)) else m

  -- A time in force without a label changes nothing.
  unfoldable pub with_tif : (Tif → Option ℕ) → Order E.Msg E.Double → E.Msg → E.Msg
  with_tif tifs r m =
      if r.tif_set then elim (tifs r.tif) [ none ↦ m | some n ↦ E.set_integer m tif (pos n) ] else m

  -- An order type without a label ends the function.
  unfoldable pub map_with :
      (OrderType → Option ℕ) → (Tif → Option ℕ) → Order E.Msg E.Double → E.Msg × Bool
  map_with types tifs r =
      let m = with_qty r (with_price r r.msg) in
      if r.order_type_set
      then elim (types r.order_type) [
        | none ↦ (m, false)
        | some n ↦ (with_tif tifs r (with_side r (E.set_integer m order_type (pos n))), true)
      ]
      else (with_tif tifs r (with_side r m), true)

  unfoldable pub map_order_fields : Order E.Msg E.Double → E.Msg × Bool
  map_order_fields r = map_with type_number tif_number r

  unfoldable pub oslo_map_order_fields : Order E.Msg E.Double → E.Msg × Bool
  oslo_map_order_fields r = map_with oslo_type_number oslo_tif_number r

  unfoldable pub lse_map_order_fields : Order E.Msg E.Double → E.Msg × Bool
  lse_map_order_fields r = map_with lse_type_number lse_tif_number r

  -- `mapped` is the codec's mapOrderFields.
  module _ (mapped : Order E.Msg E.Double → E.Msg × Bool) where
    unfoldable pub send_gwc_order :
        Order E.Msg E.Double → Millennium E.Msg → Millennium E.Msg × Bool
    send_gwc_order r s = let q = mapped r in if q.1 then send_order E q.0 s else (s, false)

    unfoldable pub send_gwc_cancel :
        Order E.Msg E.Double → Millennium E.Msg → Millennium E.Msg × Bool
    send_gwc_cancel r s = let q = mapped r in if q.1 then send_cancel E q.0 s else (s, false)

    unfoldable pub send_gwc_modify :
        Order E.Msg E.Double → Millennium E.Msg → Millennium E.Msg × Bool
    send_gwc_modify r s = let q = mapped r in if q.1 then send_modify E q.0 s else (s, false)
