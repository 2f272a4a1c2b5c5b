-- ===== src/Examples/Orders.antt =====
-- What the orders of src/examples owe to the members of gwcOrder (src/gwcCommon.h), which its implicit
-- constructor leaves unset.
use fosdk.Common.{◌≡◌, refl, true, String, ℤ, some}
use fosdk.Gwc.Env.{Env, Field, IsCdr}
use fosdk.Gwc.Order.{Order, Tif}
use fosdk.Fix.{Seqnums}
use fosdk.Fix.OrderFields.{map_order_fields, with_tif, set_text, tif_text}
use fosdk.Examples.{Names}
use fosdk.Examples.Bme
use fosdk.Examples.Lse
use fosdk.Examples.Swx
use fosdk.Examples.Optiq
use fosdk.Examples.Xetra

-- The parts that an order leaves as it found them.
abbrev pub LeavesPriceAndTif : {M D : Type 0} → Order M D → Order M D → Type 0
LeavesPriceAndTif left o =
    (o.price_set ≡ left.price_set)
    × (o.price ≡ left.price)
    × (o.tif_set ≡ left.tif_set)
    × (o.tif ≡ left.tif)

module _ {Cache : Type 0} (E : Env Cache) (N : Names E.Double) where
  -- The orders that the programs for LSE, SWX, Optiq and Xetra send are the same whatever the members of
  -- a new gwcOrder hold. The order, the modify and the cancel of the program for BME are not: they
  -- carry the price, the time in force and whether these are set from what was in memory, and the
  -- cancel the quantity and the type as well.
  pub orders-LeavesPriceAndTif :
      (left other : Order E.Msg E.Double) (ts id : ℤ) (origcloid : String)
      → (Lse.order E N left ≡ Lse.order E N other)
        × (Swx.order E N left ≡ Swx.order E N other)
        × (Optiq.border E N ts id left ≡ Optiq.border E N ts id other)
        × (Optiq.sorder E N ts id left ≡ Optiq.sorder E N ts id other)
        × (Xetra.border E N id left ≡ Xetra.border E N id other)
        × LeavesPriceAndTif left (Bme.order E N left)
        × LeavesPriceAndTif left (Bme.modify E N origcloid left)
        × LeavesPriceAndTif left (Bme.cancel E N origcloid left)
        × ((Bme.cancel E N origcloid left).qty_set ≡ left.qty_set)
        × ((Bme.cancel E N origcloid left).qty ≡ left.qty)
        × ((Bme.cancel E N origcloid left).order_type_set ≡ left.order_type_set)
        × ((Bme.cancel E N origcloid left).order_type ≡ left.order_type)
  unfolding Lse.order Swx.order Optiq.border Optiq.sorder Xetra.border Bme.order Bme.modify
      Bme.cancel
  orders-LeavesPriceAndTif left other ts id origcloid = (
    refl,
    refl,
    refl,
    refl,
    refl,
    (refl, refl, refl, refl),
    (refl, refl, refl, refl),
    (refl, refl, refl, refl),
    refl,
    refl,
    refl,
    refl,
  )

module _ (E : Env Seqnums) (N : Names E.Double) (L : IsCdr E.cdr) where
  -- So gwcFix may send a time in force that nobody asked for: where memory says that one is set, and
  -- has GTC for it, the order for BME goes out with TimeInForce 7.
  bme_order_tif :
      (left : Order E.Msg E.Double)
      → left.tif_set ≡ true
      → left.tif ≡ Tif.gtc
      → E.get_string (map_order_fields E (Bme.order E N left)).0 Field.time_in_force ≡ some "7"
  unfolding map_order_fields with_tif Bme.order set_text tif_text
  bme_order_tif left h g = rw (h, g) (L.get_string-set_string_self _ Field.time_in_force "7")
