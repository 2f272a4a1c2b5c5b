-- ===== src/Optiq/Fields.antt =====
-- What mapOrderFields of src/optiq/gwcOptiq.cpp makes of the type and the side of an order.
use fosdk.Common.{
  ◌<◌, ◌≡◌, ◌≢◌, refl, ◌∙◌, ap, both_ways, Bool, true, false, ℤ, arith, some, none, Option,
}
use fosdk.Gwc.Order.{Order, Side, OrderType, order_type_code}
use fosdk.Gwc.Env.{Env, Field, IsCdr}
use fosdk.Optiq.{Optiq, Codes, Seqnums}
use fosdk.Optiq.OrderFields.{
  OrderCodes, type_number, side_number, tif_number, with_side, with_tif, after_type,
  map_order_fields, send_gwc_order, send_gwc_cancel, send_gwc_modify,
}

type_number-none : (o : OrderCodes) (t : OrderType) → 3 < order_type_code t → type_number o t ≡ none
unfolding type_number order_type_code
type_number-none o OrderType.market h = absurd (omega (arith, h))
type_number-none o OrderType.limit h = absurd (omega (arith, h))
type_number-none o OrderType.stop h = absurd (omega (arith, h))
type_number-none o OrderType.stop_limit h = absurd (omega (arith, h))
type_number-none o _ h = refl

side_number_sell : (o : OrderCodes) (v : Side) → v ≢ Side.buy → side_number o v ≡ o.side_sell
unfolding side_number
side_number_sell o Side.buy h = absurd (h refl)
side_number_sell o _ h = refl

module _ (E : Env Seqnums) (k : Codes) (o : OrderCodes) where
  -- An order whose type is set to anything but market, limit, stop and stop limit is refused,
  -- whether it is a new order, a cancel or a modify: the result is false, nothing is sent, no
  -- number is taken, and the connector is as it was.
  pub send_gwc_order_refused :
      (r : Order E.Msg E.Double) (s : Optiq E.Msg)
      → r.order_type_set ≡ true
      → 3 < order_type_code r.order_type
      → (send_gwc_order E k o r s ≡ (s, false))
        × ((send_gwc_cancel E k o r s ≡ (s, false)) × (send_gwc_modify E k o r s ≡ (s, false)))
  unfolding send_gwc_order send_gwc_cancel send_gwc_modify map_order_fields
  send_gwc_order_refused r s h c =
      rw (h, type_number-none o r.order_type c, map_order_fields) (refl, (refl, refl))

module _ (E : Env Seqnums) (laws : IsCdr E.cdr) (k : Codes) (o : OrderCodes) where
  set_tif_keeps :
      (m : E.Msg) (q : Option ℤ)
      → E.get_integer
          (elim q [ none ↦ m | some n ↦ E.set_integer m Field.time_in_force n ])
          Field.order_side
        ≡ E.get_integer m Field.order_side
  set_tif_keeps m none = refl
  set_tif_keeps m (some n) =
      laws.get_integer-set_integer_ne m Field.time_in_force Field.order_side n (λ e. cc)

  with_tif_keeps :
      (r : Order E.Msg E.Double) (m : E.Msg)
      → E.get_integer (with_tif E k o r m) Field.order_side ≡ E.get_integer m Field.order_side
  unfolding with_tif
  with_tif_keeps r m = ground (arith, set_tif_keeps m (tif_number o r.tif))

  abbrev Sided : Order E.Msg E.Double → E.Msg × Bool → Type 0
  Sided r q = q.1 ≡ true → E.get_integer q.0 Field.order_side ≡ some (side_number o r.side)

  after_type-Sided :
      (r : Order E.Msg E.Double) (m : E.Msg) → r.side_set ≡ true → Sided r (after_type E k o r m)
  unfolding after_type with_side
  after_type-Sided r m s h = with_tif_keeps r _ ∙ rw s (laws.get_integer-set_integer_self _ _ _)

  on_type-Sided :
      (r : Order E.Msg E.Double) (m : E.Msg) (q : Option ℤ)
      → r.side_set ≡ true
      → Sided r (elim q [
        | none ↦ (m, false)
        | some n ↦ after_type E k o r (E.set_integer m Field.order_type n)
      ])
  on_type-Sided r m none s h = cc
  on_type-Sided r m (some n) s h = after_type-Sided r _ s h

  map_order_fields-Sided :
      (r : Order E.Msg E.Double) → r.side_set ≡ true → Sided r (map_order_fields E k o r)
  unfolding map_order_fields
  map_order_fields-Sided r s =
      both_ways (Sided r) r.order_type_set _ _
        (λ h. on_type-Sided r _ (type_number o r.order_type) s) (λ h. after_type-Sided r _ s)

  -- A side that is set is written on every order that is mapped: the venue's buy for a buy, and its
  -- sell for each of the other sides, short sales, crosses and buy minus among them.
  pub map_order_fields_side :
      (r : Order E.Msg E.Double)
      → (map_order_fields E k o r).1 ≡ true
      → r.side_set ≡ true
      → let side = E.get_integer (map_order_fields E k o r).0 Field.order_side in
        (r.side ≡ Side.buy → side ≡ some o.side_buy) × (r.side ≢ Side.buy → side ≡ some o.side_sell)
  unfolding side_number
  map_order_fields_side r h s =
      let e = map_order_fields-Sided r s h in
      (
        (λ b. e ∙ ap (λ v. some (side_number o v)) b),
        (λ b. e ∙ ap some (side_number_sell o r.side b)),
      )
