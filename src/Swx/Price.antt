-- ===== src/Swx/Price.antt =====
-- The price that mapOrderFields of src/swx/gwcSwx.cpp gives an order.
use fosdk.Common.{
  ◌≡◌, ◌∙◌, ap, on_true, both_ways, Bool, true, false, String, Option, none, some, ℤ, pos,
}
use fosdk.Gwc.Order.{Order, OrderType}
use fosdk.Gwc.Env.{Env, Field, IsCdr}
use fosdk.SoupBin.{SeqNum}
use fosdk.Swx.{Codes}
use fosdk.Swx.OrderFields.{
  verb, tif_number, with_tif, with_side, with_price, with_qty, with_type, after_type,
  map_order_fields,
}

module _ (E : Env SeqNum) (laws : IsCdr E.cdr) (k : Codes) where
  abbrev Priced : ℤ → E.Msg × Bool → Type 0
  Priced v q = E.get_integer q.0 Field.order_price ≡ some v

  with_tif-Priced :
      (r : Order E.Msg E.Double) (m : E.Msg) (v : ℤ)
      → E.get_integer m Field.order_price ≡ some v
      → Priced v (with_tif E k r m)
  unfolding with_tif
  with_tif-Priced r m v h =
      both_ways (Priced v) r.tif_set _ _ (λ e. on_tif (tif_number k r.tif)) (λ e. h)
    where
      on_tif :
          (q : Option ℤ)
          → Priced v (elim q [
            | none ↦ (m, false)
            | some n ↦ (E.set_integer m Field.time_in_force n, true)
          ])
      on_tif none = h
      on_tif (some n) =
          laws.get_integer-set_integer_ne m Field.time_in_force Field.order_price n (λ e. cc) ∙ h

  with_side-Priced :
      (r : Order E.Msg E.Double) (m : E.Msg) (v : ℤ)
      → E.get_integer m Field.order_price ≡ some v
      → Priced v (with_side E k r m)
  unfolding with_side
  with_side-Priced r m v h =
      both_ways (Priced v) r.side_set _ _ (λ e. on_side (verb k r.side))
        (λ e. with_tif-Priced r m v h)
    where
      on_side :
          (q : Option String)
          → Priced v (elim q [
            | none ↦ (m, false)
            | some t ↦ with_tif E k r (E.set_string m Field.order_verb t)
          ])
      on_side none = h
      on_side (some t) =
          with_tif-Priced r _ v
            (laws.get_integer-set_string_ne m Field.order_verb Field.order_price t (λ e. cc) ∙ h)

  with_qty_keeps :
      (r : Order E.Msg E.Double) (m : E.Msg) (v : ℤ)
      → E.get_integer m Field.order_price ≡ some v
      → E.get_integer (with_qty E k r m) Field.order_price ≡ some v
  unfolding with_qty
  with_qty_keeps r m v h =
      both_ways (λ q. E.get_integer q Field.order_price ≡ some v) r.qty_set _ _
        (λ e.
          laws.get_integer-set_integer_ne m Field.order_quantity Field.order_price r.qty (λ e. cc)
          ∙ h)
        (λ e. h)

  abbrev marked : Order E.Msg E.Double → E.Msg
  marked r = E.set_integer r.msg Field.order_price (pos 2147483647)

  market_lem :
      (r : Order E.Msg E.Double)
      → r.order_type_set ≡ true
      → r.order_type ≡ OrderType.market
      → map_order_fields E k r ≡ with_side E k r (with_qty E k r (with_price E k r (marked r)))
  unfolding map_order_fields after_type with_type
  market_lem r s t =
      ap (λ q. after_type E k r q)
        (on_true r.order_type_set _ _ s ∙ ap (λ q. with_type E k q r.msg) t)

  priced_lem :
      (r : Order E.Msg E.Double) (v : ℤ)
      → r.order_type_set ≡ true
      → r.order_type ≡ OrderType.market
      → E.get_integer (with_price E k r (marked r)) Field.order_price ≡ some v
      → Priced v (map_order_fields E k r)
  priced_lem r v s t h =
      ap (λ q. E.get_integer q.0 Field.order_price) (market_lem r s t)
      ∙ with_side-Priced r _ v (with_qty_keeps r _ v h)

  -- An order of type market goes out with the price 2147483647, which marks it as a market order,
  -- if it has no price set; with a price set that price replaces the mark, and the order goes out
  -- as a limit order would.
  pub map_order_fields_market :
      (r : Order E.Msg E.Double)
      → r.order_type_set ≡ true
      → r.order_type ≡ OrderType.market
      → (r.price_set ≡ false
          → E.get_integer (map_order_fields E k r).0 Field.order_price ≡ some (pos 2147483647))
        × (r.price_set ≡ true
            → E.get_integer (map_order_fields E k r).0 Field.order_price
              ≡ some (E.to_integer r.price))
  unfolding with_price
  map_order_fields_market r s t = (
    λ p. priced_lem r _ s t (rw p (laws.get_integer-set_integer_self _ _ _)),
    λ p. priced_lem r _ s t (rw p (laws.get_integer-set_integer_self _ _ _)),
  )
