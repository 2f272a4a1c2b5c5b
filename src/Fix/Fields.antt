-- ===== src/Fix/Fields.antt =====
-- What mapOrderFields of src/fix/gwcFix.cpp writes for the type, the side and the time in force of
-- an order.
use fosdk.Common.{◌≤◌, ◌≡◌, ◌≢◌, refl, ◌∙◌, str_eq, true, false, String, arith, some}
use fosdk.Gwc.Order.{Order, Side, OrderType, Tif, tif_code}
use fosdk.Gwc.Env.{Env, Field, IsCdr}
use fosdk.Fix.{Seqnums}
use fosdk.Fix.OrderFields.{
  ord_type_text, side_text, tif_text, set_text, with_order_type, with_side, with_tif,
  map_order_fields,
}

ord_type_text_last : (t : OrderType) → ord_type_text t ≡ "P"
unfolding ord_type_text
ord_type_text_last OrderType.market = refl
ord_type_text_last _ = refl

side_text_last : (v : Side) → side_text v ≡ "H"
unfolding side_text
side_text_last Side.buy = refl
side_text_last _ = refl

tif_text_last : (t : Tif) → tif_code t ≤ 7 → tif_text t ≡ "7"
unfolding tif_text tif_code
tif_text_last Tif.gtt h = absurd (omega arith)
tif_text_last Tif.cpx h = absurd (omega arith)
tif_text_last Tif.gfa h = absurd (omega arith)
tif_text_last Tif.gfx h = absurd (omega arith)
tif_text_last Tif.gfs h = absurd (omega arith)
tif_text_last _ h = refl

module _ (E : Env Seqnums) (laws : IsCdr E.cdr) where
  set_text_self :
      (m : E.Msg) (f : Field) (t : String)
      → str_eq t "" ≡ false
      → E.get_string (set_text E m f t) f ≡ some t
  unfolding set_text
  set_text_self m f t h = rw h (laws.get_string-set_string_self m f t)

  with_side_keeps :
      (o : Order E.Msg E.Double) (m : E.Msg) (f : Field)
      → Field.side ≢ f
      → E.get_string (with_side E o m) f ≡ E.get_string m f
  unfolding with_side
  with_side_keeps o m f h =
      ground (arith, laws.get_string-set_string_ne m Field.side f (side_text o.side) h)

  with_tif_keeps :
      (o : Order E.Msg E.Double) (m : E.Msg) (f : Field)
      → Field.time_in_force ≢ f
      → E.get_string (with_tif E o m) f ≡ E.get_string m f
  unfolding with_tif
  with_tif_keeps o m f h =
      ground (arith, laws.get_string-set_string_ne m Field.time_in_force f (tif_text o.tif) h)

  -- Every order whose type is set goes out with OrdType P, whatever the type; every one whose side
  -- is set with Side H, whatever the side; and TimeInForce is 7 for each of DAY to ATC.
  pub map_order_fields_last :
      (o : Order E.Msg E.Double)
      → let m = (map_order_fields E o).0 in
        (o.order_type_set ≡ true → E.get_string m Field.ord_type ≡ some "P")
        × (o.side_set ≡ true → E.get_string m Field.side ≡ some "H")
        × (o.tif_set ≡ true → tif_code o.tif ≤ 7 → E.get_string m Field.time_in_force ≡ some "7")
  unfolding map_order_fields with_order_type with_side with_tif
  map_order_fields_last o = (
    λ set.
        with_tif_keeps o _ _ (λ e. cc)
        ∙ with_side_keeps o _ _ (λ e. cc)
        ∙ rw (set, ord_type_text_last o.order_type) (set_text_self _ _ "P" refl),
    λ set.
        with_tif_keeps o _ _ (λ e. cc)
        ∙ rw (set, side_text_last o.side) (set_text_self _ _ "H" refl),
    λ set b. rw (set, tif_text_last o.tif b) (set_text_self _ _ "7" refl),
  )
