-- ===== src/Fix/OrderFields.antt =====
-- src/fix/gwcFix.cpp: mapOrderFields. A `switch` is entered at the label that fits and left at a
-- `break`: from the label on, each assignment is made until a `break` follows one.
use fosdk.Common.{ℕ, Bool, true, false, String, List, [], ◌∷◌, ◌==◌, if◌then◌else◌, str_eq}
use fosdk.Gwc.Order.{
  Order, Side, OrderType, Tif, side_code, order_type_code, tif_code, market, limit, stop,
  stop_limit, market_on_close, with_or_without, limit_or_better, limit_with_or_without, on_basis,
  on_close, limit_on_close, forex, previously_quoted, previously_indicated, pegged, buy, sell,
  buy_minus, sell_plus, sell_short, sell_short_exempt, undisclosed, cross, cross_short,
  cross_short_exempt, as_defined, opposite, subscribe, redeem, lend, borrow, sell_undisclosed, day,
  gtc, opg, ioc, fok, gtx, gtd, atc,
}
use fosdk.Gwc.Env.{Env, Field}
use fosdk.Fix.{Fix, Seqnums}
use fosdk.Fix.Session.{send_order, send_cancel, send_modify}

-- A label of a switch: the enumerator's value, the text assigned, and whether a `break` follows.
pub record Label : Type 0 where
  pub value : ℕ
  pub text : String
  pub breaks : Bool

abbrev label : ℕ → String → Label
label n t = record { value = n; text = t; breaks = false }

abbrev last_label : ℕ → String → Label
last_label n t = record { value = n; text = t; breaks = true }

unfoldable pub fall : List Label → String → String
fall [] v = v
fall (l ∷ ls) v = let rest = fall ls l.text in if l.breaks then l.text else rest

-- With no label that fits, the `default` leaves the text alone.
unfoldable pub switch : List Label → ℕ → String → String
unfolding fall
switch [] n v = v
switch (l ∷ ls) n v = let rest = switch ls n v in if l.value == n then fall (l ∷ ls) v else rest

unfoldable pub ord_type_labels : List Label
unfolding order_type_code
ord_type_labels =
    label (order_type_code market) "1"
    ∷ label (order_type_code limit) "2"
    ∷ label (order_type_code stop) "3"
    ∷ label (order_type_code stop_limit) "4"
    ∷ label (order_type_code market_on_close) "5"
    ∷ label (order_type_code with_or_without) "6"
    ∷ label (order_type_code limit_or_better) "7"
    ∷ label (order_type_code limit_with_or_without) "8"
    ∷ label (order_type_code on_basis) "9"
    ∷ label (order_type_code on_close) "A"
    ∷ label (order_type_code limit_on_close) "B"
    ∷ label (order_type_code forex) "C"
    ∷ label (order_type_code previously_quoted) "D"
    ∷ label (order_type_code previously_indicated) "E"
    ∷ last_label (order_type_code pegged) "P"
    ∷ []

unfoldable pub side_labels : List Label
unfolding side_code
side_labels =
    label (side_code buy) "1"
    ∷ label (side_code sell) "2"
    ∷ label (side_code buy_minus) "3"
    ∷ label (side_code sell_plus) "4"
    ∷ label (side_code sell_short) "5"
    ∷ label (side_code sell_short_exempt) "6"
    ∷ label (side_code undisclosed) "7"
    ∷ label (side_code cross) "8"
    ∷ label (side_code cross_short) "9"
    ∷ label (side_code cross_short_exempt) "A"
    ∷ label (side_code as_defined) "B"
    ∷ label (side_code opposite) "C"
    ∷ label (side_code subscribe) "D"
    ∷ label (side_code redeem) "E"
    ∷ label (side_code lend) "F"
    ∷ label (side_code borrow) "G"
    ∷ last_label (side_code sell_undisclosed) "H"
    ∷ []

unfoldable pub tif_labels : List Label
unfolding tif_code
tif_labels =
    label (tif_code day) "0"
    ∷ label (tif_code gtc) "1"
    ∷ label (tif_code opg) "2"
    ∷ label (tif_code ioc) "3"
    ∷ label (tif_code fok) "4"
    ∷ label (tif_code gtx) "5"
    ∷ label (tif_code gtd) "6"
    ∷ last_label (tif_code atc) "7"
    ∷ []

-- The text that `switch` gives to an empty string.
unfoldable pub ord_type_text : OrderType → String
unfolding switch ord_type_labels
ord_type_text t = switch ord_type_labels (order_type_code t) ""

unfoldable pub side_text : Side → String
unfolding switch side_labels
side_text v = switch side_labels (side_code v) ""

unfoldable pub tif_text : Tif → String
unfolding switch tif_labels
tif_text t = switch tif_labels (tif_code t) ""

module _ (E : Env Seqnums) where
  -- `if (!text.empty ())` set the field to its one character.
  unfoldable pub set_text : E.Msg → Field → String → E.Msg
  set_text m f t = if str_eq t "" then m else E.set_string m f t

  unfoldable pub with_price : Order E.Msg E.Double → E.Msg → E.Msg
  with_price o m = if o.price_set then E.set_integer m Field.price (E.to_integer o.price) else m

  unfoldable pub with_qty : Order E.Msg E.Double → E.Msg → E.Msg
  with_qty o m = if o.qty_set then E.set_integer m Field.order_qty o.qty else m

  unfoldable pub with_order_type : Order E.Msg E.Double → E.Msg → E.Msg
  unfolding set_text
  with_order_type o m =
      if o.order_type_set then set_text m Field.ord_type (ord_type_text o.order_type) else m

  unfoldable pub with_side : Order E.Msg E.Double → E.Msg → E.Msg
  unfolding set_text
  with_side o m = if o.side_set then set_text m Field.side (side_text o.side) else m

  unfoldable pub with_tif : Order E.Msg E.Double → E.Msg → E.Msg
  unfolding set_text
  with_tif o m = if o.tif_set then set_text m Field.time_in_force (tif_text o.tif) else m

  unfoldable pub map_order_fields : Order E.Msg E.Double → E.Msg × Bool
  map_order_fields o =
      (with_tif o (with_side o (with_order_type o (with_qty o (with_price o o.msg)))), true)

  unfoldable pub send_gwc_order : Order E.Msg E.Double → Fix E.Msg → Fix E.Msg × Bool
  send_gwc_order o s = let r = map_order_fields o in if r.1 then send_order E r.0 s else (s, false)

  unfoldable pub send_gwc_cancel : Order E.Msg E.Double → Fix E.Msg → Fix E.Msg × Bool
  send_gwc_cancel o s =
      let r = map_order_fields o in if r.1 then send_cancel E r.0 s else (s, false)

  unfoldable pub send_gwc_modify : Order E.Msg E.Double → Fix E.Msg → Fix E.Msg × Bool
  send_gwc_modify o s =
      let r = map_order_fields o in if r.1 then send_modify E r.0 s else (s, false)
