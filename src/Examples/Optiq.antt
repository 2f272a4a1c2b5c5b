-- ===== src/Examples/Optiq.antt =====
-- src/examples/optiq-cdr-example.cpp; what `#if 0` leaves out is left out.
use fosdk.Common.{String, none, some, List, [], ◌∷◌, ℤ, pos, or_else, if◌then◌else◌}
use fosdk.Gwc.Env.{Env}
use fosdk.Gwc.Order.{
  Order, Side, OrderType, Tif, set_price, set_side, set_qty, set_order_type, set_tif,
}
use fosdk.Examples.{
  Names, Value, text, number, Ending, exits, Api, logged_on, or_exit, fill, fill_order, new_order,
}

module _ {Cache : Type 0} (E : Env Cache) (N : Names E.Double) where
  unfoldable pub on_logging_on : E.Msg → E.Msg
  unfolding fill
  on_logging_on m =
      fill E N (("SoftwareProvider", text "BLUCNR") ∷ ("QueueingIndicator", number (pos 1)) ∷ []) m

  -- onOrderAck, which keeps the id of the order in a variable; the other message callbacks log.
  unfoldable pub on_order_ack : E.Msg → ℤ → ℤ
  on_order_ack msg order_id = or_else (E.get_integer msg (N.field "OrderID")) order_id

  -- What both orders have in common: a time in nanoseconds and a client order id in seconds.
  unfoldable pub fields : ℤ → ℤ → List (String × Value E.Double)
  fields ts cl_ord_id =
      ("FirmID", text "00099022")
      ∷ ("SendingTime", number ts)
      ∷ ("ClientOrderID", number cl_ord_id)
      ∷ ("SymbolIndex", number (pos 1110000))
      ∷ ("EMM", number (N.constant "OPTIQ_EMM_CASH_AND_DERIVATIVE_CENTRAL_ORDER_BOOK"))
      ∷ ("ExecutionWithinFirmShortCode", number (pos 3))
      ∷ ("TradingCapacity", number (N.constant "OPTIQ_TRADINGCAPACITY_DEALING_ON_OWN_ACCOUNT"))
      ∷ ("AccountType", number (N.constant "OPTIQ_ACCOUNTTYPE_CLIENT"))
      ∷ ("LPRole", number (N.constant "OPTIQ_LPROLE_RETAIL_LIQUIDITY_PROVIDER"))
      ∷ ("ExecutionInstruction", number (N.constant "OPTIQ_EXECUTIONINSTRUCTION_STPRESTINGORDER"))
      ∷ (
        "DarkExecutionInstruction",
        number (N.constant "OPTIQ_DARKEXECUTIONINSTRUCTION_DARKINDICATOR"),
      )
      ∷ ("MiFIDIndicators", number (N.constant "OPTIQ_MIFIDINDICATORS_EXECUTIONALGOINDICATOR"))
      ∷ []

  unfoldable pub border : ℤ → ℤ → Order E.Msg E.Double → Order E.Msg E.Double
  unfolding fields fill_order set_price set_qty set_tif set_side set_order_type
  border ts cl_ord_id left =
      let p =
        set_tif Tif.day (set_qty (pos 500) (set_price (N.decimal "1234") (new_order E N left))) in
      let o = set_order_type OrderType.limit (set_side Side.buy p) in
      fill_order E N (fields ts cl_ord_id) o

  unfoldable pub sorder : ℤ → ℤ → Order E.Msg E.Double → Order E.Msg E.Double
  unfolding fields fill_order set_price set_qty set_tif set_side set_order_type
  sorder ts cl_ord_id left =
      let p =
        set_tif Tif.day (set_qty (pos 1000) (set_price (N.decimal "1234") (new_order E N left))) in
      let o = set_order_type OrderType.market (set_side Side.sell p) in
      fill_order E N (fields ts cl_ord_id) o

  unfoldable pub props : List (String × String)
  props = ("host", "127.0.0.1:9999") ∷ ("partition", "10") ∷ ("accessId", "1024") ∷ []

  -- With the times and the ids of the two orders, and what their members hold.
  unfoldable pub main :
      {S : Type 0}
      → Api S E.Msg E.Double
      → ℤ × ℤ
      → ℤ × ℤ
      → Order E.Msg E.Double
      → Order E.Msg E.Double
      → Ending S
  unfolding props border sorder logged_on or_exit
  main A first second left left' =
      if A.configure
      then logged_on A "optiq" props (λ s.
        or_exit (A.send_order (border first.0 first.1 left) s) (λ t.
          or_exit (A.send_order (sorder second.0 second.1 left') (A.sleep 5 t))
            (λ u. exits 0 (some (A.sleep 2 (A.stop (A.sleep 5 (A.sleep 5 u))).0)))))
      else exits 1 none
