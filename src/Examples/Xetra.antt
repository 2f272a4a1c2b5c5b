-- ===== src/Examples/Xetra.antt =====
-- src/examples/xetra-cdr-example.cpp; what `#if 0` leaves out is left out.
use fosdk.Common.{String, none, some, List, [], ◌∷◌, ℤ, pos, if◌then◌else◌}
use fosdk.Gwc.Env.{Env}
use fosdk.Gwc.Order.{
  Order, Side, OrderType, Tif, set_price, set_side, set_qty, set_order_type, set_tif,
}
use fosdk.Gwc.Wait.{Wait}
use fosdk.Examples.{
  Names, text, number, Ending, exits, Api, logged_on, waited, or_exit, fill, fill_order, new_order,
}

module _ {Cache : Type 0} (E : Env Cache) (N : Names E.Double) where
  unfoldable pub on_logging_on : E.Msg → E.Msg
  unfolding fill
  on_logging_on m =
      fill E N
        (("PartyIDSessionID", number (pos 123456789))
          ∷ ("Password", text "password")
          ∷ ("ApplicationSystemName", text "Test")
          ∷ ("ApplicationSystemVersion", text "1.0")
          ∷ ("ApplicationSystemVendor", text "Blucorner")
          ∷ [])
        m

  unfoldable pub on_trader_logging_off : E.Msg → E.Msg
  unfolding fill
  on_trader_logging_off m = fill E N (("Username", number (pos 123456789)) ∷ []) m

  unfoldable pub trader : E.Msg
  unfolding fill
  trader =
      fill E N (("Username", number (pos 123456789)) ∷ ("Password", text "password") ∷ []) E.empty

  unfoldable pub border : ℤ → Order E.Msg E.Double → Order E.Msg E.Double
  unfolding fill_order set_price set_qty set_tif set_side set_order_type
  border cl_ord_id left =
      let p =
        set_tif Tif.day
          (set_qty (pos 50000) (set_price (N.decimal "1234.45") (new_order E N left))) in
      let o = set_order_type OrderType.limit (set_side Side.buy p) in
      fill_order E N
        (("SenderSubID", number (pos 123456789))
          ∷ ("ClOrdID", number cl_ord_id)
          ∷ ("SecurityID", number (pos 2504860))
          ∷ ("PartyIDClientID", number (pos 0))
          ∷ ("PartyIdInvestmentDecisionMaker", number (pos 2000000003))
          ∷ ("ExecutingTrader", number (pos 2000005140))
          ∷ ("MarketSegmentID", number (pos 52767))
          ∷ ("ApplSeqIndicator", number (pos 0))
          ∷ ("PriceValidityCheckType", number (pos 0))
          ∷ ("ValueCheckTypeValue", number (pos 0))
          ∷ ("ValueCheckTypeQuantity", number (pos 0))
          ∷ ("OrderAttributeLiquidityProvision", number (pos 0))
          ∷ ("ExecInst", number (pos 2))
          ∷ ("TradingCapacity", number (pos 5))
          ∷ ("PartyIdInvestmentDecisionMakerQualifier", number (pos 24))
          ∷ ("ExecutingTraderQualifier", number (pos 24))
          ∷ [])
        o

  unfoldable pub props : List (String × String)
  props = ("host", "127.0.0.1:9999") ∷ ("venue", "xetra") ∷ []

  unfoldable pub main : {S : Type 0} → Api S E.Msg E.Double → ℤ → Order E.Msg E.Double → Ending S
  unfolding props border trader logged_on or_exit waited
  main A cl_ord_id left =
      if A.configure
      then logged_on A "eti" props (λ s. or_exit (A.trader_logon trader s) (λ t.
        waited (A.wait_for Wait.for_trader_logon t) (λ u.
          or_exit (A.send_order (border cl_ord_id left) u)
            (λ v. exits 0 (some (A.sleep 2 (A.stop (A.sleep 5 v)).0))))))
      else exits 1 none
