-- ===== src/Examples/Lse.antt =====
-- src/examples/lse-cdr-example.cpp.
use fosdk.Common.{String, none, some, List, [], ◌∷◌, pos, or_else, if◌then◌else◌}
use fosdk.Gwc.{Callback, order_ack, modify_ack}
use fosdk.Gwc.Env.{Env}
use fosdk.Gwc.Order.{
  Order, Side, OrderType, Tif, set_price, set_side, set_qty, set_order_type, set_tif,
}
use fosdk.Examples.{
  Names, text, number, real, Call, modifies_cdr, cancels_cdr, Ending, exits, Api, logged_on,
  or_exit, fill, fill_order, new_order,
}

module _ {Cache : Type 0} (E : Env Cache) (N : Names E.Double) where
  -- The user and the password are members of the callbacks, which `main` sets.
  unfoldable pub on_logging_on : String → String → E.Msg → E.Msg
  unfolding fill
  on_logging_on username password m =
      fill E N (("UserName", text username) ∷ ("Password", text password) ∷ []) m

  unfoldable pub order : Order E.Msg E.Double → Order E.Msg E.Double
  unfolding fill_order set_price set_qty set_tif set_side set_order_type
  order left =
      let p =
        set_tif Tif.day
          (set_qty (pos 1000) (set_price (N.decimal "1234.45") (new_order E N left))) in
      let o = set_order_type OrderType.limit (set_side Side.buy p) in
      fill_order E N
        (("ClientOrderID", text "myorder")
          ∷ ("InstrumentID", number (pos 133215))
          ∷ ("AutoCancel", number (pos 1))
          ∷ ("TraderID", text "TX1")
          ∷ ("Account", text "account")
          ∷ ("ClearingAccount", number (pos 1))
          ∷ ("FXMiFIDFlags", number (pos 0))
          ∷ ("PartyRoleQualifiers", number (pos 0))
          ∷ ("ExpireDateTime", number (pos 0))
          ∷ ("DisplayQty", number (pos 0))
          ∷ ("Capacity", number (pos 1))
          ∷ ("OrderSubType", number (pos 0))
          ∷ ("Anonymity", number (pos 0))
          ∷ ("StopPrice", real (N.decimal "0.0"))
          ∷ ("PassiveOnlyOrder", number (pos 0))
          ∷ ("ClientID", number (pos 1234))
          ∷ ("InvestmentDecisionMaker", number (pos 0))
          ∷ ("MinimumQuantity", number (pos 0))
          ∷ ("ExecutingTrader", number (pos 7676))
          ∷ [])
        o

  unfoldable pub modify : String → E.Msg
  unfolding fill
  modify order_id =
      fill E N
        (("OriginalClientOrderID", text "myorder")
          ∷ ("ClientOrderID", text "myorder1")
          ∷ ("OrderID", text order_id)
          ∷ ("InstrumentID", number (pos 133215))
          ∷ ("OrderQty", number (pos 2000))
          ∷ ("OrderType", number (pos 2))
          ∷ ("LimitPrice", real (N.decimal "1234.56"))
          ∷ ("Side", number (pos 1))
          ∷ ("Account", text "account")
          ∷ ("ExpireDateTime", number (pos 0))
          ∷ ("DisplayQty", number (pos 0))
          ∷ ("StopPrice", real (N.decimal "0.0"))
          ∷ ("PassiveOnlyOrder", number (pos 0))
          ∷ ("ClientID", number (pos 1234))
          ∷ ("MinimumQuantity", number (pos 0))
          ∷ ("PassiveOnlyOrder", number (pos 0))
          ∷ ("ReservedField1", number (pos 0))
          ∷ ("ReservedField2", number (pos 0))
          ∷ ("ReservedField3", number (pos 0))
          ∷ ("ReservedField4", number (pos 0))
          ∷ [])
        E.empty

  unfoldable pub cancel : String → E.Msg
  unfolding fill
  cancel order_id =
      fill E N
        (("OriginalClientOrderID", text "myorder1")
          ∷ ("ClientOrderID", text "myorder2")
          ∷ ("OrderID", text order_id)
          ∷ ("InstrumentID", number (pos 133215))
          ∷ ("Side", number (pos 1))
          ∷ ("RfqID", text "XXXX")
          ∷ ("ReservedField1", number (pos 0))
          ∷ ("ReservedField2", number (pos 0))
          ∷ [])
        E.empty

  -- The message callbacks: an accepted order is modified, and an accepted modify cancelled.
  unfoldable pub on_message : Callback → E.Msg → List (Call E.Msg E.Double)
  unfolding modify cancel
  on_message order_ack msg =
      modifies_cdr (modify (or_else (E.get_string msg (N.field "OrderID")) "")) ∷ []
  on_message modify_ack msg =
      cancels_cdr (cancel (or_else (E.get_string msg (N.field "OrderID")) "")) ∷ []
  on_message _ msg = []

  unfoldable pub props : List (String × String)
  props =
      ("venue", "lse")
      ∷ ("real_time_host", "127.0.0.1:9899")
      ∷ ("recovery_host", "127.0.0.1:10000")
      ∷ []

  unfoldable pub main : {S : Type 0} → Api S E.Msg E.Double → Order E.Msg E.Double → Ending S
  unfolding props order logged_on or_exit
  main A left =
      if A.configure
      then logged_on A "millennium" props (λ s.
        or_exit (A.send_order (order left) s)
          (λ t. exits 0 (some (A.sleep 2 (A.stop (A.sleep 5 t)).0))))
      else exits 1 none
