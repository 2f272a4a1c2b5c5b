-- ===== src/Examples/Swx.antt =====
-- src/examples/swx-cdr-example.cpp.
use fosdk.Common.{String, none, some, List, [], ◌∷◌, pos, if◌then◌else◌}
use fosdk.Gwc.{Callback, order_ack, modify_ack}
use fosdk.Gwc.Env.{Env}
use fosdk.Gwc.Order.{
  Order, Side, OrderType, Tif, set_price, set_side, set_qty, set_order_type, set_tif,
}
use fosdk.Examples.{
  Names, text, number, Call, modifies_cdr, cancels_cdr, Ending, exits, Api, logged_on, or_exit,
  fill, fill_order, new_order,
}

module _ {Cache : Type 0} (E : Env Cache) (N : Names E.Double) where
  -- The user and the password are members of the callbacks, which `main` sets.
  unfoldable pub on_logging_on : String → String → E.Msg → E.Msg
  unfolding fill
  on_logging_on username password m =
      fill E N (("Username", text username) ∷ ("Password", text password) ∷ []) m

  unfoldable pub order : Order E.Msg E.Double → Order E.Msg E.Double
  unfolding fill_order set_price set_qty set_tif set_side set_order_type
  order left =
      let p =
        set_tif Tif.day (set_qty (pos 1000) (set_price (N.decimal "1234") (new_order E N left))) in
      let o = set_order_type OrderType.limit (set_side Side.buy p) in
      fill_order E N
        (("OrderToken", number (pos 1))
          ∷ ("BankInternalReference", text "ABC")
          ∷ ("OrderBook", number (pos 1147))
          ∷ ("PrincipalId", number (pos 9999))
          ∷ ("SecondaryQuantity", number (pos 0))
          ∷ ("OrderPlacement", text "C")
          ∷ ("AlgoID", number (pos 1))
          ∷ [])
        o

  unfoldable pub modify : E.Msg
  unfolding fill
  modify =
      fill E N
        (("ExistingOrderToken", number (pos 1))
          ∷ ("ReplacementOrderToken", number (pos 2))
          ∷ ("OrderQuantity", number (pos 500))
          ∷ ("OrderPrice", number (pos 1234))
          ∷ ("TimeInForce", number (N.constant "SWX_TIMEINFORCE_IMMEDIATE"))
          ∷ ("SecondaryQuantity", number (pos 500))
          ∷ ("AlgoID", number (pos 1))
          ∷ [])
        E.empty

  unfoldable pub cancel : E.Msg
  unfolding fill
  cancel =
      fill E N (("OriginalOrderToken", number (pos 2)) ∷ ("OrderQuantity", number (pos 0)) ∷ [])
        E.empty

  -- The message callbacks: an accepted order is modified, and an accepted modify cancelled.
  unfoldable pub on_message : Callback → E.Msg → List (Call E.Msg E.Double)
  unfolding modify cancel
  on_message order_ack msg = modifies_cdr modify ∷ []
  on_message modify_ack msg = cancels_cdr cancel ∷ []
  on_message _ msg = []

  unfoldable pub props : List (String × String)
  props = ("host", "127.0.0.1:9001") ∷ []

  unfoldable pub main : {S : Type 0} → Api S E.Msg E.Double → Order E.Msg E.Double → Ending S
  unfolding props order logged_on or_exit
  main A left =
      if A.configure
      then logged_on A "swx" props (λ s.
        or_exit (A.send_order (order left) s)
          (λ t. exits 0 (some (A.sleep 2 (A.stop (A.sleep 15 t)).0))))
      else exits 1 none
