-- ===== src/Examples/OptiqRaw.antt =====
-- src/examples/optiq-raw-example.cpp.
use fosdk.Common.{ℕ, String, none, some, List, [], ◌∷◌, ℤ, pos, if◌then◌else◌}
use fosdk.Gwc.Env.{Env, Decoded, success, error}
use fosdk.Gwc.Factory.{Level, info, err}
use fosdk.Examples.{Names, Value, text, number, Ending, exits, Api, logged_on, or_exit, fill}

-- `bytes` are those of a packet, by the values that were given to its setters one after the other; the
-- class of the packet comes with the codec.
module _ {Cache : Type 0} (E : Env Cache) (N : Names E.Double)
    (bytes : List (String × Value E.Double) → List ℕ) where
  unfoldable pub on_logging_on : E.Msg → E.Msg
  unfolding fill
  on_logging_on m =
      fill E N (("SoftwareProvider", text "BLUCNR") ∷ ("QueueingIndicator", number (pos 1)) ∷ []) m

  -- What onRawMsg logs after it has decoded a message; `to_string` is that of the cdr.
  unfoldable pub on_raw_msg : (E.Msg → String) → Decoded E.Msg → List (Level × String)
  on_raw_msg to_string d = elim d.status [
    | success ↦ (info, to_string d.msg) ∷ []
    | error ↦ (err, "unable to parse inbound msg") ∷ []
    | _ ↦ []
  ]

  unfoldable pub order : ℤ → ℤ → List (String × Value E.Double)
  order ts time =
      ("setFirmID", text "00099022")
      ∷ ("setSendingTime", number ts)
      ∷ ("setClientOrderID", number time)
      ∷ ("setSymbolIndex", number (pos 1110000))
      ∷ ("setEMM", number (N.constant "OPTIQ_EMM_CASH_AND_DERIVATIVE_CENTRAL_ORDER_BOOK"))
      ∷ ("setExecutionWithinFirmShortCode", number (pos 3))
      ∷ ("setTradingCapacity", number (N.constant "OPTIQ_TRADINGCAPACITY_DEALING_ON_OWN_ACCOUNT"))
      ∷ ("setAccountType", number (N.constant "OPTIQ_ACCOUNTTYPE_CLIENT"))
      ∷ ("setLPRole", number (N.constant "OPTIQ_LPROLE_RETAIL_LIQUIDITY_PROVIDER"))
      ∷ (
        "setExecutionInstruction",
        number (N.constant "OPTIQ_EXECUTIONINSTRUCTION_STPINCOMINGORDER"),
      )
      ∷ (
        "setDarkExecutionInstruction",
        number (N.constant "OPTIQ_DARKEXECUTIONINSTRUCTION_DARKINDICATOR"),
      )
      ∷ ("setMiFIDIndicators", number (N.constant "OPTIQ_MIFIDINDICATORS_EXECUTIONALGOINDICATOR"))
      ∷ ("setOrderPx", number (pos 1234))
      ∷ ("setOrderQty", number (pos 500))
      ∷ ("setTimeInForce", number (N.constant "OPTIQ_TIMEINFORCE_DAY"))
      ∷ ("setOrderSide", number (N.constant "OPTIQ_SIDE_BUY"))
      ∷ ("setOrderType", number (N.constant "OPTIQ_ORDERTYPE_LIMIT"))
      ∷ []

  unfoldable pub props : List (String × String)
  props =
      ("host", "127.0.0.1:9999")
      ∷ ("partition", "10")
      ∷ ("accessId", "1024")
      ∷ ("enable_raw_messages", "yes")
      ∷ []

  unfoldable pub main : {S : Type 0} → Api S E.Msg E.Double → ℤ → ℤ → Ending S
  unfolding props order logged_on or_exit
  main A ts time =
      if A.configure
      then logged_on A "optiq" props (λ s.
        or_exit (A.send_raw (bytes (order ts time)) s)
          (λ t. exits 0 (some (A.sleep 2 (A.stop (A.sleep 5 t)).0))))
      else exits 1 none
