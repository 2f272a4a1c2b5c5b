-- ===== src/Examples/LseRaw.antt =====
-- src/examples/lse-raw-example.cpp.
use fosdk.Common.{ℕ, String, none, some, List, [], ◌∷◌, pos, ◌-◌, ◌==◌, if◌then◌else◌}
use fosdk.Gwc.Env.{Env}
use fosdk.Gwc.Factory.{Level, info, err}
use fosdk.Examples.{Names, Value, text, number, Ending, exits, Api, logged_on, or_exit, fill}

-- `header` and `size` are the sizes of LseHeader and LseNewOrder; `bytes` are those of a packet, by the values that were given to its setters one after the other; the
-- class of the packet comes with the codec.
module _ {Cache : Type 0} (E : Env Cache) (N : Names E.Double) (header size : ℕ)
    (bytes : List (String × Value E.Double) → List ℕ) where
  -- The user and the password are members of the callbacks, which `main` sets.
  unfoldable pub on_logging_on : String → String → E.Msg → E.Msg
  unfolding fill
  on_logging_on username password m =
      fill E N (("UserName", text username) ∷ ("Password", text password) ∷ []) m

  -- What onRawMsg logs of a message, by the type in its header; `other` is the line that names it.
  unfoldable pub on_raw_msg : ℕ → String → Level × String
  on_raw_msg type other =
      if type == b'3'
      then (info, "received: reject")
      else if type == b'8'
      then (info, "received: execution report")
      else (err, other)

  unfoldable pub order : List (String × Value E.Double)
  order =
      ("mHeader.mMessageType", number (pos b'D'))
      ∷ ("mHeader.mStartOfMessage", number (pos header))
      ∷ ("mHeader.mMessageLength", number (pos (size - header - 1)))
      ∷ ("setLimitPrice", number (pos 1234))
      ∷ ("setOrderQty", number (pos 1000))
      ∷ ("setTIF", number (pos 10))
      ∷ ("setSide", number (pos 1))
      ∷ ("setOrderType", number (pos 2))
      ∷ ("setClientOrderID", text "myorder")
      ∷ ("setInstrumentID", number (pos 133215))
      ∷ ("setAutoCancel", number (pos 1))
      ∷ ("setTraderID", text "TX1")
      ∷ ("setAccount", text "account")
      ∷ ("setClearingAccount", number (pos 1))
      ∷ ("setCapacity", number (pos 1))
      ∷ ("setClientID", number (pos 1234))
      ∷ ("setExecutingTrader", number (pos 7676))
      ∷ []

  unfoldable pub props : List (String × String)
  props =
      ("venue", "lse")
      ∷ ("real_time_host", "127.0.0.1:9899")
      ∷ ("recovery_host", "127.0.0.1:10000")
      ∷ ("enable_raw_messages", "true")
      ∷ []

  unfoldable pub main : {S : Type 0} → Api S E.Msg E.Double → Ending S
  unfolding props order logged_on or_exit
  main A =
      if A.configure
      then logged_on A "millennium" props (λ s.
        or_exit (A.send_raw (bytes order) s)
          (λ t. exits 0 (some (A.sleep 2 (A.stop (A.sleep 5 t)).0))))
      else exits 1 none
