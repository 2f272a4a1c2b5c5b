-- ===== src/Examples/Bme.antt =====
-- src/examples/bme-cdr-example.cpp.
use fosdk.Common.{String, none, some, List, [], ◌∷◌, pos, or_else, if◌then◌else◌}
use fosdk.Gwc.{Callback, order_ack, modify_ack}
use fosdk.Gwc.Env.{Env}
use fosdk.Gwc.Order.{Order, Side, OrderType, set_side, set_qty, set_order_type}
use fosdk.Gwc.Wait.{Wait}
use fosdk.Examples.{
  Names, text, number, Call, modifies, cancels, Ending, exits, Api, logged_on, waited, fill,
  fill_order, new_order,
}

module _ {Cache : Type 0} (E : Env Cache) (N : Names E.Double) where
  unfoldable pub on_logging_on : E.Msg → E.Msg
  unfolding fill
  on_logging_on m =
      fill E N (("DefaultApplVerID", text "9") ∷ ("DefaultCstmApplVerID", text "T4.0") ∷ []) m

  unfoldable pub order : Order E.Msg E.Double → Order E.Msg E.Double
  unfolding fill_order set_side set_qty set_order_type
  order left =
      let o =
        fill_order E N
          (("ClOrdID", text "A12345678")
            ∷ ("AccountType", number (pos 1))
            ∷ ("Symbol", text "CSCO")
            ∷ [])
          (new_order E N left) in
      let p = set_order_type OrderType.limit (set_qty (pos 100) (set_side Side.buy o)) in
      fill_order E N (("ReceivedDeptID", text "T") ∷ []) p

  unfoldable pub modify : String → Order E.Msg E.Double → Order E.Msg E.Double
  unfolding fill_order set_side set_qty set_order_type
  modify origcloid left =
      let o =
        fill_order E N
          (("OrigClOrdID", text origcloid)
            ∷ ("ClOrdID", text "B12345678")
            ∷ ("AccountType", number (pos 1))
            ∷ ("Symbol", text "CSCO")
            ∷ [])
          (new_order E N left) in
      set_order_type OrderType.limit (set_qty (pos 50) (set_side Side.buy o))

  unfoldable pub cancel : String → Order E.Msg E.Double → Order E.Msg E.Double
  unfolding fill_order set_side
  cancel origcloid left =
      let o =
        fill_order E N
          (("OrigClOrdID", text origcloid)
            ∷ ("ClOrdID", text "C12345678")
            ∷ ("Symbol", text "CSCO")
            ∷ [])
          (new_order E N left) in
      set_side Side.buy o

  -- The message callbacks: an accepted order is modified, and an accepted modify cancelled. `left` is
  -- what a new order's members hold.
  unfoldable pub on_message : Order E.Msg E.Double → Callback → E.Msg → List (Call E.Msg E.Double)
  unfolding modify cancel
  on_message left order_ack msg =
      modifies (modify (or_else (E.get_string msg (N.field "ClOrdID")) "") left) ∷ []
  on_message left modify_ack msg =
      cancels (cancel (or_else (E.get_string msg (N.field "ClOrdID")) "") left) ∷ []
  on_message left _ msg = []

  unfoldable pub props : String → List (String × String)
  props fp =
      ("host", "127.0.0.1:9899")
      ∷ ("begin_string", "FIXT.1.1")
      ∷ ("sender_comp_id", "DBL")
      ∷ ("target_comp_id", "BME")
      ∷ ("data_dictionary", fp)
      ∷ ("seqno_cache", "/tmp/bme.cache")
      ∷ []

  -- An order that is refused is logged, and the program goes on.
  unfoldable pub main : {S : Type 0} → Api S E.Msg E.Double → Order E.Msg E.Double → Ending S
  unfolding props order logged_on
  main A left =
      if A.configure
      then elim (A.find_file "FIXT11.xml") [
        | none ↦ exits 1 none
        | some fp ↦ logged_on A "fix" (props fp) (λ s.
            let t = A.sleep 5 (A.send_order (order left) s).0 in
            waited (A.wait_for Wait.for_logoff (A.stop t).0) (λ u. exits 0 (some u)))
      ]
      else exits 1 none
