-- ===== src/Fix/Hearing.antt =====
-- Which handlers of src/fix/gwcFix.cpp give the client a message, and that none but a SequenceReset
-- touches the expected sequence number.
use fosdk.Common.{◌≡◌, ◌⊎◌, String, List, [], ◌∷◌, ℤ, arith, succ, ◌<ℤ◌, succ_parts}
use fosdk.Gwc.{Effect, Callback, notified}
use fosdk.Gwc.Env.{Env}
use fosdk.Fix.{Fix, Seqnums, notify}
use fosdk.Fix.Session.{reset, error, send_msg}
use fosdk.Fix.Handlers.{
  handle_logout_msg, handle_test_request_msg, handle_resend_request_msg,
  handle_execution_report_msg, handle_order_cancel_reject_msg, handle_reject_msg,
  handle_business_reject_msg,
}
use fosdk.Fix.Receive.{
  Handler, on_test_request, on_resend_request, on_logout, on_order_cancel_reject, call,
}

-- The sequence numbers of the messages that the client was given, newest first.
unfoldable pub delivered : {Msg : Type 0} → List (Effect Msg Seqnums) → List ℤ
delivered [] = []
delivered (notified k n m ∷ es) = n ∷ delivered es
delivered (_ ∷ es) = delivered es

-- Falling along the list, and under the bound.
abbrev pub Below : ℤ → List ℤ → Type 0
Below b [] = Unit {0}
Below b (n ∷ ns) = (n <ℤ b) × Below n ns

-- Nothing is delivered and the expected number stays.
pub record IsQuiet {Msg : Type 0} (s t : Fix Msg) : Type 0 where
  pub inbound_same : t.seqnums.inbound ≡ s.seqnums.inbound
  pub delivered_same : delivered t.trace ≡ delivered s.trace

-- The same, but the client may be given one message, with number `n`.
pub record Hears {Msg : Type 0} (n : ℤ) (s t : Fix Msg) : Type 0 where
  pub inbound_same : t.seqnums.inbound ≡ s.seqnums.inbound
  pub heard : (delivered t.trace ≡ delivered s.trace) ⊎ (delivered t.trace ≡ n ∷ delivered s.trace)

module _ (E : Env Seqnums) where
  pub error-IsQuiet : (t : String) (s : Fix E.Msg) → IsQuiet s (error E t s)
  unfolding error delivered reset
  error-IsQuiet t s = ground arith

  pub send_msg-IsQuiet : (m : E.Msg) (s : Fix E.Msg) → IsQuiet s (send_msg E m s).0
  unfolding send_msg delivered
  send_msg-IsQuiet m s = ground arith

  pub logout-Hears : (n : ℤ) (m : E.Msg) (s : Fix E.Msg) → Hears n s (handle_logout_msg E n m s)
  unfolding handle_logout_msg delivered reset
  logout-Hears n m s =
      ground (arith, error-IsQuiet "unsolicited logoff from exchnage" (notify Callback.admin n m s))

  pub test_request-Hears :
      (n : ℤ) (m : E.Msg) (s : Fix E.Msg) → Hears n s (handle_test_request_msg E n m s)
  unfolding handle_test_request_msg delivered
  test_request-Hears n m s = grind (arith, send_msg-IsQuiet)

  pub resend_request-Hears :
      (n : ℤ) (m : E.Msg) (s : Fix E.Msg) → Hears n s (handle_resend_request_msg E n m s)
  unfolding handle_resend_request_msg delivered
  resend_request-Hears n m s = grind (arith, send_msg-IsQuiet)

  pub cancel_reject-Hears :
      (n : ℤ) (m : E.Msg) (s : Fix E.Msg) → Hears n s (handle_order_cancel_reject_msg E n m s)
  unfolding handle_order_cancel_reject_msg delivered
  cancel_reject-Hears n m s = ground arith

  pub notify-Hears : (k : Callback) (n : ℤ) (m : E.Msg) (s : Fix E.Msg) → Hears n s (notify k n m s)
  unfolding delivered
  notify-Hears k n m s = ground arith

  pub call-Hears : (h : Handler) (n : ℤ) (m : E.Msg) (s : Fix E.Msg) → Hears n s (call E h n m s)
  unfolding call handle_reject_msg handle_business_reject_msg handle_execution_report_msg
  call-Hears on_test_request n m s = test_request-Hears n m s
  call-Hears on_resend_request n m s = resend_request-Hears n m s
  call-Hears on_logout n m s = logout-Hears n m s
  call-Hears on_order_cancel_reject n m s = cancel_reject-Hears n m s
  call-Hears _ n m s = notify-Hears _ n m s

module _ {Msg : Type 0} where
  -- Everything delivered so far lies under the expected number, in falling order from the newest.
  abbrev pub IsOrdered : Fix Msg → Type 0
  IsOrdered s = Below s.seqnums.inbound (delivered s.trace)

  pub IsQuiet-IsOrdered : (s t : Fix Msg) → IsQuiet s t → IsOrdered s → IsOrdered t
  IsQuiet-IsOrdered s t q o = rw (q.inbound_same, q.delivered_same) o

pub Below-succ : (b : ℤ) (ns : List ℤ) → Below b ns → Below (succ b) ns
Below-succ b [] o = tt
Below-succ b (n ∷ ns) o = (omega (arith, o.0, succ_parts b), o.1)
