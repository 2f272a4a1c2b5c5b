-- ===== src/Examples/Ends.antt =====
-- What the exit code 0 of the programs of src/examples says.
use fosdk.Common.{ℕ, ◌≡◌, refl, ◌∙◌, Bool, true, String, some, List, ℤ}
use fosdk.Gwc.Env.{Env}
use fosdk.Gwc.Order.{Order}
use fosdk.Gwc.Wait.{Wait}
use fosdk.Examples.{Names, Value, Ending, exits, Api, or_exit, waited}
use fosdk.Examples.Lse
use fosdk.Examples.Swx
use fosdk.Examples.Optiq
use fosdk.Examples.Xetra
use fosdk.Examples.LseRaw
use fosdk.Examples.OptiqRaw
use fosdk.Examples.Exits.{Succeeds, carry, or_exit-Succeeds, waited-Succeeds, Begun, main-Begun}

-- The programs that exit where an order is refused; the one for BME logs it and goes on.
pub data Program : Type 0 where
  lse swx optiq xetra lse_raw optiq_raw : Program

-- What a program is run with: the time and the id of the (first) order, those of the second one, which the
-- program for Optiq reads anew, what the members of the two orders hold, and for the raw programs the sizes
-- and the bytes of a packet.
pub record Inputs (Msg Double : Type 0) : Type 0 where
  pub first : ℤ × ℤ
  pub second : ℤ × ℤ
  pub left : Order Msg Double
  pub left' : Order Msg Double
  pub header : ℕ
  pub size : ℕ
  pub bytes : List (String × Value Double) → List ℕ

module _ {Cache : Type 0} (E : Env Cache) (N : Names E.Double) (i : Inputs E.Msg E.Double) where
  unfoldable pub main_of : {S : Type 0} → Program → Api S E.Msg E.Double → Ending S
  main_of lse A = Lse.main E N A i.left
  main_of swx A = Swx.main E N A i.left
  main_of optiq A = Optiq.main E N A i.first i.second i.left i.left'
  main_of xetra A = Xetra.main E N A i.first.1 i.left
  main_of lse_raw A = LseRaw.main E N i.header i.size i.bytes A
  main_of optiq_raw A = OptiqRaw.main E N i.bytes A i.first.0 i.first.1

  -- The type that a program asks the factory for, and its properties.
  unfoldable pub type_of : Program → String
  type_of lse = "millennium"
  type_of swx = "swx"
  type_of optiq = "optiq"
  type_of xetra = "eti"
  type_of lse_raw = "millennium"
  type_of optiq_raw = "optiq"

  unfoldable pub props_of : Program → List (String × String)
  props_of lse = Lse.props E N
  props_of swx = Swx.props E N
  props_of optiq = Optiq.props E N
  props_of xetra = Xetra.props E N
  props_of lse_raw = LseRaw.props E N i.header i.size i.bytes
  props_of optiq_raw = OptiqRaw.props E N i.bytes

  module _ {S : Type 0} (A : Api S E.Msg E.Double) where
    -- The last order that a program sends.
    unfoldable pub last_send : Program → S → S × Bool
    last_send lse s = A.send_order (Lse.order E N i.left) s
    last_send swx s = A.send_order (Swx.order E N i.left) s
    last_send optiq s = A.send_order (Optiq.sorder E N i.second.0 i.second.1 i.left') s
    last_send xetra s = A.send_order (Xetra.border E N i.first.1 i.left) s
    last_send lse_raw s = A.send_raw (i.bytes (LseRaw.order E N i.header i.size i.bytes)) s
    last_send optiq_raw s = A.send_raw (i.bytes (OptiqRaw.order E N i.bytes i.first.0 i.first.1)) s

    -- What a program does after its last order.
    unfoldable pub rest : Program → S → S
    rest lse s = A.sleep 2 (A.stop (A.sleep 5 s)).0
    rest swx s = A.sleep 2 (A.stop (A.sleep 15 s)).0
    rest optiq s = A.sleep 2 (A.stop (A.sleep 5 (A.sleep 5 s))).0
    rest xetra s = A.sleep 2 (A.stop (A.sleep 5 s)).0
    rest lse_raw s = A.sleep 2 (A.stop (A.sleep 5 s)).0
    rest optiq_raw s = A.sleep 2 (A.stop (A.sleep 5 s)).0

    -- What lies between the logon, in the state `s`, and the last order, in the state `u`: for Optiq a first
    -- order that is accepted, and a pause; for Xetra the trader's logon, which succeeds and is waited for; and
    -- nothing for the others.
    abbrev pub Between : Program → S → S → Type 0
    Between optiq s u =
        let r = A.send_order (Optiq.border E N i.first.0 i.first.1 i.left) s in
        (r.1 ≡ true) × (u ≡ A.sleep 5 r.0)
    Between xetra s u =
        let r = A.trader_logon (Xetra.trader E N) s in
        (r.1 ≡ true) × (A.wait_for Wait.for_trader_logon r.0 ≡ some u)
    Between _ s u = u ≡ s

    -- The whole run of a program that ends well.
    abbrev pub Completed : Program → Type 0
    Completed p =
        (s : S) × ((u : S) × (Begun A (type_of p) (props_of p) s
            × Between p s u
            × ((last_send p u).1 ≡ true)
            × (main_of p A ≡ exits 0 (some (rest p (last_send p u).0)))))

    -- The last order, where a refusal ends the program, and what follows it.
    finish : Program → S → Ending S
    finish p s = or_exit (last_send p s) (λ t. exits 0 (some (rest p t)))

    finish-Succeeds :
        (p : Program) (e : Ending S) (u : S)
        → e ≡ finish p u
        → Succeeds e
        → ((last_send p u).1 ≡ true) × (e ≡ exits 0 (some (rest p (last_send p u).0)))
    unfolding finish
    finish-Succeeds p e u q h =
        let o = or_exit-Succeeds (last_send p u) (λ t. exits 0 (some (rest p t))) (carry e _ q h) in
        (o.0, q ∙ o.1)

    -- A program that sends its one order after the logon.
    one_order :
        (p : Program) (s : S)
        → Begun A (type_of p) (props_of p) s
        → Between p s s
        → main_of p A ≡ finish p s
        → Succeeds (main_of p A)
        → Completed p
    one_order p s b between e h =
        let o = finish-Succeeds p (main_of p A) s e h in (s, (s, (b, between, o.0, o.1)))

    lse-Completed : Succeeds (main_of lse A) → Completed lse
    unfolding main_of type_of props_of last_send rest finish Lse.main
    lse-Completed h =
        let b = main-Begun A "millennium" (Lse.props E N) (finish lse) h in
        one_order lse b.0 b.1 refl b.2 h

    swx-Completed : Succeeds (main_of swx A) → Completed swx
    unfolding main_of type_of props_of last_send rest finish Swx.main
    swx-Completed h =
        let b = main-Begun A "swx" (Swx.props E N) (finish swx) h in
        one_order swx b.0 b.1 refl b.2 h

    lse_raw-Completed : Succeeds (main_of lse_raw A) → Completed lse_raw
    unfolding main_of type_of props_of last_send rest finish LseRaw.main
    lse_raw-Completed h =
        let b =
          main-Begun A "millennium" (LseRaw.props E N i.header i.size i.bytes) (finish lse_raw) h in
        one_order lse_raw b.0 b.1 refl b.2 h

    optiq_raw-Completed : Succeeds (main_of optiq_raw A) → Completed optiq_raw
    unfolding main_of type_of props_of last_send rest finish OptiqRaw.main
    optiq_raw-Completed h =
        let b = main-Begun A "optiq" (OptiqRaw.props E N i.bytes) (finish optiq_raw) h in
        one_order optiq_raw b.0 b.1 refl b.2 h

    optiq-Completed : Succeeds (main_of optiq A) → Completed optiq
    unfolding main_of type_of props_of last_send rest finish Optiq.main
    optiq-Completed h =
        let second = λ (t : S). finish optiq (A.sleep 5 t) in
        let order = Optiq.border E N i.first.0 i.first.1 i.left in
        let first = λ (s : S). or_exit (A.send_order order s) second in
        let b = main-Begun A "optiq" (Optiq.props E N) first h in
        let o = or_exit-Succeeds (A.send_order order b.0) second (carry _ _ b.2 h) in
        let f = finish-Succeeds optiq (main_of optiq A) _ (b.2 ∙ o.1) h in
        (b.0, (A.sleep 5 (A.send_order order b.0).0, (b.1, (o.0, refl), f.0, f.1)))

    xetra-Completed : Succeeds (main_of xetra A) → Completed xetra
    unfolding main_of type_of props_of last_send rest finish Xetra.main
    xetra-Completed h =
        let waits = λ (t : S). waited (A.wait_for Wait.for_trader_logon t) (finish xetra) in
        let trades = λ (s : S). or_exit (A.trader_logon (Xetra.trader E N) s) waits in
        let b = main-Begun A "eti" (Xetra.props E N) trades h in
        let g = carry _ _ b.2 h in
        let o = or_exit-Succeeds (A.trader_logon (Xetra.trader E N) b.0) waits g in
        let w =
          waited-Succeeds
            (A.wait_for Wait.for_trader_logon (A.trader_logon (Xetra.trader E N) b.0).0)
            (finish xetra) (carry _ _ o.1 g) in
        let f = finish-Succeeds xetra (main_of xetra A) w.0 (b.2 ∙ o.1 ∙ w.2) h in
        (b.0, (w.0, (b.1, (o.0, w.1), f.0, f.1)))

    -- Each of the six programs that exit on a refusal, if its exit code is 0, has gone through all its steps:
    -- the logger was configured, the factory gave a connector of the program's type, `init` with the
    -- program's properties and `start` without a reset returned true, the wait for the logon ended; the first
    -- order of the program for Optiq was accepted, and the trader of the one for Xetra logged on and that was
    -- waited for; the last order was accepted, and the connector stopped after it.
    pub main_of-Completed : (p : Program) → Succeeds (main_of p A) → Completed p
    main_of-Completed lse h = lse-Completed h
    main_of-Completed swx h = swx-Completed h
    main_of-Completed optiq h = optiq-Completed h
    main_of-Completed xetra h = xetra-Completed h
    main_of-Completed lse_raw h = lse_raw-Completed h
    main_of-Completed optiq_raw h = optiq_raw-Completed h
