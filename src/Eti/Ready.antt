-- ===== src/Eti/Ready.antt =====
-- How a session of src/eti/gwcEti.cpp becomes ready.
use fosdk.Common.{
  ℕ, ◌≡◌, sym, ap, ◌∙◌, inl, inr, Bool-cases, both_ways, true, false, List, [], ◌∷◌, ℤ, pos, arith,
  eqb_ℤ, if◌then◌else◌, pred,
}
use fosdk.Gwc.{is_ready, is_connected, admin}
use fosdk.Gwc.Env.{Env, template_id, msg_seq_num}
use fosdk.Gwc.Keyed.{Keyed}
use fosdk.Eti.{Eti, Item, Ids, notify}
use fosdk.Eti.Session.{
  reset, error, update_appl_msg_id, update_seq_no, send, retrans_fields, retrans_requests,
  send_retrans_request,
}
use fosdk.Eti.Receive.{
  handle_reject, handle_retrans_me_response, handle_trader_logon, handle_logoff_response,
  handle_trader_logoff_response, acknowledged, handle_exchange_msg, resent, keep_appl_msg_id,
  session_logon, trader_logged_on, by_template, keep_seq_no, handle_tcp_msg, integer_or_0,
}
use fosdk.Eti.Invariant.{keep_appl_msg_id-keeps}

-- A session that is not ready.
abbrev NotReady : {Msg : Type 0} → Eti Msg → Type 0
NotReady s = is_ready s.state ≡ false

module _ (E : Env Item) (I : Ids) where
  retrans-NotReady :
      (ps : Keyed (List ℕ)) (m : E.Msg) (s : Eti E.Msg)
      → NotReady s
      → NotReady (retrans_requests E I m ps s)
  unfolding retrans_requests send
  retrans-NotReady [] m s h = h
  retrans-NotReady ((p, d) ∷ ps) m s h =
      let r = send E (retrans_fields E I s.cache_item p d m) s in
      retrans-NotReady ps r.msg r.state (ground arith)

  send_retrans_request-NotReady :
      (s : Eti E.Msg) → NotReady s → NotReady (send_retrans_request E I s)
  unfolding send_retrans_request
  send_retrans_request-NotReady s h = retrans-NotReady s.cache_map E.empty s h

  resent-NotReady : (s : Eti E.Msg) → NotReady s → NotReady (resent E I s)
  unfolding resent
  resent-NotReady s h = ground (
    arith,
    send_retrans_request-NotReady (record s { recovery_msg_cnt = pred s.recovery_msg_cnt }),
  )

  keep_appl_msg_id-NotReady :
      (m : E.Msg) (s : Eti E.Msg) → NotReady s → NotReady (keep_appl_msg_id E I m s)
  unfolding update_appl_msg_id
  keep_appl_msg_id-NotReady m s h =
      keep_appl_msg_id-keeps E I NotReady (λ p d t g. g) resent-NotReady m s h

  trader_logged_on-NotReady :
      (m : E.Msg) (s : Eti E.Msg) → NotReady s → NotReady (trader_logged_on E I m s)
  unfolding trader_logged_on handle_trader_logon
  trader_logged_on-NotReady m s h =
      ground (arith, send_retrans_request-NotReady (handle_trader_logon E I m s))

  by_template-NotReady :
      (q n : ℤ) (m : E.Msg) (s : Eti E.Msg) → NotReady s → NotReady (by_template E I q n m s)
  unfolding by_template handle_trader_logoff_response handle_retrans_me_response handle_exchange_msg
      acknowledged handle_reject handle_logoff_response error reset
  by_template-NotReady q n m s h = ground (arith, trader_logged_on-NotReady m s h)

  session_logon-NotReady :
      (q : ℤ) (m : E.Msg) (s : Eti E.Msg)
      → eqb_ℤ q (pos 10001) ≡ false
      → NotReady s
      → NotReady (session_logon E I q m s)
  unfolding session_logon handle_reject error reset
  session_logon-NotReady q m s e h = ground arith

  kept_seq_no-state : (q : ℤ) (m : E.Msg) (s : Eti E.Msg) → (keep_seq_no E I q m s).state ≡ s.state
  unfolding keep_seq_no update_seq_no
  kept_seq_no-state q m s = ground arith

  not_logon-NotReady :
      (m : E.Msg) (s : Eti E.Msg)
      → (is_connected s.state ≡ true → eqb_ℤ (integer_or_0 E I m template_id) (pos 10001) ≡ false)
      → NotReady s
      → NotReady (handle_tcp_msg E I m s)
  unfolding handle_tcp_msg
  not_logon-NotReady m s l h =
      let q = integer_or_0 E I m template_id in
      let n = integer_or_0 E I m msg_seq_num in
      let t = record (keep_seq_no E I q m s) { seen_hb = true } in
      let same = kept_seq_no-state q m s in
      let g = ap is_ready same ∙ h in
      let session = session_logon E I q m t in
      let other_template = by_template E I q n m (keep_appl_msg_id E I m t) in
      both_ways NotReady (eqb_ℤ q (pos 10023)) (notify admin (pos 1) m t)
        (if is_connected t.state then session else other_template) (λ e. g)
        (λ e.
          both_ways NotReady (is_connected t.state) session other_template
            (λ c. session_logon-NotReady q m t (l (sym (ap is_connected same) ∙ c)) g)
            (λ c.
              by_template-NotReady q n m (keep_appl_msg_id E I m t)
                (keep_appl_msg_id-NotReady m t g)))

  true≢false : ¬ (true ≡ false)
  true≢false e = cc

  -- A message makes a session ready that was not only if it has template 10001 and the session's logon was
  -- on its way.
  pub ready_only_by_logon :
      (m : E.Msg) (s : Eti E.Msg)
      → is_ready s.state ≡ false
      → is_ready (handle_tcp_msg E I m s).state ≡ true
      → (is_connected s.state ≡ true) × (eqb_ℤ (integer_or_0 E I m template_id) (pos 10001) ≡ true)
  ready_only_by_logon m s h r = elim (Bool-cases (is_connected s.state)) [
    | inr c ↦
        absurd
          (true≢false (sym r ∙ not_logon-NotReady m s (λ e. absurd (true≢false (sym e ∙ c))) h))
    | inl c ↦ elim (Bool-cases (eqb_ℤ (integer_or_0 E I m template_id) (pos 10001))) [
      | inl f ↦ (c, f)
      | inr f ↦ absurd (true≢false (sym r ∙ not_logon-NotReady m s (λ e. f) h))
    ]
  ]
