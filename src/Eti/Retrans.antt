-- ===== src/Eti/Retrans.antt =====
-- The requests for retransmission of src/eti/gwcEti.cpp.
use fosdk.Common.{
  ℕ, ◌+◌, ◌^◌, ◌<◌, ◌≡◌, refl, sym, ap, subst, ◌∙◌, Bool, true, false, some, List, [], ◌∷◌, pos,
  arith, or_else, length, if◌then◌else◌,
}
use fosdk.Gwc.{Effect, null_used, sent, is_ready}
use fosdk.Gwc.Env.{Env, IsCdr, template_id, msg_seq_num, partition_id, ref_appl_id, appl_beg_msg_id}
use fosdk.Gwc.Keyed.{Keyed}
use fosdk.Eti.{Eti, Item, Ids}
use fosdk.Eti.Session.{
  next_seq_no, Sending, is_hb, send, retrans_fields, retrans_requests, send_retrans_request,
}

module _ (E : Env Item) (I : Ids) (C : IsCdr E.cdr) where
  -- A request for a partition, with its number, and the last ApplMsgID where an item of the cache
  -- file is there.
  abbrev pub IsRequest : Bool → E.Msg → ℕ → ℕ × List ℕ → Type 0
  IsRequest item r n (p, d) =
      (E.get_integer r template_id ≡ some (pos 10026))
      × (E.get_integer r partition_id ≡ some (pos p))
      × (E.get_integer r ref_appl_id ≡ some (pos 4))
      × (E.get_integer r msg_seq_num ≡ some (pos n))
      × (item ≡ true → E.get_string r appl_beg_msg_id ≡ some (I.text_of d))

  abbrev Fields : Bool → E.Msg → ℕ × List ℕ → Type 0
  Fields item r (p, d) =
      (E.get_integer r template_id ≡ some (pos 10026))
      × (E.get_integer r partition_id ≡ some (pos p))
      × (E.get_integer r ref_appl_id ≡ some (pos 4))
      × (item ≡ true → E.get_string r appl_beg_msg_id ≡ some (I.text_of d))

  retrans_fields-Fields :
      (item : Bool) (p : ℕ) (d : List ℕ) (m : E.Msg)
      → Fields item (retrans_fields E I item p d m) (p, d)
  unfolding retrans_fields
  retrans_fields-Fields true p d m = grind (
    arith, C.get_integer-set_integer_self, C.get_integer-set_integer_ne,
    C.get_integer-set_string_ne, C.get_string-set_string_self,
  )
  retrans_fields-Fields false p d m =
      grind (arith, C.get_integer-set_integer_self, C.get_integer-set_integer_ne)

  numbered-IsRequest :
      (item : Bool) (n p : ℕ) (d : List ℕ) (m : E.Msg)
      → Fields item m (p, d)
      → IsRequest item (E.set_integer m msg_seq_num (pos n)) n (p, d)
  numbered-IsRequest item n p d m h = grind (
    arith, C.get_integer-set_integer_self, C.get_integer-set_integer_ne,
    C.get_string-set_integer_ne,
  )

  request-not_hb :
      (item : Bool) (p : ℕ) (d : List ℕ) (m : E.Msg)
      → is_hb E (retrans_fields E I item p d m) ≡ false
  unfolding is_hb
  request-not_hb item p d m = rw ((retrans_fields-Fields item p d m).0, or_else) refl

  next_seq_no_small : (n : ℕ) → n + 1 < 2 ^ 64 → next_seq_no n ≡ n + 1
  unfolding next_seq_no
  next_seq_no_small n h = omega (arith, h)

  -- The requests for the items of a map, numbered from `n` on.
  abbrev pub AreRequests : Bool → List E.Msg → ℕ → Keyed (List ℕ) → Type 0
  AreRequests item [] n [] = Unit
  AreRequests item (r ∷ rs) n (p ∷ ps) = IsRequest item r n p × AreRequests item rs (n + 1) ps
  AreRequests item _ n _ = ⊥

  module _ (encoded : E.Msg → List ℕ) (encodes : (m : E.Msg) → E.encode m ≡ some (encoded m)) where
    unfoldable pub sends_all : List E.Msg → List (Effect E.Msg Item) → List (Effect E.Msg Item)
    sends_all [] es = es
    sends_all (r ∷ rs) es = sends_all rs (sent (encoded r) ∷ es)

    -- What is sent for the items of a map by a session that is ready.
    abbrev pub Requested : Keyed (List ℕ) → Eti E.Msg → Eti E.Msg → Type 0
    Requested ps s t =
        (rs : List E.Msg) × (AreRequests s.cache_item rs (s.seq_no + 1) ps
          × (t.trace ≡ sends_all rs s.trace)
          × (t.seq_no ≡ s.seq_no + length ps))

    -- What a send that succeeds makes with the number `n`.
    abbrev Sent : E.Msg → Eti E.Msg → ℕ → Sending E.Msg
    Sent m s n =
        let r = E.set_integer m msg_seq_num (pos n) in
        record {
          msg = r;
          state = record s { seq_no = n; trace = sent (encoded r) ∷ s.trace };
          success = true;
        }

    send-Sent :
        (m : E.Msg) (s : Eti E.Msg)
        → is_ready s.state ≡ true
        → s.connection ≡ true
        → send E m s ≡ Sent m s (if is_hb E m then s.seq_no else next_seq_no s.seq_no)
    unfolding send
    send-Sent m s e c =
        let n = if is_hb E m then s.seq_no else next_seq_no s.seq_no in
        let r = E.set_integer m msg_seq_num (pos n) in
        rw (e, send, encodes r)
          (ap
            (λ (b : Bool). record {
              msg = r;
              state = record s {
                seq_no = n;
                trace = (if b then sent (encoded r) else null_used) ∷ s.trace;
              };
              success = true;
            })
            c)

    send_request-Sent :
        (m : E.Msg) (s : Eti E.Msg)
        → is_hb E m ≡ false
        → s.seq_no + 1 < 2 ^ 64
        → is_ready s.state ≡ true
        → s.connection ≡ true
        → send E m s ≡ Sent m s (s.seq_no + 1)
    send_request-Sent m s h b e c =
        send-Sent m s e c
        ∙ ap (Sent m s) (
            ap (λ q. if q then s.seq_no else next_seq_no s.seq_no) h ∙ next_seq_no_small s.seq_no b)

    retrans_requests_lem :
        (ps : Keyed (List ℕ)) (m : E.Msg) (s : Eti E.Msg)
        → s.seq_no + length ps < 2 ^ 64
        → is_ready s.state ≡ true
        → s.connection ≡ true
        → Requested ps s (retrans_requests E I m ps s)
    unfolding retrans_requests sends_all
    retrans_requests_lem [] m s b e c = ([], (tt, refl, omega arith))
    retrans_requests_lem ((p, d) ∷ ps) m s b e c =
        let f = retrans_fields E I s.cache_item p d m in
        let r = E.set_integer f msg_seq_num (pos (s.seq_no + 1)) in
        let t = record s { seq_no = s.seq_no + 1; trace = sent (encoded r) ∷ s.trace } in
        let (rs, (is, tr, n)) = retrans_requests_lem ps r t (omega (arith, b)) e c in
        let i =
          numbered-IsRequest s.cache_item (s.seq_no + 1) p d f
            (retrans_fields-Fields s.cache_item p d m) in
        subst
          (λ (q : Sending E.Msg). Requested ((p, d) ∷ ps) s (retrans_requests E I q.msg ps q.state))
          (sym (send_request-Sent f s (request-not_hb s.cache_item p d m) (omega (arith, b)) e c))
          (r ∷ rs, ((i, is), tr, n ∙ omega arith))

    -- Where a field reads back as it was set, every message can be encoded and the counter does not
    -- reach 2^64, a session that is ready and has a connection sends one request for each partition
    -- of the map, in the map's order; each names its partition and session data, has the counter's
    -- next value as its number, and where an item of the cache file is there it asks for what comes
    -- after the ApplMsgID kept for the partition. Nothing else is sent, and the counter has grown by
    -- the number of partitions.
    pub send_retrans_request_lem :
        (s : Eti E.Msg)
        → s.seq_no + length s.cache_map < 2 ^ 64
        → is_ready s.state ≡ true
        → s.connection ≡ true
        → Requested s.cache_map s (send_retrans_request E I s)
    unfolding send_retrans_request
    send_retrans_request_lem s b e c = retrans_requests_lem s.cache_map E.empty s b e c
