-- ===== src/Millennium/Recovery.antt =====
-- The recovery of src/millennium/gwcMillennium.cpp: what is asked for after the recovery logon, and
-- when it is over.
use fosdk.Common.{
  ◌⊎◌, inl, inr, ◌≢◌, ℕ, suc, ◌+◌, ◌<◌, ◌≡◌, ◌==◌, refl, sym, ap, ◌∙◌, subst, on_true, true, false,
  some, List, [], ◌∷◌, ℤ, pos, arith, All, length, succ, pred, or_else,
}
use fosdk.Gwc.{Effect, ready, admin, sent_recovery, notified}
use fosdk.Gwc.Env.{Env, IsCdr, message_type, reject_code, response_type, app_id, last_msg_seq_num}
use fosdk.Gwc.Stream.{handle_all}
use fosdk.Millennium.{
  Millennium, SeqNum, Layout, Link, absent, is_absent, notify, through, send_recovery,
}
use fosdk.Millennium.{Partitions}
use fosdk.Millennium.Session.{error}
use fosdk.Millennium.Receive.{
  request_ack, report, kind_of, encoded, uint_64, logon_failed, recovered, if_recovered, downloaded,
  request_missed, recovery_logon, recovery_kind, handle_recovery_msg,
}

module _ (E : Env SeqNum) (L : Layout E.Msg) where
  -- A request for what a partition has after a number.
  abbrev pub IsRequest : E.Msg → ℕ × ℕ → Type 0
  IsRequest r (p, n) =
      (E.get_string r message_type ≡ some "M")
      × (E.get_integer r app_id ≡ some (pos p))
      × (E.get_integer r last_msg_seq_num ≡ some (pos n))

  abbrev pub AreRequests : List E.Msg → Partitions → Type 0
  AreRequests [] [] = Unit
  AreRequests (r ∷ rs) (p ∷ ps) = IsRequest r p × AreRequests rs ps
  AreRequests _ _ = ⊥

  -- The messages, one after the other, on the recovery connection.
  unfoldable pub sends_all : List E.Msg → List (Effect E.Msg SeqNum) → List (Effect E.Msg SeqNum)
  sends_all [] es = es
  sends_all (r ∷ rs) es = sends_all rs (sent_recovery (encoded E L r) ∷ es)

  with_partition-IsRequest :
      IsCdr E.cdr
      → (m : E.Msg) (p n : ℕ) → E.get_string m message_type ≡ some "M"
      → IsRequest (E.set_integer (E.set_integer m app_id (pos p)) last_msg_seq_num (pos n)) (p, n)
  with_partition-IsRequest C m p n h =
      let a = E.set_integer m app_id (pos p) in
      (
        C.get_string-set_integer_ne a last_msg_seq_num message_type (pos n) (λ e. cc)
            ∙ C.get_string-set_integer_ne m app_id message_type (pos p) (λ e. cc)
            ∙ h,
        C.get_integer-set_integer_ne a last_msg_seq_num app_id (pos n) (λ e. cc)
            ∙ C.get_integer-set_integer_self m app_id (pos p),
        C.get_integer-set_integer_self a last_msg_seq_num (pos n),
      )

  succ_pos : {z : ℤ} {w : ℕ} → z ≡ pos w → succ z ≡ pos (suc w)
  unfolding succ
  succ_pos h = ground arith

  through_present : (l : Link) (e : Effect E.Msg SeqNum) → is_absent l ≡ false → through l e ≡ e
  through_present l e h = ground arith

  Asked : E.Msg → Partitions → Millennium E.Msg → ℕ → Type 0
  Asked m ps s w =
      let t = request_missed E L m ps s in
      (rs : List E.Msg) × (AreRequests rs ps
        × (t.trace ≡ sends_all rs s.trace)
        × (t.waiting_downloads ≡ pos (w + length ps))
        × (t.state ≡ s.state)
        × (t.recovery ≡ s.recovery))

  request_missed_lem :
      IsCdr E.cdr
      → (ps : Partitions) (m : E.Msg) (s : Millennium E.Msg) (w : ℕ)
      → E.get_string m message_type ≡ some "M"
      → is_absent s.recovery ≡ false
      → s.waiting_downloads ≡ pos w
      → Asked m ps s w
  unfolding Asked request_missed sends_all
  request_missed_lem C [] m s w h r d = ([], (tt, refl, d ∙ ap pos (omega arith), refl, refl))
  request_missed_lem C ((p, n) ∷ ps) m s w h r d =
      let q = E.set_integer (E.set_integer m app_id (pos p)) last_msg_seq_num (pos n) in
      let t = send_recovery (encoded E L q) s in
      let i = with_partition-IsRequest C m p n h in
      let (rs, (a, tr, wd, st, re)) =
        request_missed_lem C ps q (record t { waiting_downloads = succ t.waiting_downloads })
          (suc w) i.0 r (succ_pos d) in
      (
        q ∷ rs,
        (
          (i, a),
          tr
              ∙ ap (λ e. sends_all rs (e ∷ s.trace))
                  (through_present s.recovery (sent_recovery (encoded E L q)) r),
          wd ∙ ap pos (omega arith),
          st,
          re,
        ),
      )

  -- What a recovery logon that is accepted leaves: its requests, and what is then waited for.
  abbrev pub HasAsked : E.Msg → Millennium E.Msg → Millennium E.Msg → Type 0
  HasAsked m s t =
      (rs : List E.Msg) × (AreRequests rs s.cache_map
        × (t.trace ≡ sends_all rs (notified admin (pos 0) m ∷ s.trace))
        × (t.waiting_downloads ≡ pos (length s.cache_map))
        × (t.state ≡ s.state)
        × (t.recovery ≡ s.recovery))

  not_recovered :
      (n : ℕ) (t : Millennium E.Msg) → t.waiting_downloads ≡ pos (suc n) → if_recovered E L t ≡ t
  unfolding if_recovered
  not_recovered n t h = ground arith

  still_waiting :
      (ps : Partitions) (t : Millennium E.Msg)
      → ps ≢ []
      → t.waiting_downloads ≡ pos (length ps)
      → if_recovered E L t ≡ t
  still_waiting [] t n h = absurd (n refl)
  still_waiting (p ∷ ps) t n h = not_recovered (length ps) t h

  recovery_logon-accepted :
      (m : E.Msg) (s : Millennium E.Msg)
      → (uint_64 E L m reject_code == 0) ≡ true
      → recovery_logon E L m s
        ≡ if_recovered E L (
            request_missed E L
              (E.set_string E.empty message_type "M")
              s.cache_map
              (notify admin 0 m s))
  unfolding recovery_logon
  recovery_logon-accepted m s a =
      let t = notify admin 0 m s in
      on_true (uint_64 E L m reject_code == 0)
        (if_recovered E L
          (request_missed E L (E.set_string E.empty message_type "M") s.cache_map t))
        (error E (logon_failed E L "recovery logon failed code [" (uint_64 E L m reject_code)) t) a

  -- Both follow when nothing is asked for.
  abbrev IsUp : Millennium E.Msg → Type 0
  IsUp t = (t.state ≡ ready) × (t.recovery ≡ absent)

  if_recovered-IsUp :
      (t : Millennium E.Msg) → t.waiting_downloads ≡ pos 0 → IsUp (if_recovered E L t)
  unfolding if_recovered recovered
  if_recovered-IsUp t h = ground arith

  no_requests-IsUp :
      (first m : E.Msg) (ps : Partitions) (s : Millennium E.Msg)
      → ps ≡ []
      → s.waiting_downloads ≡ pos 0
      → IsUp (if_recovered E L (request_missed E L first ps (notify admin 0 m s)))
  unfolding request_missed
  no_requests-IsUp first m [] s n h = if_recovered-IsUp (notify admin 0 m s) h
  no_requests-IsUp first m (p ∷ ps) s n h = cc

  -- A recovery logon that is accepted, with a recovery connection, nothing waited for, and messages
  -- whose fields read back as they were set: with no partition in the map the session is ready and
  -- the recovery connection gone; otherwise one request is sent for each partition of the map, in
  -- its order, that asks for what comes after the number kept for that partition, as many downloads
  -- are waited for as there are partitions, and the session's state and connection stay.
  pub recovery_logon_lem :
      IsCdr E.cdr
      → (m : E.Msg) (s : Millennium E.Msg) → (uint_64 E L m reject_code == 0) ≡ true
      → is_absent s.recovery ≡ false
      → s.waiting_downloads ≡ pos 0
      → (s.cache_map ≡ []
          → ((recovery_logon E L m s).state ≡ ready) × ((recovery_logon E L m s).recovery ≡ absent))
        × (s.cache_map ≢ [] → HasAsked m s (recovery_logon E L m s))
  unfolding Asked
  recovery_logon_lem C m s a r d =
      let t = notify admin 0 m s in
      let first = E.set_string E.empty message_type "M" in
      let q = request_missed E L first s.cache_map t in
      let (rs, (is, tr, w, st, re)) =
        request_missed_lem C s.cache_map first t 0
          (C.get_string-set_string_self E.empty message_type "M") r d in
      let waited = w ∙ ap pos (omega arith) in
      (
        λ n.
            subst IsUp (sym (recovery_logon-accepted m s a))
              (no_requests-IsUp first m s.cache_map s n d),
        λ n.
            subst (HasAsked m s)
              (sym (recovery_logon-accepted m s a ∙ still_waiting s.cache_map q n waited))
              (rs, (is, tr, waited, st, re)),
      )

  -- A message that ends a download.
  abbrev pub IsDownload : E.Msg → Type 0
  IsDownload m =
      let k = kind_of (or_else (E.get_string m message_type) "") in
      (k ≡ report) ⊎ ((k ≡ request_ack) × ((uint_64 E L m response_type == 0) ≡ false))

  abbrev pub Progress : Millennium E.Msg → Millennium E.Msg → ℕ → Type 0
  Progress s t n =
      (t.waiting_downloads ≡ pos n)
      × (n ≡ 0 → (t.state ≡ ready) × (t.recovery ≡ absent))
      × (0 < n → (t.state ≡ s.state) × (t.recovery ≡ s.recovery))

  download_lem :
      (m : E.Msg) (n : ℕ) (s : Millennium E.Msg)
      → IsDownload m
      → s.waiting_downloads ≡ pos (suc n)
      → Progress s (handle_recovery_msg E L m s) n
  unfolding handle_recovery_msg recovery_kind downloaded if_recovered recovered pred
  download_lem m n s (inl e) h = rw (e, recovery_kind) (ground arith)
  download_lem m n s (inr (e, g)) h = rw (e, recovery_kind) (ground arith)

  downloads_step :
      (s t u : Millennium E.Msg) (n k : ℕ)
      → 0 < n
      → Progress s t n
      → Progress t u k
      → Progress s u k
  downloads_step s t u n k h p q = (q.0, q.1, λ l. ((q.2 l).0 ∙ (p.2 h).0, (q.2 l).1 ∙ (p.2 h).1))

  -- While downloads are waited for, after messages of which each ends one: as many less are waited
  -- for; when that is none, the session is ready and the recovery connection gone, and as long as it
  -- is some, the session's state and recovery connection are what they were.
  pub downloads_complete :
      (m : E.Msg) (ms : List E.Msg) (n : ℕ) (s : Millennium E.Msg)
      → All IsDownload (m ∷ ms)
      → s.waiting_downloads ≡ pos (suc (length ms) + n)
      → Progress s (handle_all E (handle_recovery_msg E L) (m ∷ ms) s) n
  unfolding handle_all
  downloads_complete m [] n s (i, is) h = download_lem m n s i (h ∙ ap pos (omega arith))
  downloads_complete m (m' ∷ ms) n s (i, is) h =
      let p = download_lem m (suc (length ms) + n) s i (h ∙ ap pos (omega arith)) in
      let t = handle_recovery_msg E L m s in
      downloads_step s t (handle_all E (handle_recovery_msg E L) (m' ∷ ms) t) (suc (length ms) + n)
        n (omega arith) p (downloads_complete m' ms n t is p.0)
