-- ===== src/Millennium/Tests.antt =====
-- The theorems on src/millennium/gwcMillennium.cpp at concrete inputs.
use fosdk.Common.{
  some, inl, or_else, String, length, ◌<◌, if◌then◌else◌, ap, unsigned, ◌≤◌, ◌==◌, ℕ, ◌≡◌, refl,
  true, false, none, List, [], ◌∷◌, pos, arith, Holds,
}
use fosdk.Gwc.{new_connector, on_raw_msg, cached, uses_null, waiting_logoff, opened}
use fosdk.Gwc.Order.{order_type_code, Order, Side, OrderType, Tif}
use fosdk.Gwc.Env.{Env, Field, Decoded, IsCodec, success, short}
use fosdk.Gwc.System.{has_address}
use fosdk.Millennium.Sample.{layout}
use fosdk.Millennium.Raw.{raw_loop, raw_round, frame_length, is_session_message, application_frame}
use fosdk.Millennium.Session.{update_seqno}
use fosdk.Gwc.Keyed.{update}
use fosdk.Millennium.Init.{init}
use fosdk.Millennium.Restart.{last_of, restart_keeps_numbers}
use fosdk.Gwc.Sample.{
  sample_system, Table, Field-discrete, sample_cdr, sample_cdr-IsCdr, sample_env,
  sample_env-IsCodec,
}
use fosdk.Gwc.Stream.{Finds, finds, stops, handle_all}
use fosdk.Millennium.{Millennium, SeqNum, Link, connected, new_millennium}
use fosdk.Millennium.Receive.{
  handle_real_time_msg, handle_recovery_msg, recovery_logon, kind_of, uint_64, logout, heartbeat,
}
use fosdk.Millennium.Raw.{on_real_time_connection_read, on_recovery_connection_read}
use fosdk.Millennium.Control.{Event, run, step, starts, real_time_ready, real_time_read, hb_timeout}
use fosdk.Millennium.OrderFields.{map_order_fields, oslo_map_order_fields}
use fosdk.Millennium.Fields.{lse_map_order_fields_lem}
use fosdk.Gwc.Keyed.{lookup}
use fosdk.Millennium.Kept.{Kept, stored}
use fosdk.Millennium.Runs.{run-Kept}
use fosdk.Millennium.Ends.{Ends, reads_end}
use fosdk.Millennium.Null.{real_time_null, null_exactly}
use fosdk.Millennium.Closed.{heartbeat_after_close}
use fosdk.Millennium.Recovery.{
  HasAsked, IsDownload, Progress, recovery_logon_lem, downloads_complete,
}

abbrev sample : Env SeqNum
sample = sample_env

abbrev fresh : Millennium Table
fresh = new_millennium sample_cdr.empty 0

abbrev history : List (Event Table)
history =
    starts ∷ real_time_ready ∷ real_time_read (2 ∷ 6 ∷ 0 ∷ 56 ∷ 9 ∷ 0 ∷ 0 ∷ []) ∷ hb_timeout ∷ []

fresh-Kept : Kept sample layout (λ p. none) 1 fresh
unfolding new_millennium new_connector stored lookup
fresh-Kept = ground arith

run-Kept_example : Holds (Kept sample layout (λ p. none) 1) (run sample layout history fresh)
run-Kept_example = run-Kept sample layout (λ p. none) 1 history fresh fresh-Kept

reads_end_example :
    Ends 3 (on_real_time_connection_read sample layout (2 ∷ 6 ∷ 0 ∷ []) fresh)
    × Ends 3 (on_recovery_connection_read sample layout (2 ∷ 6 ∷ 0 ∷ []) fresh)
reads_end_example = reads_end sample layout sample_env-IsCodec (omega arith) (2 ∷ 6 ∷ 0 ∷ []) fresh

abbrev started : Millennium Table
started = record fresh { real_time = connected; recovery = Link.created; trace = opened ∷ [] }

-- A recovery logon that is accepted, with two partitions.
abbrev accepted : Table
accepted = sample_cdr.set_integer sample_cdr.empty Field.reject_code (pos 0)

abbrev recovering : Millennium Table
recovering = record started { recovery = connected; cache_map = (1, 5) ∷ (3, 8) ∷ [] }

accepted_code : (uint_64 sample layout accepted Field.reject_code == 0) ≡ true
unfolding uint_64 unsigned Field-discrete
accepted_code = refl

recovering_nothing : recovering.waiting_downloads ≡ pos 0
unfolding new_millennium
recovering_nothing = refl

recovery_logon_lem_example :
    HasAsked sample layout accepted recovering (recovery_logon sample layout accepted recovering)
recovery_logon_lem_example =
    (recovery_logon_lem sample layout sample_cdr-IsCdr accepted recovering accepted_code refl
        recovering_nothing).1
      (λ e. cc)

abbrev report_msg : Table
report_msg = sample_cdr.set_string sample_cdr.empty Field.message_type "P"

report_msg-IsDownload : IsDownload sample layout report_msg
unfolding kind_of Field-discrete
report_msg-IsDownload = inl refl

downloads_complete_example :
    Progress sample layout recovering
      (handle_all sample
        (handle_recovery_msg sample layout)
        (report_msg ∷ report_msg ∷ [])
        (record recovering { waiting_downloads = pos 2 }))
      0
downloads_complete_example =
    downloads_complete sample layout report_msg (report_msg ∷ []) 0
      (record recovering { waiting_downloads = pos 2 })
      (report_msg-IsDownload, (report_msg-IsDownload, tt)) (ap pos (omega arith))

-- Oslo's specialisation at a limit order.
abbrev limit_order : Order Table ℕ
limit_order = record {
  msg = sample_cdr.empty;
  price = 10;
  price_set = true;
  qty = pos 5;
  qty_set = true;
  side = Side.buy;
  side_set = true;
  order_type = OrderType.limit;
  order_type_set = true;
  tif = Tif.day;
  tif_set = true;
}

limit_order_code : order_type_code OrderType.limit ≤ 1
unfolding order_type_code
limit_order_code = omega arith

lse_map_order_fields_lem_example :
    oslo_map_order_fields sample limit_order ≡ map_order_fields sample limit_order
lse_map_order_fields_lem_example =
    (lse_map_order_fields_lem sample limit_order).1 (λ e. limit_order_code)
      (λ e. ((λ q. cc), (λ q. cc), (λ q. cc)))

-- A logoff that was waited for takes the connection away; a heartbeat of the same read is then
-- answered through it.
abbrev leaving : Millennium Table
leaving = record started { base = record started.base { state = waiting_logoff } }

abbrev of_type : String → Table
of_type t = sample_cdr.set_string sample_cdr.empty Field.message_type t

leaving_quiet : uses_null leaving.trace ≡ false
unfolding uses_null
leaving_quiet = refl

-- A codec of one byte for each message.
abbrev decode_one : List ℕ → Decoded Table
decode_one [] = record { status = short; msg = sample_cdr.empty; used = 0 }
decode_one (t ∷ rest) = record {
  status = success;
  msg = of_type (if t == b'5' then "5" else "0");
  used = 1;
}

abbrev bytewise : Env SeqNum
bytewise = record sample { decode = λ m b. decode_one b }

bytewise-IsCodec : IsCodec bytewise
bytewise-IsCodec = record { used_bounds = λ m b h. bounds b h }
  where
    bounds :
        (b : List ℕ)
        → (decode_one b).status ≡ success
        → (0 < (decode_one b).used) × ((decode_one b).used ≤ length b)
    bounds [] h = cc
    bounds (t ∷ rest) h = (omega arith, omega arith)

abbrev logout_heartbeat : List ℕ
logout_heartbeat = b'5' ∷ b'0' ∷ []

logout_heartbeat_found :
    Finds bytewise
      (handle_real_time_msg bytewise layout)
      sample_cdr.empty
      logout_heartbeat
      (of_type "5" ∷ of_type "0" ∷ [])
      0
logout_heartbeat_found = finds _ _ refl (finds _ _ refl (stops _ _ refl))

of_type_logout : kind_of (or_else (sample.get_string (of_type "5") Field.message_type) "") ≡ logout
unfolding kind_of Field-discrete
of_type_logout = refl

of_type_heartbeat :
    kind_of (or_else (sample.get_string (of_type "0") Field.message_type) "") ≡ heartbeat
unfolding kind_of Field-discrete
of_type_heartbeat = refl

heartbeat_after_close_example :
    (t : Millennium Table) × (on_real_time_connection_read bytewise layout logout_heartbeat leaving
      ≡ some (t, 2))
    × (uses_null t.trace ≡ true)
unfolding new_millennium
heartbeat_after_close_example =
    heartbeat_after_close bytewise layout bytewise-IsCodec [] [] (of_type "5") (of_type "0")
      logout_heartbeat 0 leaving refl of_type_logout of_type_heartbeat logout_heartbeat_found

null_exactly_example :
    uses_null (handle_real_time_msg sample layout (of_type "0") leaving).trace
    ≡ real_time_null sample layout (of_type "0") leaving
null_exactly_example = (null_exactly sample layout (of_type "0") leaving leaving_quiet).0

-- A frame of an execution report, number 9 of partition 1, with raw messages on, and a restart after it.
abbrev raw_session : Millennium Table
raw_session = record started { base = record started.base { raw_enabled = true } }

abbrev report_frame : List ℕ
report_frame = 2 ∷ 2 ∷ 0 ∷ 56 ∷ 9 ∷ []

abbrev reported : Millennium Table
reported = record raw_session {
  cache_map = (1, 9) ∷ [];
  trace =
      on_raw_msg (pos 9) report_frame
      ∷ cached (record { partition = 1; seqno = 9 })
      ∷ raw_session.trace;
}

reported_reached : run sample layout (real_time_read report_frame ∷ []) raw_session ≡ some reported
unfolding run new_millennium step on_real_time_connection_read raw_loop raw_round frame_length
    is_session_message application_frame update_seqno unsigned update
reported_reached = refl

raw_session-Kept : (k : ℕ) → Kept sample layout (λ p. none) k raw_session
unfolding new_millennium new_connector stored lookup
raw_session-Kept k = ground arith

restart_keeps_numbers_example :
    lookup 1
      (init
        (sample_system (record { partition = 1; seqno = 9 } ∷ []))
        (new_millennium sample_cdr.empty 0)).0.cache_map
    ≡ lookup 1 reported.cache_map
unfolding last_of stored new_millennium has_address
restart_keeps_numbers_example =
    restart_keeps_numbers sample layout (λ p. none) (real_time_read report_frame ∷ []) raw_session
      reported raw_session-Kept reported_reached
      (sample_system (record { partition = 1; seqno = 9 } ∷ [])) false
      (record { partition = 1; seqno = 9 } ∷ []) refl refl refl (λ k. refl) sample_cdr.empty 0 1
