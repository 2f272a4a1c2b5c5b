-- ===== src/Fix/Tests.antt =====
-- The FIX theorems at concrete inputs: a session over a codec of two-byte messages, the first byte
-- the message type and the second the sequence number.
use fosdk.Common.{
  ◌≢◌, ℕ, inl, ◌-◌, ◌≤◌, ◌<◌, ◌≡◌, refl, ◌⊎◌, true, false, String, List, [], ◌∷◌, pos, arith, none,
  some, length, if◌then◌else◌, ◌==◌, str_eq,
}
use fosdk.Gwc.{is_ready, order_fill, ready, init}
use fosdk.Gwc.Order.{Order, Side, OrderType, Tif}
use fosdk.Gwc.Env.{Env, Field, Decoded, IsCodec, success, short}
use fosdk.Fix.Init.{init as init_fix}
use fosdk.Fix.Errors.{init_succeeds}
use fosdk.Gwc.Sample.{sample_system, Table, Field-discrete, sample_cdr, sample_cdr-IsCdr}
use fosdk.Fix.{Fix, Seqnums, new_fix}
use fosdk.Fix.Session.{set_header, send_msg, send_order}
use fosdk.Fix.Receive.{
  logon_reset, on_tcp_connection_read, read_loop, handle_tcp_msg, check_logon, accept_logon,
  sequence, dispatch, record_inbound,
}
use fosdk.Fix.Control.{Event, step, run, start, on_tcp_connection_ready}
use fosdk.Fix.Invariant.{Inv, persisted}
use fosdk.Fix.Safety.{run-Inv}
use fosdk.Fix.Hearing.{delivered, IsOrdered}
use fosdk.Fix.Delivery.{decoded, on_tcp_connection_read-IsOrdered, handle_tcp_msg-out_of_order}
use fosdk.Fix.Outbound.{
  Sends, SendsNothing, SendsOrRefuses, typed, send_msg_wire, send_order_wire,
  handle_test_request_msg_answer,
}
use fosdk.Fix.Heartbeats.{silence, silence_limit}
use fosdk.Fix.Stream.{on_tcp_connection_read-Finds, Finds, take_in}
use fosdk.Fix.OrderFields.{map_order_fields}
use fosdk.Fix.Fields.{map_order_fields_last}
use fosdk.Fix.Handlers.{handle_test_request_msg}
use fosdk.Fix.Routing.{OnlyTo, routing}

abbrev type_text : ℕ → String
type_text b =
    if b == b'A'
    then "A"
    else if b == b'0'
    then "0"
    else if b == b'5'
    then "5"
    else if b == b'8'
    then "8"
    else "D"

abbrev decode_two : List ℕ → Decoded Table
decode_two [] = record { status = short; msg = sample_cdr.empty; used = 0 }
decode_two (t ∷ []) = record { status = short; msg = sample_cdr.empty; used = 0 }
decode_two (t ∷ n ∷ rest) = record {
  status = success;
  msg =
      sample_cdr.set_integer (sample_cdr.set_string sample_cdr.empty Field.msg_type (type_text t))
        Field.msg_seq_num (pos n);
  used = 2;
}

abbrev sample : Env Seqnums
sample = record {
  cdr = sample_cdr;
  Double = ℕ;
  to_integer = λ d. pos d;
  ten_thousandths = λ n. 0;
  set_double = λ m f d. m;
  encode = λ m. some (1 ∷ 2 ∷ []);
  decode = λ m b. decode_two b;
  parse_bool = λ t. some (str_eq t "Y");
  format = λ t n. t;
  now = λ es. tt;
  connects = λ es. true;
  logging_on = λ es m. m;
  trader_logging_off = λ es m. m;
  reconnects = λ es t. true;
  uninitialised = pos 0;
}

sample-IsCodec : IsCodec sample
sample-IsCodec = record { used_bounds = λ m b. bounds b }
  where
    bounds :
        (b : List ℕ)
        → (decode_two b).status ≡ success
        → (0 < (decode_two b).used) × ((decode_two b).used ≤ length b)
    bounds [] h = cc
    bounds (t ∷ []) h = cc
    bounds (t ∷ n ∷ rest) h = (omega arith, omega arith)

abbrev numbers : Seqnums
numbers = record { inbound = pos 1; outbound = pos 1 }

fresh-Inv : Inv numbers 0 (new_fix {Msg = Table} 0)
unfolding new_fix persisted
fresh-Inv = ground arith

-- Started, connected, and logged on by the exchange's first message.
abbrev history : List (Event sample)
history = Event.starts false ∷ Event.tcp_ready ∷ Event.tcp_read (b'A' ∷ 1 ∷ []) ∷ []

session_ready : (run sample history (new_fix 0)).state ≡ ready
unfolding run step start on_tcp_connection_ready on_tcp_connection_read read_loop handle_tcp_msg
    check_logon accept_logon sequence dispatch new_fix set_header record_inbound Field-discrete
session_ready = refl

run-Inv_example : Inv numbers 0 (run sample history (new_fix 0))
run-Inv_example = run-Inv sample numbers 0 history (new_fix 0) fresh-Inv

-- A session that is up and expects message 1.
abbrev up : Fix Table
up = record {
  base = record {
    state = ready;
    logged_on = 1;
    trader_logged_on = 0;
    raw_enabled = false;
    lock_depth = 0;
  };
  connection = true;
  begin_string = "FIX.4.2";
  sender_comp_id = "client";
  target_comp_id = "venue";
  heart_bt_int = pos 30;
  reset_seq_num_flag = false;
  reset_on_logon = false;
  first_connect = false;
  hb = true;
  reconnect_timer = false;
  seen_hb = true;
  missed_hb = 0;
  encrypt_method = pos 0;
  set_next_exp_seq_num = false;
  seqnums = numbers;
  msg_in_writer = false;
  msg_out_writer = false;
  trace = [];
}

abbrev fill : ℕ → Table
fill n = (decode_two (b'8' ∷ n ∷ [])).msg

on_tcp_connection_read-IsOrdered_example :
    IsOrdered (on_tcp_connection_read sample (b'8' ∷ 1 ∷ b'8' ∷ 2 ∷ []) up).0
unfolding delivered decoded Field-discrete logon_reset
on_tcp_connection_read-IsOrdered_example =
    on_tcp_connection_read-IsOrdered sample (b'8' ∷ 1 ∷ b'8' ∷ 2 ∷ []) up
      ((refl, λ e. cc), ((refl, λ e. cc), tt)) tt

handle_tcp_msg-out_of_order_example : delivered (handle_tcp_msg sample (fill 5) up).trace ≡ []
unfolding delivered Field-discrete
handle_tcp_msg-out_of_order_example =
    ((handle_tcp_msg-out_of_order sample (fill 5) up refl refl).0 (omega arith)).0

send_msg_wire_example :
    let r = send_msg sample (fill 1) up in
    ((r.1 ≡ true) × (is_ready up.state ≡ true) × Sends sample sample_cdr-IsCdr (some "8") up r.0)
    ⊎ ((r.1 ≡ false)
        × ((is_ready up.state ≡ false) ⊎ (sample.encode (set_header sample up (fill 1)) ≡ none))
        × SendsNothing sample sample_cdr-IsCdr up r.0)
unfolding Field-discrete
send_msg_wire_example = send_msg_wire sample sample_cdr-IsCdr (fill 1) up

send_order_wire_example :
    SendsOrRefuses sample sample_cdr-IsCdr "D"
      (typed sample sample_cdr-IsCdr "D" (fill 1) up)
      up
      (send_order sample (fill 1) up)
send_order_wire_example = (send_order_wire sample sample_cdr-IsCdr (fill 1) up).0

fill_unanswered :
    SendsNothing sample sample_cdr-IsCdr up (handle_test_request_msg sample (pos 1) (fill 1) up)
unfolding Field-discrete
fill_unanswered =
    (handle_test_request_msg_answer sample sample_cdr-IsCdr (pos 1) (fill 1) up).0 refl

silence_limit_example : (silence sample 5 up).state ≡ init
silence_limit_example = (silence_limit sample up refl).1

-- A message and half of another.
abbrev one_and_a_half : List ℕ
one_and_a_half = b'8' ∷ 1 ∷ b'8' ∷ []

on_tcp_connection_read-Finds_example :
    let b = one_and_a_half in
    (ms : List (Table × List ℕ)) × ((n : ℕ) × (Finds sample b ms n
        × (on_tcp_connection_read sample b up ≡ (take_in sample ms up, length b - n))
        × (n ≤ length b)))
on_tcp_connection_read-Finds_example =
    on_tcp_connection_read-Finds sample sample-IsCodec one_and_a_half up

-- A limit order to buy, good for the day.
abbrev bid : Order Table ℕ
bid = record {
  msg = sample_cdr.empty;
  price = 100;
  price_set = true;
  qty = pos 10;
  qty_set = true;
  side = Side.buy;
  side_set = true;
  order_type = OrderType.limit;
  order_type_set = true;
  tif = Tif.day;
  tif_set = true;
}

map_order_fields_last_example :
    sample_cdr.get_string (map_order_fields sample bid).0 Field.ord_type ≡ some "P"
map_order_fields_last_example = (map_order_fields_last sample sample_cdr-IsCdr bid).0 refl

-- An execution report of a fill, with the expected number.
abbrev filled : Table
filled = sample_cdr.set_string (fill 1) Field.exec_type "2"

routing_example : OnlyTo sample filled up order_fill (handle_tcp_msg sample filled up)
unfolding Field-discrete
routing_example =
    (((routing sample filled up "8" refl (λ e. cc) refl refl).4 refl).1 (inl refl)).1 "2" refl

initialised : (init_fix (sample_system []) up).1 ≡ true
unfolding init_fix
initialised = refl

init_succeeds_example : (sample_system {Item = Seqnums} []).get "target_comp_id" ≢ none
init_succeeds_example = (init_succeeds (sample_system []) up initialised).2
