-- ===== src/Optiq/Tests.antt =====
-- The Optiq theorems at concrete inputs: a session over a codec of two-byte messages, the first
-- byte the template and the second the sequence number.
use fosdk.Common.{Holds, ℕ, ◌≡◌, refl, true, false, List, [], ◌∷◌, ◌++◌, pos, arith, none, some}
use fosdk.Gwc.{ready, on_raw_msg}
use fosdk.Gwc.Order.{order_type_code, Order, Side, OrderType, Tif}
use fosdk.Gwc.Env.{Env, Field}
use fosdk.Gwc.Sample.{Table, Field-discrete, sample_cdr, sample_cdr-IsCdr, sample_env}
use fosdk.Optiq.Sample.{codes, packet}
use fosdk.Optiq.{Optiq, Seqnums, new_optiq}
use fosdk.Optiq.Session.{is_admin, template_of, send_msg}
use fosdk.Optiq.Receive.{refuse_logon}
use fosdk.Optiq.Raw.{u16_at, is_session_message, raw_loop, on_tcp_connection_read}
use fosdk.Optiq.Control.{Event, run, logon_msg}
use fosdk.Optiq.Invariant.{Inv, persisted}
use fosdk.Optiq.Safety.{Allowed, run-Holds}
use fosdk.Optiq.Numbers.{send_msg-numbered, logon_numbers}
use fosdk.Optiq.Frames.{IsFrame, on_tcp_connection_read_frames, raw_loop_endless}
use fosdk.Optiq.OrderFields.{OrderCodes, type_number, map_order_fields, send_gwc_order}
use fosdk.Optiq.Fields.{send_gwc_order_refused, map_order_fields_side}

abbrev sample : Env Seqnums
sample = sample_env

abbrev order_codes : OrderCodes
order_codes = record {
  market_peg = pos 1;
  limit_order = pos 2;
  stop_market = pos 3;
  stop_limit_order = pos 4;
  side_buy = pos 1;
  side_sell = pos 2;
  tif_day = pos 0;
  tif_ioc = pos 3;
  tif_fok = pos 4;
  tif_gtd = pos 6;
}

abbrev numbers : Seqnums
numbers = record { inbound = pos 0; outbound = pos 0 }

fresh-Inv : Inv true numbers 0 (new_optiq {Msg = Table} 0)
unfolding new_optiq persisted
fresh-Inv = ground arith

abbrev history : List (Event Table)
history = Event.starts false ∷ Event.tcp_ready ∷ Event.tcp_read (101 ∷ 1 ∷ []) ∷ []

run-Holds_example : Holds (Inv true numbers 0) (run sample codes packet history (new_optiq 0))
unfolding Allowed
run-Holds_example =
    run-Holds sample codes packet true numbers 0 history (new_optiq 0) ((λ e. refl), (tt, (tt, tt)))
      fresh-Inv

-- A session that is up, with raw messages on.
abbrev up : Optiq Table
up = record {
  base = record {
    state = ready;
    logged_on = 1;
    trader_logged_on = 0;
    raw_enabled = true;
    lock_depth = 0;
  };
  connection = true;
  access_id = pos 7;
  partition = pos 10;
  hb = true;
  reconnect_timer = false;
  seen_hb = true;
  missed_hb = 0;
  seqnums = numbers;
  trace = [];
}

abbrev order_msg : Table
order_msg = sample_cdr.set_integer sample_cdr.empty Field.template_id (pos 1)

order_msg_numbered : is_admin codes (template_of sample codes order_msg) ≡ false
unfolding is_admin template_of Field-discrete
order_msg_numbered = refl

send_msg-numbered_example : (send_msg sample codes order_msg up).1 ≡ true
send_msg-numbered_example =
    ((send_msg-numbered sample codes order_msg up refl order_msg_numbered).1.1 (1 ∷ 2 ∷ []) refl).0

-- The exchange accepts the logon, and has 5 messages of the client; or rejects it, and the client has
-- seen 9.
abbrev ack : Table
ack = sample_cdr.set_integer sample_cdr.empty Field.last_cl_msg_seq_num (pos 5)

abbrev reject : Table
reject = sample_cdr.set_integer ack Field.last_msg_seq_num (pos 9)

ack_outbound : sample.get_integer ack Field.last_cl_msg_seq_num ≡ some (pos 5)
unfolding Field-discrete
ack_outbound = refl

reject_outbound : sample.get_integer reject Field.last_cl_msg_seq_num ≡ some (pos 5)
unfolding Field-discrete
reject_outbound = refl

reject_inbound : sample.get_integer reject Field.last_msg_seq_num ≡ some (pos 9)
unfolding Field-discrete
reject_inbound = refl

logon_numbers_example :
    sample.get_integer
      (logon_msg sample codes (refuse_logon sample codes reject up))
      Field.last_msg_seq_num
    ≡ some (pos 9)
logon_numbers_example =
    (logon_numbers sample codes sample_cdr-IsCdr order_msg ack reject up (pos 5) (pos 9) (pos 5)
      (1 ∷ 2 ∷ []) ack_outbound order_msg_numbered refl reject_inbound reject_outbound (λ e. cc)).5

abbrev frame : ℕ → List ℕ
frame n = 6 ∷ 0 ∷ 0 ∷ 4 ∷ n ∷ 0 ∷ []

frame-IsFrame : (n : ℕ) → IsFrame sample codes packet (frame n)
unfolding u16_at is_session_message
frame-IsFrame n = record { room = omega arith; says_length = refl; application = λ rest. refl }

on_tcp_connection_read_frames_example :
    ((t : Optiq Table) × ((on_tcp_connection_read sample codes packet
            (frame 1 ++ frame 2 ++ (6 ∷ []))
            up
          ≡ some (t, 12))
        × (t.trace ≡ on_raw_msg (pos 2) (frame 2) ∷ on_raw_msg (pos 1) (frame 1) ∷ [])))
unfolding u16_at
on_tcp_connection_read_frames_example =
    on_tcp_connection_read_frames sample codes packet (frame 1 ∷ frame 2 ∷ []) (6 ∷ []) up refl
      (frame-IsFrame 1, (frame-IsFrame 2, tt)) (omega arith)

raw_loop_endless_example :
    raw_loop sample codes packet 1000 order_msg (0 ∷ 0 ∷ 0 ∷ 4 ∷ []) up ≡ none
unfolding u16_at is_session_message
raw_loop_endless_example =
    raw_loop_endless sample codes packet 1000 order_msg (0 ∷ 0 ∷ 0 ∷ 4 ∷ []) up (omega arith) refl
      refl

abbrev pegged_bid : Order Table ℕ
pegged_bid = record {
  msg = sample_cdr.empty;
  price = 100;
  price_set = true;
  qty = pos 10;
  qty_set = true;
  side = Side.sell_short;
  side_set = true;
  order_type = OrderType.pegged;
  order_type_set = true;
  tif = Tif.day;
  tif_set = true;
}

send_gwc_order_refused_example : send_gwc_order sample codes order_codes pegged_bid up ≡ (up, false)
unfolding order_type_code
send_gwc_order_refused_example =
    (send_gwc_order_refused sample codes order_codes pegged_bid up refl (omega arith)).0

abbrev short_sale : Order Table ℕ
short_sale = record pegged_bid { order_type = OrderType.limit }

short_sale_mapped : (map_order_fields sample codes order_codes short_sale).1 ≡ true
unfolding map_order_fields type_number
short_sale_mapped = refl

short_sale_sells :
    sample_cdr.get_integer (map_order_fields sample codes order_codes short_sale).0 Field.order_side
    ≡ some (pos 2)
short_sale_sells =
    (map_order_fields_side sample sample_cdr-IsCdr codes order_codes short_sale short_sale_mapped
        refl).1
      (λ e. cc)
