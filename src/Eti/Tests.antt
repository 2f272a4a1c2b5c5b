-- ===== src/Eti/Tests.antt =====
-- The theorems on src/eti/gwcEti.cpp at concrete inputs.
use fosdk.Common.{◌≡◌, refl, true, false, List, [], ◌∷◌, pos, arith, Holds, eqb_ℤ}
use fosdk.Gwc.{ready, connected, is_ready, is_connected, sent}
use fosdk.Gwc.Env.{Env, Field}
use fosdk.Gwc.Sample.{
  Table, Field-discrete, sample_cdr, sample_cdr-IsCdr, sample_env, sample_env-IsCodec,
}
use fosdk.Eti.Sample.{ids}
use fosdk.Eti.{Eti, Item, new_eti}
use fosdk.Eti.Session.{update_seq_no, send_msg, send_retrans_request}
use fosdk.Eti.Receive.{handle_tcp_msg, integer_or_0}
use fosdk.Eti.Control.{Event, run, starts, tcp_ready, tcp_read, hb_timeout, stops}
use fosdk.Eti.Invariant.{Inv}
use fosdk.Eti.Histories.{run_new-Inv}
use fosdk.Eti.Numbers.{send_msg-outcome}
use fosdk.Eti.Reads.{Reading, timeouts, read_handles_all, four_missed}
use fosdk.Eti.Ready.{ready_only_by_logon}
use fosdk.Eti.Retrans.{Requested, send_retrans_request_lem}

abbrev sample : Env Item
sample = sample_env

abbrev history : List (Event Table)
history = starts ∷ tcp_ready ∷ tcp_read (1 ∷ 2 ∷ 3 ∷ []) ∷ hb_timeout ∷ stops ∷ []

run_new-Inv_example : Holds Inv (run sample ids history (new_eti 0))
run_new-Inv_example = run_new-Inv sample ids history 0

-- A session that is up, with two partitions, and an item of the cache file.
abbrev up : Eti Table
up = record {
  base = record {
    state = ready;
    logged_on = 1;
    trader_logged_on = 0;
    raw_enabled = false;
    lock_depth = 0;
  };
  connection = true;
  cache_item = true;
  hb = true;
  reconnect_timer = false;
  cache_map = (1, []) ∷ (4, []) ∷ [];
  seen_hb = false;
  missed_hb = 0;
  seq_no = 7;
  last_appl_msg_id = [];
  current_recovery_end = [];
  recovery_msg_cnt = pos 0;
  trace = [];
}

abbrev order_msg : Table
order_msg = sample_cdr.set_integer sample_cdr.empty Field.template_id (pos 10100)

send_msg-outcome_example : (send_msg sample order_msg up).0.trace ≡ sent (1 ∷ 2 ∷ []) ∷ []
send_msg-outcome_example =
    ((send_msg-outcome sample order_msg up (omega arith) refl).2 (1 ∷ 2 ∷ []) refl refl).0

send_retrans_request_lem_example :
    Requested sample ids sample_cdr-IsCdr
      (λ m. 1 ∷ 2 ∷ [])
      (λ m. refl)
      ((1, []) ∷ (4, []) ∷ [])
      up
      (send_retrans_request sample ids up)
send_retrans_request_lem_example =
    send_retrans_request_lem sample ids sample_cdr-IsCdr (λ m. 1 ∷ 2 ∷ []) (λ m. refl) up
      (omega arith) refl refl

read_handles_all_example : Reading sample ids (3 ∷ 5 ∷ 9 ∷ []) up
read_handles_all_example = read_handles_all sample ids sample_env-IsCodec (3 ∷ 5 ∷ 9 ∷ []) up

up_closes : (timeouts sample ids 4 up).connection ≡ false
up_closes = (four_missed sample ids up refl refl).2

-- The answer to the logon.
abbrev logging_on : Eti Table
logging_on = record up { base = record up.base { state = connected } }

abbrev logged_on_msg : Table
logged_on_msg = sample_cdr.set_integer sample_cdr.empty Field.template_id (pos 10001)

logs_on : is_ready (handle_tcp_msg sample ids logged_on_msg logging_on).state ≡ true
unfolding handle_tcp_msg Field-discrete update_seq_no
logs_on = refl

ready_only_by_logon_example :
    (is_connected logging_on.state ≡ true)
    × (eqb_ℤ (integer_or_0 sample ids logged_on_msg Field.template_id) (pos 10001) ≡ true)
ready_only_by_logon_example = ready_only_by_logon sample ids logged_on_msg logging_on refl logs_on

-- The counter of what is sent takes the number of what is received: after a message numbered 3, the
-- next order has the number 4, whatever was sent before.
abbrev numbered_3 : Table
numbered_3 =
    sample_cdr.set_integer (sample_cdr.set_integer sample_cdr.empty Field.template_id (pos 10200))
      Field.msg_seq_num (pos 3)

inbound_counts : (send_msg sample order_msg (handle_tcp_msg sample ids numbered_3 up)).0.seq_no ≡ 4
unfolding handle_tcp_msg send_msg Field-discrete update_seq_no
inbound_counts = refl
