-- ===== src/Fix.antt =====
-- src/fix/gwcFix.h and src/fix/gwcFix.cpp: the state of the FIX connector and its small helpers.
-- A pointer that is only tested for NULL is a Bool. `int64_t` sequence numbers are unbounded
-- integers: their overflow is undefined in C++. Log lines are left out.
pub mod Session
pub mod Handlers
pub mod Receive
pub mod Control
pub mod Init
pub mod Errors
pub mod OrderFields
pub mod Invariant
pub mod Safety
pub mod Hearing
pub mod Delivery
pub mod Outbound
pub mod Heartbeats
pub mod Stream
pub mod Fields
pub mod Routing
pub mod Contract
mod Tests
use fosdk.Common.{ℕ, ◌≡◌, ◌==◌, Bool, true, false, String, List, [], ◌∷◌, ℤ, pos, if◌then◌else◌}
use fosdk.Gwc.{
  Effect, Callback, Connector, cached, notified, new_connector, reset_connector, lock, unlock,
  set_state, ConnectorState,
}

-- gwcFixSeqnums
pub record Seqnums : Type 0 where
  pub inbound : ℤ
  pub outbound : ℤ

pub record Fix (Msg : Type 0) : Type 0 where
  pub base : Connector
  pub open base use *
  pub connection : Bool
  pub begin_string : String
  pub sender_comp_id : String
  pub target_comp_id : String
  pub heart_bt_int : ℤ
  pub reset_seq_num_flag : Bool
  pub reset_on_logon : Bool
  pub first_connect : Bool
  pub hb : Bool
  pub reconnect_timer : Bool
  pub seen_hb : Bool
  pub missed_hb : ℕ
  pub encrypt_method : ℤ
  pub set_next_exp_seq_num : Bool
  pub seqnums : Seqnums
  pub msg_in_writer : Bool
  pub msg_out_writer : Bool
  pub trace : List (Effect Msg Seqnums)

-- The message types, as the constants of gwcFix.cpp.
abbrev pub heartbeat : String
heartbeat = "0"

abbrev pub test_request : String
test_request = "1"

abbrev pub resend_request : String
resend_request = "2"

abbrev pub reject : String
reject = "3"

abbrev pub sequence_reset : String
sequence_reset = "4"

abbrev pub logout : String
logout = "5"

abbrev pub execution_report : String
execution_report = "8"

abbrev pub order_cancel_reject : String
order_cancel_reject = "9"

abbrev pub logon : String
logon = "A"

abbrev pub new_order_single : String
new_order_single = "D"

abbrev pub order_cancel_request : String
order_cancel_request = "F"

abbrev pub order_cancel_replace_request : String
order_cancel_replace_request = "G"

abbrev pub business_message_reject : String
business_message_reject = "j"

-- The constructor.
unfoldable pub new_fix : {Msg : Type 0} → ℕ → Fix Msg
unfolding new_connector
new_fix uninitialised = record {
  base = new_connector uninitialised;
  connection = false;
  begin_string = "FIX.4.2";
  sender_comp_id = "";
  target_comp_id = "";
  heart_bt_int = pos 30;
  reset_seq_num_flag = false;
  reset_on_logon = false;
  first_connect = true;
  hb = false;
  reconnect_timer = false;
  seen_hb = false;
  missed_hb = 0;
  encrypt_method = pos 0;
  set_next_exp_seq_num = false;
  seqnums = record { inbound = pos 1; outbound = pos 1 };
  msg_in_writer = false;
  msg_out_writer = false;
  trace = [];
}

-- cacheFileItemCb: `sizeof (gwcFixSeqnums)` is 16; the second part is the returned success.
unfoldable pub cache_file_item_cb : {Msg : Type 0} → Fix Msg → ℕ → Seqnums → Fix Msg × Bool
cache_file_item_cb s item_size item =
    if item_size == 16 then (record s { seqnums = item }, true) else (s, false)

module _ {Msg : Type 0} where
  abbrev pub emit : Effect Msg Seqnums → Fix Msg → Fix Msg
  emit e s = record s { trace = e ∷ s.trace }

  abbrev pub notify : Callback → ℤ → Msg → Fix Msg → Fix Msg
  notify c n m s = emit (notified c n m) s

  -- `sbfCacheFile_write` of the sequence numbers, and the flush.
  abbrev pub store_seqnums : Fix Msg → Fix Msg
  store_seqnums s = emit (cached s.seqnums) s

  abbrev pub set_inbound : ℤ → Fix Msg → Fix Msg
  set_inbound n s = record s { seqnums = record { inbound = n; outbound = s.seqnums.outbound } }

  abbrev pub set_outbound : ℤ → Fix Msg → Fix Msg
  set_outbound n s = record s { seqnums = record { inbound = s.seqnums.inbound; outbound = n } }

  abbrev pub locked : Fix Msg → Fix Msg
  locked s = record s { base = lock s.base }

  abbrev pub unlocked : Fix Msg → Fix Msg
  unlocked s = record s { base = unlock s.base }

  abbrev pub in_state : ConnectorState → Fix Msg → Fix Msg
  in_state q s = record s { base = set_state q s.base }
