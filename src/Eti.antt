-- ===== src/Eti.antt =====
-- src/eti/gwcEti.h and src/eti/gwcEti.cpp: the state of a connector to Xetra or Eurex, which numbers
-- what it sends and keeps the last ApplMsgID of each partition. The class is a template over the codec,
-- which is a parameter. Log lines are left out, `lock` and `unlock`, which are paired on every path, too, and a
-- pointer that is only tested for NULL is a Bool.
pub mod Session
pub mod Receive
pub mod Control
pub mod Init
pub mod OrderFields
pub mod Invariant
pub mod Histories
pub mod Numbers
pub mod Reads
pub mod Ready
pub mod Contract
pub mod Sample
mod Tests
pub mod Retrans
use fosdk.Common.{
  ℕ, ◌+◌, ◌-◌, ◌%◌, ◌^◌, ◌==◌, Bool, true, false, String, Option, none, some, List, [], ◌∷◌, ℤ, pos,
  if◌then◌else◌,
}
use fosdk.Gwc.{
  Effect, Callback, Connector, ConnectorState, cached, notified, sent, null_used, new_connector,
  set_state,
}
use fosdk.Gwc.Keyed.{Keyed}

-- What is given to the cache file: `&mSeqNo`, or a gwcXetraApplMsgId.
pub data Item : Type 0 where
  seq_no_item : ℕ → Item
  appl_msg_id_item : ℕ → List ℕ → Item

-- The 16 bytes from a text's `c_str ()` on, the text of 16 bytes, and whether the constant
-- ApplResendFlag of the generated fields.h is 1.
pub record Ids : Type 0 where
  pub bytes_of : String → List ℕ
  pub text_of : List ℕ → String
  pub appl_resend_flag_is_1 : Bool

pub record Eti (Msg : Type 0) : Type 0 where
  pub base : Connector
  pub open base use *
  pub connection : Bool
  pub cache_item : Bool
  pub hb : Bool
  pub reconnect_timer : Bool
  pub cache_map : Keyed (List ℕ)
  pub seen_hb : Bool
  pub missed_hb : ℕ
  pub seq_no : ℕ
  pub last_appl_msg_id : List ℕ
  pub current_recovery_end : List ℕ
  pub recovery_msg_cnt : ℤ
  pub trace : List (Effect Msg Item)

abbrev zeros : List ℕ
zeros = 0 ∷ 0 ∷ 0 ∷ 0 ∷ 0 ∷ 0 ∷ 0 ∷ 0 ∷ 0 ∷ 0 ∷ 0 ∷ 0 ∷ 0 ∷ 0 ∷ 0 ∷ 0 ∷ []

-- The constructor.
unfoldable pub new_eti : {Msg : Type 0} → ℕ → Eti Msg
unfolding new_connector
new_eti uninitialised = record {
  base = new_connector uninitialised;
  connection = false;
  cache_item = false;
  hb = false;
  reconnect_timer = false;
  cache_map = [];
  seen_hb = false;
  missed_hb = 0;
  seq_no = 1;
  last_appl_msg_id = zeros;
  current_recovery_end = zeros;
  recovery_msg_cnt = pos 0;
  trace = [];
}

-- cacheFileItemCb; the second part is the returned success.
unfoldable pub cache_file_item_cb : {Msg : Type 0} → Eti Msg → ℕ → List ℕ → Eti Msg × Bool
cache_file_item_cb s item_size item_data =
    if item_size == 16
    then (record s { cache_item = true; last_appl_msg_id = item_data }, true)
    else (s, false)

module _ {Msg : Type 0} where
  abbrev pub emit : Effect Msg Item → Eti Msg → Eti Msg
  emit e s = record s { trace = e ∷ s.trace }

  abbrev pub notify : Callback → ℤ → Msg → Eti Msg → Eti Msg
  notify c n m s = emit (notified c n m) s

  abbrev pub in_state : ConnectorState → Eti Msg → Eti Msg
  in_state q s = record s { base = set_state q s.base }

  abbrev pub transmit : List ℕ → Eti Msg → Eti Msg
  transmit bytes s = emit (if s.connection then sent bytes else null_used) s
