-- ===== src/Millennium.antt =====
-- src/millennium/gwcMillennium.h and src/millennium/gwcMillennium.cpp: the state of a connector to
-- a Millennium venue, which keeps a real-time and a recovery connection, and a sequence number for each
-- partition. The class is a template over the codec, which is a parameter. Log lines are left out,
-- and a pointer that is only tested for NULL is a Bool.
pub mod Session
pub mod Receive
pub mod Raw
pub mod Control
pub mod Init
pub mod OrderFields
pub mod Fields
pub mod Reads
pub mod Ends
pub mod Kept
pub mod Runs
pub mod Restart
pub mod Recovery
pub mod Null
pub mod Closed
pub mod Contract
pub mod Sample
mod Tests
use fosdk.Common.{
  ℕ, ◌==◌, Bool, true, false, Option, none, some, List, [], ◌∷◌, ℤ, pos, if◌then◌else◌,
}
use fosdk.Gwc.{
  Effect, Callback, Connector, ConnectorState, cached, notified, sent, sent_recovery, null_used,
  new_connector, set_state,
}
use fosdk.Gwc.Keyed.{Keyed, update}

-- gwcMillenniumSeqNum
pub record SeqNum : Type 0 where
  pub partition : ℕ
  pub seqno : ℕ

-- The map's items are a partition and its number.
abbrev pub Partitions : Type 0
Partitions = Keyed ℕ

-- A pointer to a SbfTcpConnection: NULL, an object that has not connected, or one that has.
pub data Link : Type 0 where
  absent created connected : Link

abbrev pub is_absent : Link → Bool
is_absent absent = true
is_absent _ = false

-- What LsePackets.h of the codec lays down: the size of LseHeader and, of the bytes that begin with
-- one, its message length and type, and by that type the partition and the sequence number;
-- and the bytes that an encoding which fails leaves to be sent.
pub record Layout (Msg : Type 0) : Type 0 where
  pub header : ℕ
  pub message_length : List ℕ → ℕ
  pub message_type : List ℕ → ℕ
  pub app_id : ℕ → List ℕ → ℕ
  pub sequence_no : ℕ → List ℕ → ℤ
  pub unencoded : Msg → List ℕ

pub record Millennium (Msg : Type 0) : Type 0 where
  pub base : Connector
  pub open base use *
  pub real_time : Link
  pub recovery : Link
  pub cache_map : Partitions
  pub hb : Bool
  pub reconnect_timer : Bool
  pub seen_hb : Bool
  pub waiting_downloads : ℤ
  pub logon_msg : Msg
  pub trace : List (Effect Msg SeqNum)

-- The constructor; `empty` is a message with no field.
unfoldable pub new_millennium : {Msg : Type 0} → Msg → ℕ → Millennium Msg
unfolding new_connector
new_millennium empty uninitialised = record {
  base = new_connector uninitialised;
  real_time = absent;
  recovery = absent;
  cache_map = [];
  hb = false;
  reconnect_timer = false;
  seen_hb = false;
  waiting_downloads = pos 0;
  logon_msg = empty;
  trace = [];
}

-- cacheFileItemCb: `sizeof (gwcMillenniumSeqNum)` is 16; the second part is the returned success.
unfoldable pub cache_file_item_cb :
    {Msg : Type 0} → Millennium Msg → ℕ → SeqNum → Millennium Msg × Bool
cache_file_item_cb s item_size item =
    if item_size == 16
    then (record s { cache_map = update item.partition item.seqno s.cache_map }, true)
    else (s, false)

module _ {Msg : Type 0} where
  abbrev pub emit : Effect Msg SeqNum → Millennium Msg → Millennium Msg
  emit e s = record s { trace = e ∷ s.trace }

  abbrev pub notify : Callback → ℕ → Msg → Millennium Msg → Millennium Msg
  notify c n m s = emit (notified c (pos n) m) s

  abbrev pub in_state : ConnectorState → Millennium Msg → Millennium Msg
  in_state q s = record s { base = set_state q s.base }

  -- A call through a connection's pointer.
  abbrev pub through : Link → Effect Msg SeqNum → Effect Msg SeqNum
  through absent e = null_used
  through created e = e
  through connected e = e

  abbrev pub send_real_time : List ℕ → Millennium Msg → Millennium Msg
  send_real_time bytes s = emit (through s.real_time (sent bytes)) s

  abbrev pub send_recovery : List ℕ → Millennium Msg → Millennium Msg
  send_recovery bytes s = emit (through s.recovery (sent_recovery bytes)) s
