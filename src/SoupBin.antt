-- ===== src/SoupBin.antt =====
-- src/soupbin/gwcSoupBin.h and src/soupbin/gwcSoupBin.cpp: the state of a connector over
-- SoupBinTCP, and what its venue gives it, the functions that are virtual there. Log lines are left
-- out, and a pointer that is only tested for NULL is a Bool.
pub mod Session
pub mod Receive
pub mod Control
pub mod Init
pub mod Frames
pub mod Numbers
use fosdk.Common.{
  ℕ, ◌==◌, ◌%◌, ◌-◌, Bool, true, false, String, Option, none, some, List, [], ◌∷◌, ℤ, pos, negsuc,
  if◌then◌else◌,
}
use fosdk.Gwc.{
  Effect, Callback, Connector, ConnectorState, cached, notified, sent, null_used, new_connector,
  set_state,
}
use fosdk.Gwc.Env.{Env}

-- gwcSoupBinSeqNum
pub record SeqNum : Type 0 where
  pub seqno : ℕ
  pub session : String

pub record SoupBin (Msg : Type 0) : Type 0 where
  pub base : Connector
  pub open base use *
  pub connection : Bool
  pub session : String
  pub sequence_number : ℕ
  pub cache_item : Option SeqNum
  pub hb : Bool
  pub reconnect_timer : Bool
  pub seen_message : Bool
  pub trace : List (Effect Msg SeqNum)

-- The constructor.
unfoldable pub new_soup_bin : {Msg : Type 0} → ℕ → SoupBin Msg
unfolding new_connector
new_soup_bin uninitialised = record {
  base = new_connector uninitialised;
  connection = false;
  session = "";
  sequence_number = 0;
  cache_item = none;
  hb = false;
  reconnect_timer = false;
  seen_message = false;
  trace = [];
}

-- cacheFileItemCb, for an item of the size of a gwcSoupBinSeqNum or of another; the second part is
-- the returned success.
unfoldable pub cache_file_item_cb :
    {Msg : Type 0} → SoupBin Msg → Bool → SeqNum → SoupBin Msg × Bool
cache_file_item_cb s fits item =
    if fits then (record s { cache_item = some item }, true) else (s, false)

-- An int64_t stored in a uint32_t.
unfoldable pub low_32 : ℤ → ℕ
low_32 (pos n) = n % 4294967296
low_32 (negsuc n) = 4294967295 - n % 4294967296

-- The virtual functions that a venue defines, and what strncpy leaves of a session's name in the
-- ten bytes of a gwcSoupBinSeqNum.
pub record Venue (E : Env SeqNum) : Type 0 where
  pub handle_sequenced_message : E.Msg → SoupBin E.Msg → SoupBin E.Msg
  pub handle_unsequenced_message : E.Msg → SoupBin E.Msg → SoupBin E.Msg
  pub send_msg : E.Msg → SoupBin E.Msg → SoupBin E.Msg × Bool
  pub clip : String → String

module _ {Msg : Type 0} where
  abbrev pub emit : Effect Msg SeqNum → SoupBin Msg → SoupBin Msg
  emit e s = record s { trace = e ∷ s.trace }

  -- `mConnection->send`.
  abbrev pub transmit : List ℕ → SoupBin Msg → SoupBin Msg
  transmit bytes s = emit (if s.connection then sent bytes else null_used) s

  abbrev pub notify : Callback → ℕ → Msg → SoupBin Msg → SoupBin Msg
  notify c n m s = emit (notified c (pos n) m) s

  abbrev pub in_state : ConnectorState → SoupBin Msg → SoupBin Msg
  in_state q s = record s { base = set_state q s.base }
