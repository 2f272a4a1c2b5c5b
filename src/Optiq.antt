-- ===== src/Optiq.antt =====
-- src/optiq/gwcOptiq.h and src/optiq/gwcOptiq.cpp: the state of the Euronext Optiq connector. The numbers of
-- the templates and enumerations come with the codec, a submodule, and are a parameter. Log lines
-- are left out, and a pointer that is only tested for NULL is a Bool.
pub mod Session
pub mod Receive
pub mod Raw
pub mod Control
pub mod Init
pub mod OrderFields
pub mod Invariant
pub mod Safety
pub mod Numbers
pub mod Frames
pub mod Fields
pub mod Contract
pub mod Sample
mod Tests
use fosdk.Common.{ℕ, ◌≡◌, ◌==◌, Bool, true, false, List, [], ◌∷◌, ℤ, pos, negsuc, if◌then◌else◌}
use fosdk.Gwc.{
  Effect, Callback, Connector, ConnectorState, cached, notified, new_connector, lock, unlock,
  set_state,
}

-- optiqConstants.h of the codec.
pub record Codes : Type 0 where
  pub logon : ℤ
  pub logon_ack : ℤ
  pub logon_reject : ℤ
  pub logout : ℤ
  pub heartbeat : ℤ
  pub test_request : ℤ
  pub technical_reject : ℤ
  pub new_order : ℤ
  pub ack : ℤ
  pub fill : ℤ
  pub kill : ℤ
  pub reject : ℤ
  pub cancel_request : ℤ
  pub cancel_replace : ℤ
  pub new_order_ack_type : ℤ
  pub replace_ack_type : ℤ
  pub regular_logout : ℤ

-- gwcOptiqSeqnums
pub record Seqnums : Type 0 where
  pub inbound : ℤ
  pub outbound : ℤ

pub record Optiq (Msg : Type 0) : Type 0 where
  pub base : Connector
  pub open base use *
  pub connection : Bool
  pub access_id : ℤ
  pub partition : ℤ
  pub hb : Bool
  pub reconnect_timer : Bool
  pub seen_hb : Bool
  pub missed_hb : ℕ
  pub seqnums : Seqnums
  pub trace : List (Effect Msg Seqnums)

-- The constructor.
unfoldable pub new_optiq : {Msg : Type 0} → ℕ → Optiq Msg
unfolding new_connector
new_optiq uninitialised = record {
  base = new_connector uninitialised;
  connection = false;
  access_id = negsuc 0;
  partition = negsuc 0;
  hb = false;
  reconnect_timer = false;
  seen_hb = false;
  missed_hb = 0;
  seqnums = record { inbound = pos 0; outbound = pos 0 };
  trace = [];
}

-- cacheFileItemCb: `sizeof (gwcOptiqSeqnums)` is 16; the second part is the returned success.
unfoldable pub cache_file_item_cb : {Msg : Type 0} → Optiq Msg → ℕ → Seqnums → Optiq Msg × Bool
cache_file_item_cb s item_size item =
    if item_size == 16 then (record s { seqnums = item }, true) else (s, false)

module _ {Msg : Type 0} where
  abbrev pub emit : Effect Msg Seqnums → Optiq Msg → Optiq Msg
  emit e s = record s { trace = e ∷ s.trace }

  abbrev pub notify : Callback → ℤ → Msg → Optiq Msg → Optiq Msg
  notify c n m s = emit (notified c n m) s

  -- `sbfCacheFile_write` of the sequence numbers, and the flush.
  abbrev pub store_seqnums : Optiq Msg → Optiq Msg
  store_seqnums s = emit (cached s.seqnums) s

  abbrev pub set_inbound : ℤ → Optiq Msg → Optiq Msg
  set_inbound n s = record s { seqnums = record { inbound = n; outbound = s.seqnums.outbound } }

  abbrev pub set_outbound : ℤ → Optiq Msg → Optiq Msg
  set_outbound n s = record s { seqnums = record { inbound = s.seqnums.inbound; outbound = n } }

  abbrev pub locked : Optiq Msg → Optiq Msg
  locked s = record s { base = lock s.base }

  abbrev pub unlocked : Optiq Msg → Optiq Msg
  unlocked s = record s { base = unlock s.base }

  abbrev pub in_state : ConnectorState → Optiq Msg → Optiq Msg
  in_state q s = record s { base = set_state q s.base }
