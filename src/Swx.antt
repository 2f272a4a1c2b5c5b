-- ===== src/Swx.antt =====
-- src/swx/gwcSwx.h and src/swx/gwcSwx.cpp: the SWX connector, which is a SoupBin connector with
-- these functions for the virtual ones. The characters and numbers of swxCodecConstants.h come
-- with the codec, and are a parameter.
pub mod OrderFields
pub mod Venues
pub mod Price
pub mod Control
pub mod Invariant
pub mod Histories
pub mod Contract
pub mod Sample
mod Tests
use text.Mathlib.Text.{starts_with}
use fosdk.Common.{ℕ, Bool, true, false, String, Option, none, some, ℤ, if◌then◌else◌}
use fosdk.Gwc.{
  admin, order_ack, modify_ack, order_done, order_fill, order_rejected, other, is_ready,
}
use fosdk.Gwc.Env.{Env, message_type, type}
use fosdk.SoupBin.{SoupBin, SeqNum, transmit, notify}

pub record Codes : Type 0 where
  pub unsequenced : String
  pub enter_order : String
  pub cancel_order : String
  pub replace_order : String
  pub system_event : String
  pub accepted : String
  pub replaced : String
  pub cancelled : String
  pub executed_order : String
  pub rejected_order : String
  pub order_priority_update : String
  pub broken_trade : String
  pub buy_verb : String
  pub sell_verb : String
  pub immediate : ℤ
  pub at_close : ℤ
  pub at_opening : ℤ
  pub post_trading : ℤ

module _ (E : Env SeqNum) (k : Codes) where
  unfoldable pub send_msg : E.Msg → SoupBin E.Msg → SoupBin E.Msg × Bool
  send_msg msg s =
      if is_ready s.state
      then elim (E.encode msg) [ none ↦ (s, false) | some bytes ↦ (transmit bytes s, true) ]
      else (s, false)

  unfoldable pub send_order : E.Msg → SoupBin E.Msg → SoupBin E.Msg × Bool
  send_order order s =
      send_msg (E.set_string (E.set_string order message_type k.unsequenced) type k.enter_order) s

  unfoldable pub send_cancel : E.Msg → SoupBin E.Msg → SoupBin E.Msg × Bool
  send_cancel cancel s =
      send_msg (E.set_string (E.set_string cancel message_type k.unsequenced) type k.cancel_order) s

  unfoldable pub send_modify : E.Msg → SoupBin E.Msg → SoupBin E.Msg × Bool
  send_modify modify s =
      send_msg (E.set_string (E.set_string modify message_type k.unsequenced) type k.replace_order)
        s

  -- The switch over the type's first character.
  unfoldable pub sequenced_as : String → E.Msg → SoupBin E.Msg → SoupBin E.Msg
  sequenced_as t msg s =
      if starts_with t k.system_event
      then notify admin s.sequence_number msg s
      else if starts_with t k.accepted
      then notify order_ack s.sequence_number msg s
      else if starts_with t k.replaced
      then notify modify_ack s.sequence_number msg s
      else if starts_with t k.cancelled
      then notify order_done s.sequence_number msg s
      else if starts_with t k.executed_order
      then notify order_fill s.sequence_number msg s
      else if starts_with t k.rejected_order
      then notify order_rejected s.sequence_number msg s
      else if starts_with t k.order_priority_update
      then notify other s.sequence_number msg s
      else if starts_with t k.broken_trade
      then notify other s.sequence_number msg s
      else s

  unfoldable pub handle_sequenced_message : E.Msg → SoupBin E.Msg → SoupBin E.Msg
  unfolding sequenced_as
  handle_sequenced_message msg s = elim (E.get_string msg type) [
    | none ↦ s
    | some t ↦ sequenced_as t msg s
  ]

  unfoldable pub handle_unsequenced_message : E.Msg → SoupBin E.Msg → SoupBin E.Msg
  handle_unsequenced_message msg s = notify other s.sequence_number msg s
