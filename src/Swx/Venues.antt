-- ===== src/Swx/Venues.antt =====
-- The SWX connector of src/swx/gwcSwx.cpp as a venue of the SoupBin connector.
use fosdk.Common.{String, arith}
use fosdk.Gwc.Env.{Env}
use fosdk.SoupBin.{SeqNum, Venue}
use fosdk.SoupBin.Numbers.{IsVenue}
use fosdk.Swx.{Codes, send_msg, sequenced_as, handle_sequenced_message, handle_unsequenced_message}

module _ (E : Env SeqNum) (k : Codes) (clip : String → String) where
  abbrev pub swx : Venue E
  swx = record {
    handle_sequenced_message = handle_sequenced_message E k;
    handle_unsequenced_message = handle_unsequenced_message E k;
    send_msg = send_msg E k;
    clip = clip;
  }

  -- The handler of sequenced messages leaves the number, the session and the cache item of the
  -- connector alone, on every branch, as the laws of a venue ask.
  pub swx-IsVenue : IsVenue swx
  unfolding handle_sequenced_message sequenced_as
  swx-IsVenue = record { sequenced_keeps = λ m s. ground arith }
