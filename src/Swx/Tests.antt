-- ===== src/Swx/Tests.antt =====
-- The SoupBin and SWX theorems at concrete inputs: a session over a codec of one-byte messages,
-- each a sequenced data packet.
use fosdk.Common.{Holds, ℕ, ◌≡◌, refl, true, false, none, some, List, [], ◌∷◌, ◌++◌, pos, arith}
use fosdk.Gwc.{ready, on_raw_msg}
use fosdk.Gwc.Order.{Order, Side, OrderType, Tif}
use fosdk.Gwc.Env.{Field}
use fosdk.Gwc.Sample.{Table, Field-discrete, sample_cdr, sample_cdr-IsCdr}
use fosdk.Swx.Sample.{sequenced, sample, codes}
use fosdk.SoupBin.{new_soup_bin, SoupBin, Venue}
use fosdk.SoupBin.Session.{is_session_message}
use fosdk.SoupBin.Receive.{is_session_type, message_length, on_connection_read}
use fosdk.SoupBin.Control.{logon_msg}
use fosdk.SoupBin.Frames.{IsFrame, on_connection_read_repeats}
use fosdk.SoupBin.Numbers.{IsVenue, IsSequenced, handle_all, logon_msg-handle_all}
use fosdk.Swx.Control.{Event, run}
use fosdk.Swx.Invariant.{Inv}
use fosdk.Swx.Histories.{run-new_soup_bin-Inv}
use fosdk.Swx.Venues.{swx, swx-IsVenue}
use fosdk.Swx.OrderFields.{map_order_fields}
use fosdk.Swx.Price.{map_order_fields_market}

abbrev venue : Venue sample
venue = swx sample codes (λ t. t)

venue-IsVenue : IsVenue venue
venue-IsVenue = swx-IsVenue sample codes (λ t. t)

-- A session that is up, with raw messages on, before the last number of 32 bits.
abbrev up : SoupBin Table
up = record {
  base = record {
    state = ready;
    logged_on = 1;
    trader_logged_on = 0;
    raw_enabled = true;
    lock_depth = 0;
  };
  connection = true;
  session = "day";
  sequence_number = 4294967295;
  cache_item = none;
  hb = true;
  reconnect_timer = false;
  seen_message = true;
  trace = [];
}

sequenced-IsSequenced : IsSequenced sample venue sequenced
unfolding IsSequenced is_session_message Field-discrete
sequenced-IsSequenced = (refl, (refl, refl))

logon_msg-handle_all_example :
    sample.get_integer
      (logon_msg sample venue (handle_all sample venue (sequenced ∷ sequenced ∷ []) up))
      Field.requested_sequence_number
    ≡ some (pos 1)
logon_msg-handle_all_example =
    (logon_msg-handle_all sample venue sample_cdr-IsCdr (swx-IsVenue sample codes (λ t. t))
      sequenced (sequenced ∷ []) up (sequenced-IsSequenced, (sequenced-IsSequenced, tt))).0

-- The length without its own two bytes, the type 'S', and a byte.
abbrev frame : ℕ → List ℕ
frame n = 0 ∷ 2 ∷ 83 ∷ n ∷ []

frame-IsFrame : (n : ℕ) → IsFrame (frame n)
unfolding message_length is_session_type
frame-IsFrame n = record { room = omega arith; says_length = refl; application = refl }

on_connection_read_repeats_example :
    ((t : SoupBin Table) × ((on_connection_read sample venue
            (frame 1 ++ (frame 2 ++ (frame 3 ++ [])))
            up
          ≡ some (t, 12))
        × (t.trace
            ≡ on_raw_msg (pos 0) (frame 2)
              ∷ on_raw_msg (pos 0) (frame 2)
              ∷ on_raw_msg (pos 0) (frame 1)
              ∷ [])))
on_connection_read_repeats_example =
    on_connection_read_repeats sample venue (frame 1) (frame 2) (frame 3 ∷ []) up refl
      (frame-IsFrame 1) (frame-IsFrame 2) refl (refl, tt)

abbrev market_bid : Order Table ℕ
market_bid = record {
  msg = sample_cdr.empty;
  price = 100;
  price_set = true;
  qty = pos 10;
  qty_set = true;
  side = Side.buy;
  side_set = true;
  order_type = OrderType.market;
  order_type_set = true;
  tif = Tif.day;
  tif_set = true;
}

market_bid_at_its_price :
    sample_cdr.get_integer (map_order_fields sample codes market_bid).0 Field.order_price
    ≡ some (pos 100)
market_bid_at_its_price =
    (map_order_fields_market sample sample_cdr-IsCdr codes market_bid refl refl).1 refl

abbrev some_history : List (Event Table)
some_history =
    Event.starts false
    ∷ Event.tcp_ready
    ∷ Event.tcp_read (1 ∷ [])
    ∷ Event.hb_timeout
    ∷ Event.stops
    ∷ []

run-new_soup_bin-Inv_example :
    Holds Inv (run sample codes (λ t. t) some_history (new_soup_bin {Msg = Table} 0))
run-new_soup_bin-Inv_example = run-new_soup_bin-Inv sample codes (λ t. t) some_history 0
