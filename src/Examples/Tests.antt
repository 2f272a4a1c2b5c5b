-- ===== src/Examples/Tests.antt =====
-- The theorems on the programs of src/examples at concrete inputs: a connector of gwcSwx that is up.
use fosdk.Common.{ℕ, refl, true, false, none, some, [], ◌∷◌, pos}
use fosdk.Gwc.{ready}
use fosdk.Gwc.Env.{Field}
use fosdk.Gwc.Order.{Order, Side, OrderType, Tif}
use fosdk.Gwc.Sample.{Table, sample_cdr}
use fosdk.Gwc.Contract.{Session}
use fosdk.SoupBin.{SoupBin}
use fosdk.SoupBin.Session.{send_raw}
use fosdk.Swx.Venues.{swx}
use fosdk.Swx.{send_order, send_msg}
use fosdk.Swx.Sample.{sample, codes}
use fosdk.Swx.Contract.{swx_session}
use fosdk.Examples.{Names, Api, logged_on, or_exit, waited, given}
use fosdk.Examples.Bme
use fosdk.Examples.Optiq
use fosdk.Examples.Orders.{LeavesPriceAndTif, orders-LeavesPriceAndTif}
use fosdk.Examples.Exits.{Succeeds}
use fosdk.Examples.Ends.{Inputs, optiq, main_of, Completed, main_of-Completed}

abbrev names : Names ℕ
names = record { field = λ n. Field.order_px; constant = λ n. pos 1; decimal = λ t. 12 }

-- What was in memory: a price, and a time in force.
abbrev garbage : Order Table ℕ
garbage = record {
  msg = sample_cdr.empty;
  price = 7;
  price_set = true;
  qty = pos 3;
  qty_set = false;
  side = Side.sell;
  side_set = true;
  order_type = OrderType.market;
  order_type_set = false;
  tif = Tif.gtc;
  tif_set = true;
}

orders-LeavesPriceAndTif_example : LeavesPriceAndTif garbage (Bme.modify sample names "id" garbage)
orders-LeavesPriceAndTif_example =
    (orders-LeavesPriceAndTif sample names garbage garbage (pos 1) (pos 2) "id").6

abbrev up : SoupBin Table
up = record {
  base = record {
    state = ready;
    logged_on = 1;
    trader_logged_on = 0;
    raw_enabled = false;
    lock_depth = 0;
  };
  connection = true;
  session = "s";
  sequence_number = 3;
  cache_item = none;
  hb = true;
  reconnect_timer = false;
  seen_message = true;
  trace = [];
}

abbrev over_swx : Session
over_swx = swx_session sample codes (λ t. t)

-- A factory that gives this connector, and a dispatch thread that does nothing.
abbrev api : Api over_swx.State Table ℕ
api = record {
  configure = true;
  find_file = λ n. some n;
  get = λ t p. some up;
  init = λ p s. (s, true);
  start = λ a s. (s, true);
  wait_for = λ w s. some s;
  trader_logon = λ m s. (s, true);
  send_order = λ o s. over_swx.send_order o.msg s;
  send_raw = λ b s. send_raw sample (swx sample codes (λ t. t)) b s;
  stop = over_swx.stop;
  sleep = λ n s. s;
}

-- The time and the id of the second order are later ones.
abbrev inputs : Inputs Table ℕ
inputs = record {
  first = (pos 1, pos 2);
  second = (pos 6, pos 7);
  left = garbage;
  left' = garbage;
  header = 4;
  size = 20;
  bytes = λ vs. 1 ∷ 2 ∷ [];
}

optiq_ends : Succeeds (main_of sample names inputs optiq api)
unfolding main_of Optiq.main Optiq.props logged_on or_exit waited given send_order send_msg
optiq_ends = (_, refl)

main_of-Completed_example : Completed sample names inputs api optiq
main_of-Completed_example = main_of-Completed sample names inputs api optiq optiq_ends
