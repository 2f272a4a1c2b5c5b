-- ===== src/Swx/Sample.antt =====
-- A codec of one-byte messages, each a sequenced data packet, and the codes of the SWX messages, with
-- which the theorems are applied.
use fosdk.Common.{ℕ, true, none, some, List, [], ◌∷◌, pos}
use fosdk.Gwc.Env.{Env, Field, Decoded, success, short}
use fosdk.Gwc.Sample.{Table, sample_cdr}
use fosdk.SoupBin.{SeqNum}
use fosdk.Swx.{Codes}

abbrev pub sequenced : Table
sequenced =
    sample_cdr.set_string (sample_cdr.set_string sample_cdr.empty Field.message_type "S") Field.type
      "A"

abbrev pub decode_one : List ℕ → Decoded Table
decode_one [] = record { status = short; msg = sample_cdr.empty; used = 0 }
decode_one (t ∷ rest) = record { status = success; msg = sequenced; used = 1 }

abbrev pub sample : Env SeqNum
sample = record {
  cdr = sample_cdr;
  Double = ℕ;
  to_integer = λ d. pos d;
  ten_thousandths = λ n. 0;
  set_double = λ m f d. m;
  encode = λ m. some (1 ∷ []);
  decode = λ m b. decode_one b;
  parse_bool = λ t. none;
  format = λ t n. t;
  now = λ es. tt;
  connects = λ es. true;
  logging_on = λ es m. m;
  trader_logging_off = λ es m. m;
  reconnects = λ es t. true;
  uninitialised = pos 0;
}

abbrev pub codes : Codes
codes = record {
  unsequenced = "U";
  enter_order = "O";
  cancel_order = "X";
  replace_order = "U";
  system_event = "S";
  accepted = "A";
  replaced = "U";
  cancelled = "C";
  executed_order = "E";
  rejected_order = "J";
  order_priority_update = "T";
  broken_trade = "B";
  buy_verb = "B";
  sell_verb = "S";
  immediate = pos 0;
  at_close = pos 1;
  at_opening = pos 2;
  post_trading = pos 3;
}
