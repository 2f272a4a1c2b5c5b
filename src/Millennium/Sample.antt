-- ===== src/Millennium/Sample.antt =====
-- A concrete layout of the Millennium messages, with which the theorems are applied.
use fosdk.Common.{[], pos, get_or}
use fosdk.Gwc.Sample.{Table}
use fosdk.Millennium.{Layout}

abbrev pub layout : Layout Table
layout = record {
  header = 4;
  message_length = λ b. get_or b 1 0;
  message_type = λ b. get_or b 3 0;
  app_id = λ t b. 1;
  sequence_no = λ t b. pos (get_or b 4 0);
  unencoded = λ m. [];
}
