-- ===== src/Optiq/Sample.antt =====
-- Concrete parameters of the Optiq connector, with which the theorems are applied.
use fosdk.Common.{pos, get_or}
use fosdk.Optiq.{Codes}
use fosdk.Optiq.Raw.{Packet}

abbrev pub codes : Codes
codes = record {
  logon = pos 100;
  logon_ack = pos 101;
  logon_reject = pos 102;
  logout = pos 103;
  heartbeat = pos 106;
  test_request = pos 107;
  technical_reject = pos 108;
  new_order = pos 1;
  ack = pos 3;
  fill = pos 4;
  kill = pos 5;
  reject = pos 7;
  cancel_request = pos 8;
  cancel_replace = pos 6;
  new_order_ack_type = pos 0;
  replace_ack_type = pos 4;
  regular_logout = pos 0;
}

-- A packet header of two bytes, the second the template.
abbrev pub packet : Packet
packet = record { header = 2; template = λ b. get_or b 1 0; beyond = 0 }
