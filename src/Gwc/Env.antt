-- ===== src/Gwc/Env.antt =====
-- What the connectors take from code outside this repository: the cdr message, the codec, the
-- clock, the TCP connection's `connect`, the utilities, and the answers of the client's callbacks.
-- Each answer may depend on everything done before it, given as the trace, newest first. The
-- client's callbacks do not call back into the connector.
use fosdk.Common.{◌≡◌, ◌≢◌, Bool, Option, some, String, List, ℕ, ◌≤◌, ◌<◌, ℤ, length}
use fosdk.Gwc.{Effect}

-- The names of the fields that the connectors read and write; the codecs give them their numbers.
pub data Field : Type 0 where
  msg_type reset_seq_num_flag next_expected_msg_seq_num encrypt_method heart_bt_int : Field
  begin_string sender_comp_id target_comp_id msg_seq_num sending_time begin_seq_no : Field
  end_seq_no test_req_id new_seq_no exec_trans_type exec_type cxl_rej_response_to : Field
  transact_time price order_qty ord_type side time_in_force : Field
  template_id schema_id version logical_access_id oe_partition_id last_msg_seq_num : Field
  last_cl_msg_seq_num cl_msg_seq_num ack_type rejected_message_id : Field
  log_out_reason_code order_px order_type order_side : Field
  message_type username password requested_session requested_sequence_number type : Field
  order_price order_quantity order_verb : Field
  user_name new_password message_version reject_code app_id sequence_no response_type : Field
  reason limit_price tif subscription_scope partition_id ref_appl_id appl_beg_msg_id : Field
  appl_end_msg_id appl_total_message_count appl_msg_id appl_resend_flag : Field
  default_cstm_appl_ver_id appl_usage_orders appl_usage_quotes order_routing_indicator : Field
  fix_engine_name fix_engine_version fix_engine_vendor var_text session_reject_reason : Field
  session_status ord_status : Field

-- `cdr`: a message of named fields. A `get` of a field that is not there leaves its target alone.
pub record Cdr : Type 1 where
  pub Msg : Type 0
  pub DateTime : Type 0
  pub empty : Msg
  pub get_string : Msg → Field → Option String
  pub get_integer : Msg → Field → Option ℤ
  pub contains : Msg → Field → Bool
  pub set_string : Msg → Field → String → Msg
  pub set_integer : Msg → Field → ℤ → Msg
  pub set_date_time : Msg → Field → DateTime → Msg

-- A field reads back as it was last set, and setting it leaves the other fields alone.
pub record IsCdr (C : Cdr) : Type 0 where
  pub get_string-set_string_self :
      (m : C.Msg) (f : Field) (v : String) → C.get_string (C.set_string m f v) f ≡ some v
  pub get_string-set_string_ne :
      (m : C.Msg) (f g : Field) (v : String)
      → f ≢ g
      → C.get_string (C.set_string m f v) g ≡ C.get_string m g
  pub get_integer-set_string_ne :
      (m : C.Msg) (f g : Field) (v : String)
      → f ≢ g
      → C.get_integer (C.set_string m f v) g ≡ C.get_integer m g
  pub get_integer-set_integer_self :
      (m : C.Msg) (f : Field) (v : ℤ) → C.get_integer (C.set_integer m f v) f ≡ some v
  pub get_integer-set_integer_ne :
      (m : C.Msg) (f g : Field) (v : ℤ)
      → f ≢ g
      → C.get_integer (C.set_integer m f v) g ≡ C.get_integer m g
  pub get_string-set_integer_ne :
      (m : C.Msg) (f g : Field) (v : ℤ)
      → f ≢ g
      → C.get_string (C.set_integer m f v) g ≡ C.get_string m g
  pub get_integer-set_date_time_ne :
      (m : C.Msg) (f g : Field) (v : C.DateTime)
      → f ≢ g
      → C.get_integer (C.set_date_time m f v) g ≡ C.get_integer m g
  pub get_string-set_date_time_ne :
      (m : C.Msg) (f g : Field) (v : C.DateTime)
      → f ≢ g
      → C.get_string (C.set_date_time m f v) g ≡ C.get_string m g

-- The codec's results.
pub data DecodeStatus : Type 0 where
  error short abort success : DecodeStatus

-- The status, the message after the call, and the number of bytes consumed.
pub record Decoded (Msg : Type 0) : Type 0 where
  pub status : DecodeStatus
  pub msg : Msg
  pub used : ℕ

pub record Env (Cache : Type 0) : Type 1 where
  pub cdr : Cdr
  pub open cdr use *
  pub Double : Type 0
  pub to_integer : Double → ℤ
  -- An integer as a double, divided by 10000.0.
  pub ten_thousandths : ℤ → Double
  pub set_double : Msg → Field → Double → Msg
  -- `none` is any result but GW_CODEC_SUCCESS into a buffer of 1024 bytes.
  pub encode : Msg → Option (List ℕ)
  -- Decoding reads into the message that it is given.
  pub decode : Msg → List ℕ → Decoded Msg
  pub parse_bool : String → Option Bool
  -- A text followed by a number, by `stringstream`.
  pub format : String → ℤ → String
  pub now : List (Effect Msg Cache) → DateTime
  pub connects : List (Effect Msg Cache) → Bool
  pub logging_on : List (Effect Msg Cache) → Msg → Msg
  pub trader_logging_off : List (Effect Msg Cache) → Msg → Msg
  pub reconnects : List (Effect Msg Cache) → String → Bool
  -- What an integer variable that was never set holds.
  pub uninitialised : ℤ

-- Setting a double leaves the other fields alone.
pub record IsDouble {Cache : Type 0} (E : Env Cache) : Type 0 where
  pub get_integer-set_double_ne :
      (m : E.Msg) (f g : Field) (v : E.Double)
      → f ≢ g
      → E.get_integer (E.set_double m f v) g ≡ E.get_integer m g

-- A codec that succeeds has consumed something, and no more than it was given.
pub record IsCodec {Cache : Type 0} (E : Env Cache) : Type 0 where
  pub used_bounds :
      (m : E.Msg) (bytes : List ℕ)
      → (E.decode m bytes).status ≡ success
      → (0 < (E.decode m bytes).used) × ((E.decode m bytes).used ≤ length bytes)
