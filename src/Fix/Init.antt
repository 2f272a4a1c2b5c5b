-- ===== src/Fix/Init.antt =====
-- src/fix/gwcFix.cpp: init, as a chain of attempts of which the first that fails is the last.
use fosdk.Common.{
  Bool, true, false, not, ◌&&◌, String, Option, none, some, List, [], ◌∷◌, if◌then◌else◌, or_else,
  str_eq,
}
use fosdk.Gwc.System.{System, Opened, call_back, has_address, dispatches}
use fosdk.Fix.{Fix, Seqnums, cache_file_item_cb, store_seqnums}

-- An attempt leaves a state, and the word whether it succeeded.
abbrev pub Attempt : Type 0 → Type 0
Attempt Msg = Fix Msg → Fix Msg × Bool

-- A file that is also that of the inbound messages has one writer for both.
unfoldable pub shares : System Seqnums → String → Bool
shares Sys name =
    let inbound = or_else (Sys.get "messages_in") "" in
    not (str_eq inbound "") && str_eq inbound name

module _ {Msg : Type 0} where
  -- The attempts in their order.
  unfoldable pub attempts : List (Attempt Msg) → Attempt Msg
  attempts [] s = (s, true)
  attempts (f ∷ fs) s = let r = f s in let rest = attempts fs r.0 in if r.1 then rest else r

  -- A property that has to be there.
  unfoldable pub required : Option String → (String → Fix Msg → Fix Msg) → Attempt Msg
  required none put s = (s, false)
  required (some v) put s = (put v s, true)

  -- A property that need not be there, and has to be valid if it is.
  unfoldable pub optional {ℓ} :
      {A : Type ℓ} → Option (Option A) → (A → Fix Msg → Fix Msg) → Attempt Msg
  optional none put s = (s, true)
  optional (some none) put s = (s, false)
  optional (some (some v)) put s = (put v s, true)

  module _ (Sys : System Seqnums) where
    unfoldable pub begin_string_of : Attempt Msg
    begin_string_of s = elim (Sys.get "begin_string") [
      | none ↦ (s, true)
      | some v ↦ (record s { begin_string = v }, true)
    ]

    -- The items go to the callback while the file is opened; a file that was created gets the numbers.
    unfoldable pub with_items : Opened Seqnums → Fix Msg → Fix Msg
    unfolding call_back
    with_items o s =
        let t = call_back (λ u i. (cache_file_item_cb u o.item_size i).0) o.items s in
        if o.created then store_seqnums t else t

    unfoldable pub open_cache : Attempt Msg
    unfolding with_items
    open_cache s = elim (Sys.open_cache (or_else (Sys.get "seqno_cache") "fix.seqno.cache") 16) [
      | none ↦ (s, false)
      | some o ↦ (with_items o s, true)
    ]

    unfoldable pub raw_messages : Attempt Msg
    raw_messages s = elim (Sys.parse_bool (or_else (Sys.get "enable_raw_messages") "false")) [
      | none ↦ (s, false)
      | some b ↦ (record s { base = record s.base { raw_enabled = b } }, true)
    ]

    unfoldable pub messages_in : Attempt Msg
    unfolding attempts optional
    messages_in s = elim (Sys.get "messages_in") [
      | none ↦ (s, true)
      | some name ↦
          attempts
            (optional (Sys.get_integer "messages_in_count") (λ n t. t)
              ∷ optional (Sys.get_integer "messages_in_maxsize") (λ n t. t)
              ∷ (λ t. (record t { msg_in_writer = true }, Sys.opens_file name))
              ∷ [])
            s
    ]

    unfoldable pub messages_out : Attempt Msg
    unfolding attempts optional shares
    messages_out s = elim (Sys.get "messages_out") [
      | none ↦ (s, true)
      | some name ↦
          attempts
            (optional (Sys.get_integer "messages_out_count") (λ n t. t)
              ∷ optional (Sys.get_integer "messages_out_maxsize") (λ n t. t)
              ∷ (λ t.
                  if shares Sys name
                  then (record t { msg_out_writer = t.msg_in_writer }, true)
                  else (record t { msg_out_writer = true }, Sys.opens_file name))
              ∷ [])
            s
    ]

    unfoldable pub steps : List (Attempt Msg)
    unfolding required optional begin_string_of open_cache raw_messages messages_in messages_out
        has_address dispatches
    steps =
        (λ t. (t, has_address Sys "host"))
        ∷ begin_string_of
        ∷ required (Sys.get "sender_comp_id") (λ v t. record t { sender_comp_id = v })
        ∷ optional (Sys.get_integer "heartbeat_interval") (λ n t. record t { heart_bt_int = n })
        ∷ optional (Sys.get_bool "reset_sequence_number")
            (λ b t. record t { reset_seq_num_flag = b })
        ∷ optional (Sys.get_bool "reset_on_logon") (λ b t. record t { reset_on_logon = b })
        ∷ optional (Sys.get_bool "set_next_expected_seqnum")
            (λ b t. record t { set_next_exp_seq_num = b })
        ∷ required (Sys.get "target_comp_id") (λ v t. record t { target_comp_id = v })
        ∷ required (Sys.get "data_dictionary") (λ v t. t)
        ∷ (λ t. (t, Sys.loads_dictionary (or_else (Sys.get "data_dictionary") "")))
        ∷ open_cache
        ∷ raw_messages
        ∷ (λ t. (t, dispatches Sys))
        ∷ messages_in
        ∷ messages_out
        ∷ []

    unfoldable pub init : Attempt Msg
    unfolding attempts steps
    init s = attempts steps s
