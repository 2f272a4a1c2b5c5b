-- ===== src/Fix/Errors.antt =====
-- When init of src/fix/gwcFix.cpp succeeds.
use fosdk.Common.{◌≡◌, ◌≢◌, true, String, Option, none, some, List, [], ◌∷◌, All, arith, or_else}
use fosdk.Gwc.System.{System, has_address, dispatches}
use fosdk.Fix.{Fix, Seqnums}
use fosdk.Fix.Init.{Attempt, attempts, required, optional, open_cache, raw_messages, steps, init}

module _ {Msg : Type 0} where
  -- An attempt that succeeds in some state.
  abbrev Succeeds : Attempt Msg → Type 0
  Succeeds f = (s : Fix Msg) × ((f s).1 ≡ true)

  attempts-All :
      (fs : List (Attempt Msg)) (s : Fix Msg) → (attempts fs s).1 ≡ true → All Succeeds fs
  unfolding attempts
  attempts-All [] s h = tt
  attempts-All (f ∷ fs) s h = ((s, first f fs s h), attempts-All fs (f s).0 (others f fs s h))
    where
      first :
          (f : Attempt Msg) (fs : List (Attempt Msg)) (s : Fix Msg)
          → (attempts (f ∷ fs) s).1 ≡ true
          → (f s).1 ≡ true
      first f fs s h = ground arith

      others :
          (f : Attempt Msg) (fs : List (Attempt Msg)) (s : Fix Msg)
          → (attempts (f ∷ fs) s).1 ≡ true
          → (attempts fs (f s).0).1 ≡ true
      others f fs s h = ground arith

  required-there :
      (o : Option String) (put : String → Fix Msg → Fix Msg) → Succeeds (required o put) → o ≢ none
  unfolding required
  required-there o put (s, h) = ground arith

  optional-valid :
      {A : Type 0} (o : Option (Option A)) (put : A → Fix Msg → Fix Msg)
      → Succeeds (optional o put)
      → o ≢ some none
  unfolding optional
  optional-valid none put (s, h) = λ e. cc
  optional-valid (some none) put (s, h) = λ e. cc
  optional-valid (some (some v)) put (s, h) = λ e. cc

  open_cache-opens :
      (Sys : System Seqnums)
      → Succeeds (open_cache Sys)
      → Sys.open_cache (or_else (Sys.get "seqno_cache") "fix.seqno.cache") 16 ≢ none
  unfolding open_cache
  open_cache-opens Sys (s, h) = λ e. ground arith

  raw_messages-valid :
      (Sys : System Seqnums)
      → Succeeds (raw_messages Sys)
      → Sys.parse_bool (or_else (Sys.get "enable_raw_messages") "false") ≢ none
  unfolding raw_messages
  raw_messages-valid Sys (s, h) = λ e. ground arith

  -- When init returns true, the property host is an address; those of the sender, the target and the
  -- data dictionary are there, and the codec has loaded the dictionary; the heartbeat's interval and the
  -- three flags, where given, are valid; the cache file could be opened, the flag for raw messages is a Bool,
  -- and the queue is dispatched; when one of these is not so, it returns false.
  pub init_succeeds :
      (Sys : System Seqnums) (s : Fix Msg)
      → (init Sys s).1 ≡ true
      → (has_address Sys "host" ≡ true)
        × (Sys.get "sender_comp_id" ≢ none)
        × (Sys.get "target_comp_id" ≢ none)
        × (Sys.get "data_dictionary" ≢ none)
        × (Sys.loads_dictionary (or_else (Sys.get "data_dictionary") "") ≡ true)
        × (Sys.get_integer "heartbeat_interval" ≢ some none)
        × (Sys.get_bool "reset_sequence_number" ≢ some none)
        × (Sys.get_bool "reset_on_logon" ≢ some none)
        × (Sys.get_bool "set_next_expected_seqnum" ≢ some none)
        × (Sys.open_cache (or_else (Sys.get "seqno_cache") "fix.seqno.cache") 16 ≢ none)
        × (Sys.parse_bool (or_else (Sys.get "enable_raw_messages") "false") ≢ none)
        × (dispatches Sys ≡ true)
  unfolding init steps
  init_succeeds Sys s h =
      let (
        host,
        (
          begin,
          (
            sender,
            (
              interval,
              (
                reset,
                (on_logon, (next, (target, (dictionary, (loads, (cache, (raw, (queue, rest)))))))),
              ),
            ),
          ),
        ),
      ) =
        attempts-All (steps Sys) s h in
      (
        host.1,
        required-there (Sys.get "sender_comp_id") (λ v t. record t { sender_comp_id = v }) sender,
        required-there (Sys.get "target_comp_id") (λ v t. record t { target_comp_id = v }) target,
        required-there (Sys.get "data_dictionary") (λ v t. t) dictionary,
        loads.1,
        optional-valid (Sys.get_integer "heartbeat_interval") (λ n t. record t { heart_bt_int = n })
            interval,
        optional-valid (Sys.get_bool "reset_sequence_number")
            (λ b t. record t { reset_seq_num_flag = b }) reset,
        optional-valid (Sys.get_bool "reset_on_logon") (λ b t. record t { reset_on_logon = b })
            on_logon,
        optional-valid (Sys.get_bool "set_next_expected_seqnum")
            (λ b t. record t { set_next_exp_seq_num = b }) next,
        open_cache-opens Sys cache,
        raw_messages-valid Sys raw,
        queue.1,
      )
