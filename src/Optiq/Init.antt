-- ===== src/Optiq/Init.antt =====
-- src/optiq/gwcOptiq.cpp: init.
use fosdk.Common.{Bool, false, String, Option, none, some, ℤ, if◌then◌else◌, or_else}
use fosdk.Gwc.System.{System, Opened, call_back, has_address, with_raw, dispatches}
use fosdk.Optiq.{Optiq, Seqnums, cache_file_item_cb, store_seqnums}

-- A property that is there and is a number.
unfoldable pub number_of : System Seqnums → String → Option ℤ
number_of Sys key = elim (Sys.get key) [ none ↦ none | some v ↦ Sys.parse_number v ]

module _ {Msg : Type 0} (Sys : System Seqnums) where
  -- The items go to the callback while the file is opened; a file that was created gets the numbers.
  unfoldable pub with_items : Opened Seqnums → Optiq Msg → Optiq Msg
  unfolding call_back
  with_items o s =
      let t = call_back (λ u i. (cache_file_item_cb u o.item_size i).0) o.items s in
      if o.created then store_seqnums t else t

  unfoldable pub open_cache : Optiq Msg → Optiq Msg × Bool
  unfolding with_items with_raw dispatches
  open_cache s = elim (Sys.open_cache (or_else (Sys.get "seqno_cache") "optiq.seqno.cache") 16) [
    | none ↦ (s, false)
    | some o ↦ let t = with_items o s in (record t { base = with_raw Sys t.base }, dispatches Sys)
  ]

  unfoldable pub init : Optiq Msg → Optiq Msg × Bool
  unfolding open_cache number_of has_address
  init s =
      if has_address Sys "host"
      then elim (number_of Sys "partition") [
        | none ↦ (s, false)
        | some p ↦
            let t = record s { partition = p } in
            elim (number_of Sys "accessId") [
              | none ↦ (t, false)
              | some a ↦ open_cache (record t { access_id = a })
            ]
      ]
      else (s, false)
