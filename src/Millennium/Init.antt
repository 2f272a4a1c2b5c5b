-- ===== src/Millennium/Init.antt =====
-- src/millennium/gwcMillennium.cpp: getConnector and init.
use fosdk.Common.{Bool, false, Option, none, some, if◌then◌else◌, or_else, str_eq}
use fosdk.Gwc.System.{System, Opened, call_back, has_address, with_raw, dispatches}
use fosdk.Millennium.{Millennium, SeqNum, cache_file_item_cb}

-- The codecs of the connectors that there are.
pub data Codec : Type 0 where
  oslo lse turquoise jse borsa_italiana : Codec

unfoldable pub get_connector : System SeqNum → Option Codec
get_connector Sys = elim (Sys.get "venue") [
  | none ↦ none
  | some venue ↦
      if str_eq venue "oslo"
      then some oslo
      else if str_eq venue "lse"
      then some lse
      else if str_eq venue "turqoise"
      then some turquoise
      else if str_eq venue "jse"
      then some jse
      else if str_eq venue "borsa"
      then some borsa_italiana
      else none
]

module _ {Msg : Type 0} (Sys : System SeqNum) where
  -- The items of the cache file go to the callback while it is opened.
  unfoldable pub with_items : Opened SeqNum → Millennium Msg → Millennium Msg
  unfolding call_back
  with_items o s = call_back (λ t i. (cache_file_item_cb t o.item_size i).0) o.items s

  unfoldable pub init : Millennium Msg → Millennium Msg × Bool
  unfolding with_items has_address with_raw dispatches
  init s =
      if has_address Sys "real_time_host"
      then (if has_address Sys "recovery_host"
          then elim (Sys.open_cache (or_else (Sys.get "seqno_cache") "millennium.seqno.cache") 16) [
            | none ↦ (s, false)
            | some o ↦
                let t = with_items o s in (record t { base = with_raw Sys t.base }, dispatches Sys)
          ]
          else (s, false))
      else (s, false)
