-- ===== src/Eti/Init.antt =====
-- src/eti/gwcEti.cpp: getConnector and init.
use Prim.Native.String.{◌++◌ as str_append}
use fosdk.Common.{ℕ, Bool, false, Option, none, some, List, if◌then◌else◌, or_else, str_eq}
use fosdk.Gwc.System.{System, Opened, call_back, has_address, with_raw, dispatches}
use fosdk.Eti.{Eti, cache_file_item_cb}

-- The codecs of the connectors that there are.
pub data Codec : Type 0 where
  xetra eurex : Codec

unfoldable pub get_connector : System (List ℕ) → Option Codec
get_connector Sys = elim (Sys.get "venue") [
  | none ↦ none
  | some venue ↦
      if str_eq venue "xetra" then some xetra else if str_eq venue "eurex" then some eurex else none
]

module _ {Msg : Type 0} (Sys : System (List ℕ)) where
  -- The items of the cache file go to the callback while it is opened.
  unfoldable pub with_items : Opened (List ℕ) → Eti Msg → Eti Msg
  unfolding call_back
  with_items o s = call_back (λ t i. (cache_file_item_cb t o.item_size i).0) o.items s

  unfoldable pub init : Eti Msg → Eti Msg × Bool
  unfolding with_items has_address with_raw dispatches
  init s =
      if has_address Sys "host"
      then elim (Sys.get "venue") [
        | none ↦ (s, false)
        | some v ↦
            elim (Sys.open_cache
              (or_else (Sys.get "applMsgId_cache") (str_append v ".applMsgId.cache")) 16) [
                | none ↦ (s, false)
                | some o ↦
                    let t = with_items o s in
                    (record t { base = with_raw Sys t.base }, dispatches Sys)
              ]
      ]
      else (s, false)
