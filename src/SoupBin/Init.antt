-- ===== src/SoupBin/Init.antt =====
-- src/soupbin/gwcSoupBin.cpp: init. `size` is the size of a gwcSoupBinSeqNum.
use fosdk.Common.{ℕ, ◌==◌, Bool, false, none, some, if◌then◌else◌, or_else}
use fosdk.Gwc.System.{System, Opened, call_back, has_address, with_raw, dispatches}
use fosdk.SoupBin.{SoupBin, SeqNum, cache_file_item_cb}

module _ {Msg : Type 0} (Sys : System SeqNum) (size : ℕ) where
  -- The items of the cache file go to the callback while it is opened.
  unfoldable pub with_items : Opened SeqNum → SoupBin Msg → SoupBin Msg
  unfolding call_back
  with_items o s = call_back (λ t i. (cache_file_item_cb t (o.item_size == size) i).0) o.items s

  unfoldable pub init : SoupBin Msg → SoupBin Msg × Bool
  unfolding with_items has_address with_raw dispatches
  init s =
      if has_address Sys "host"
      then elim (Sys.open_cache (or_else (Sys.get "seqno_cache") "soupbin.seqno.cache") size) [
        | none ↦ (s, false)
        | some o ↦
            let t = with_items o s in (record t { base = with_raw Sys t.base }, dispatches Sys)
      ]
      else (s, false)
