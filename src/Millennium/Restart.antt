-- ===== src/Millennium/Restart.antt =====
-- A restart of src/millennium/gwcMillennium.cpp: what a connector writes to its cache file, the next one reads.
use fosdk.Common.{
  ℕ, ◌≡◌, ◌==◌, refl, ap, ◌∙◌, Bool, true, Option, none, some, List, [], ◌∷◌, if◌then◌else◌,
  or_else, Holds, subst,
}
use fosdk.Gwc.Env.{Env}
use fosdk.Gwc.Keyed.{lookup, lookup-update}
use fosdk.Gwc.System.{System, Opened, call_back, has_address}
use fosdk.Millennium.{Millennium, SeqNum, Layout, cache_file_item_cb, new_millennium}
use fosdk.Millennium.Control.{Event, run}
use fosdk.Millennium.Init.{with_items, init}
use fosdk.Millennium.Kept.{Kept, stored}
use fosdk.Millennium.Runs.{run-Kept}

-- The number of a partition's item, the last one if there are more, or else what was known before.
unfoldable pub last_of : List SeqNum → ℕ → Option ℕ → Option ℕ
last_of [] k o = o
last_of (i ∷ is) k o = last_of is k (if i.partition == k then some i.seqno else o)

module _ {Msg : Type 0} where
  read_items :
      (is : List SeqNum) (s : Millennium Msg) (k : ℕ)
      → lookup k
          (call_back (λ (t : Millennium Msg) i. (cache_file_item_cb t 16 i).0) is s).cache_map
        ≡ last_of is k (lookup k s.cache_map)
  unfolding call_back last_of cache_file_item_cb
  read_items [] s k = refl
  read_items (i ∷ is) s k =
      read_items is (cache_file_item_cb s 16 i).0 k
      ∙ ap (last_of is k) (lookup-update i.partition k i.seqno s.cache_map)

  -- An init that gets as far as the cache file.
  init-items :
      (Sys : System SeqNum) (o : Opened SeqNum) (s : Millennium Msg)
      → has_address Sys "real_time_host" ≡ true
      → has_address Sys "recovery_host" ≡ true
      → Sys.open_cache (or_else (Sys.get "seqno_cache") "millennium.seqno.cache") 16 ≡ some o
      → (init Sys s).0.cache_map ≡ (with_items Sys o s).cache_map
  unfolding init
  init-items Sys o s a b e = rw (a, b, e, init) refl

module _ (E : Env SeqNum) (L : Layout E.Msg) where
  -- A cache file that gives back the items that were written to it, in items of 16 bytes, and a
  -- system whose properties are there: after any history of a connector whose numbers in memory were
  -- those of the file when it began, and which counted as logged on then if it was up, a new connector that is initialised from the file has for every
  -- partition the number that the old one had in memory.
  pub restart_keeps_numbers :
      (c : ℕ → Option ℕ) (es : List (Event E.Msg)) (s t : Millennium E.Msg)
      → ((k : ℕ) → Kept E L c k s)
      → run E L es s ≡ some t
      → (Sys : System SeqNum) (created : Bool) (items : List SeqNum)
      → has_address Sys "real_time_host" ≡ true
      → has_address Sys "recovery_host" ≡ true
      → Sys.open_cache (or_else (Sys.get "seqno_cache") "millennium.seqno.cache") 16
        ≡ some (record { created = created; item_size = 16; items = items })
      → ((k : ℕ) → last_of items k none ≡ stored c t.trace k)
      → (empty : E.Msg) (u k : ℕ)
      → lookup k (init Sys (new_millennium empty u)).0.cache_map ≡ lookup k t.cache_map
  unfolding with_items new_millennium lookup
  restart_keeps_numbers c es s t kept r Sys created items a b e file empty u k =
      ap (lookup k) (
        init-items Sys (record { created = created; item_size = 16; items = items })
          (new_millennium empty u) a b e)
      ∙ read_items items (new_millennium empty u) k
      ∙ file k
      ∙ (subst (Holds (Kept E L c k)) r (run-Kept E L c k es s (kept k))).0
