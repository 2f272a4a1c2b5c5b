-- ===== src/Gwc/System.antt =====
-- What the `init` functions of the connectors ask for: properties, addresses, a cache file, and the
-- middleware's queue and thread. They have a test for the raw interface in common.
use fosdk.Common.{
  ℕ, Bool, true, false, ◌||◌, ◌&&◌, String, Option, none, some, List, [], ◌∷◌, ℤ, if◌then◌else◌,
  or_else, str_eq,
}
use fosdk.Gwc.{Connector}

-- A cache file: whether it was created, the size of its items, and the items that it calls back with,
-- in their order.
pub record Opened (Item : Type 0) : Type 0 where
  pub created : Bool
  pub item_size : ℕ
  pub items : List Item

-- `get` is `properties::get`; `get_integer` and `get_bool` are its versions that also parse, with
-- `some none` for a value that is not valid. `open_cache` is sbfCacheFile_open, by a name and an
-- item's size, `opens_file` whether a file can be opened for writing, and `loads_dictionary` the
-- codec's answer.
pub record System (Item : Type 0) : Type 0 where
  pub get : String → Option String
  pub get_integer : String → Option (Option ℤ)
  pub get_bool : String → Option (Option Bool)
  pub parse_address : String → Bool
  pub parse_number : String → Option ℤ
  pub parse_bool : String → Option Bool
  pub loads_dictionary : String → Bool
  pub opens_file : String → Bool
  pub open_cache : String → ℕ → Option (Opened Item)
  pub creates_mw : Bool
  pub creates_queue : Bool
  pub creates_thread : Bool

-- The texts that turn raw messages on.
unfoldable pub is_yes : String → Bool
is_yes t =
    str_eq t "Y"
    || (str_eq t "y"
        || (str_eq t "Yes"
            || (str_eq t "yes" || (str_eq t "True" || (str_eq t "true" || str_eq t "1")))))

-- The calls of a callback, one for each item.
unfoldable pub call_back {ℓ} : {S Item : Type ℓ} → (S → Item → S) → List Item → S → S
call_back cb [] s = s
call_back cb (i ∷ is) s = call_back cb is (cb s i)

module _ {Item : Type 0} (Sys : System Item) where
  -- A property that is there and is an address.
  unfoldable pub has_address : String → Bool
  has_address key = elim (Sys.get key) [ none ↦ false | some h ↦ Sys.parse_address h ]

  unfoldable pub with_raw : Connector → Connector
  unfolding is_yes
  with_raw c =
      if is_yes (or_else (Sys.get "enable_raw_messages") "no")
      then record c { raw_enabled = true }
      else c

  unfoldable pub dispatches : Bool
  dispatches = Sys.creates_mw && (Sys.creates_queue && Sys.creates_thread)
