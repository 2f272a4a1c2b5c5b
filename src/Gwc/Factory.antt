-- ===== src/Gwc/Factory.antt =====
-- src/gwcConnector.cpp: gwcConnectorFactory::get; and sbfLogCb of src/gwcConnector.h. The version for
-- Windows, which differs in the library's name, is left out.
use Prim.Native.String.{◌++◌ as str_append}
use fosdk.Common.{
  ◌≡◌, refl, ◌∙◌, ap, ◌↔◌, Bool, String, Option, none, some, List, [], ◌∷◌, arith, if◌then◌else◌,
}

-- The dynamic loader, by the name of a library and, in what was loaded or in NULL, the name of a
-- function; the function that is found there, applied to the logger and the properties, where `none` is
-- NULL; the suffix of a library's name; and whether the logger's `fatal` comes back.
pub record Loader (Connector : Type 0) : Type 1 where
  pub Handle : Type 0
  pub Function : Type 0
  pub suffix : String
  pub dl_open : String → Option Handle
  pub dl_symbol : Option Handle → String → Option Function
  pub call : Function → Option Connector
  pub fatal_returns : Bool

-- The process has ended, a null function was called, or the caller has what `get` returns.
pub data Outcome (Connector : Type 0) : Type 0 where
  aborted null_called : Outcome Connector
  given : Option Connector → Outcome Connector

module _ {Connector : Type 0} (D : Loader Connector) where
  unfoldable pub library : String → String
  library type = str_append "libgwc" (str_append type D.suffix)

  -- What follows a call of `fatal`.
  unfoldable pub after_fatal : Outcome Connector → Outcome Connector
  after_fatal go_on = if D.fatal_returns then go_on else aborted

  unfoldable pub made : Option Connector → Outcome Connector
  unfolding after_fatal
  made none = after_fatal (given none)
  made (some c) = given (some c)

  unfoldable pub called : Option D.Function → Outcome Connector
  unfolding made after_fatal
  called none = after_fatal null_called
  called (some g) = made (D.call g)

  unfoldable pub found : Option D.Handle → Outcome Connector
  unfolding called after_fatal
  found none = after_fatal (called (D.dl_symbol none "getConnector"))
  found (some h) = called (D.dl_symbol (some h) "getConnector")

  unfoldable pub get : String → Outcome Connector
  unfolding found library
  get type = found (D.dl_open (library type))

  -- The library is there, it has a getConnector, and that makes the connector.
  abbrev pub Makes : String → Connector → Type 0
  Makes type c =
      (h : D.Handle) × (g : D.Function) × (D.dl_open (library type) ≡ some h)
      × (D.dl_symbol (some h) "getConnector" ≡ some g)
      × (D.call g ≡ some c)

  called-given :
      (o : Option D.Function) (c : Connector)
      → called o ≡ given (some c)
      → (g : D.Function) × (o ≡ some g) × (D.call g ≡ some c)
  unfolding called made after_fatal
  called-given none c e = ground arith
  called-given (some g) c e = (g, refl, ground arith)

  found-given :
      (o : Option D.Handle) (c : Connector)
      → D.dl_symbol none "getConnector" ≡ none
      → found o ≡ given (some c)
      → (h : D.Handle) × (o ≡ some h)
        × (called (D.dl_symbol (some h) "getConnector") ≡ given (some c))
  unfolding found after_fatal called
  found-given none c n e = absurd (ground (arith, n, e))
  found-given (some h) c n e = (h, refl, e)

  -- Where NULL has no functions: the factory gives a connector just when the library for the type is
  -- there and has a getConnector that makes it, whether the logger's `fatal` comes back or not.
  pub get-Makes :
      (type : String) (c : Connector)
      → D.dl_symbol none "getConnector" ≡ none
      → (get type ≡ given (some c)) ↔ Makes type c
  unfolding get called found made after_fatal
  get-Makes type c n = (there, back)
    where
      there : get type ≡ given (some c) → Makes type c
      there e =
          let f = found-given (D.dl_open (library type)) c n e in
          let g = called-given (D.dl_symbol (some f.0) "getConnector") c f.2 in
          (f.0, g.0, f.1, g.1, g.2)

      back : Makes type c → get type ≡ given (some c)
      back (h, g, a, b, d) = ap found a ∙ ap called b ∙ ap made d

  -- Without the library the process ends, or, if `fatal` comes back, a null function is called.
  get_missing :
      (type : String)
      → D.dl_symbol none "getConnector" ≡ none
      → D.dl_open (library type) ≡ none
      → get type ≡ (if D.fatal_returns then null_called else aborted)
  unfolding get found called after_fatal
  get_missing type n a = ap found a ∙ ground (arith, n)

-- The levels at which the sbf library logs, and those of the connector's logger.
pub data SbfLevel : Type 0 where
  sbf_debug sbf_info sbf_warn sbf_error sbf_other : SbfLevel

pub data Level : Type 0 where
  debug info warn err : Level

-- The lines that sbfLogCb logs; the first case has no break.
unfoldable pub sbf_log_cb : SbfLevel → String → List (Level × String)
sbf_log_cb sbf_debug message = (debug, message) ∷ (info, message) ∷ []
sbf_log_cb sbf_info message = (info, message) ∷ []
sbf_log_cb sbf_warn message = (warn, message) ∷ []
sbf_log_cb sbf_error message = (err, message) ∷ []
sbf_log_cb sbf_other message = []
