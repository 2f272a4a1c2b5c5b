-- ===== src/Examples.antt =====
-- src/examples: the programs that use a connector through src/gwcConnector.h. What they have in common:
-- how they fill messages and orders, the calls that they make, and how they end. Log lines are
-- left out, but where they are all that a callback does.
pub mod Bme
pub mod Lse
pub mod Swx
pub mod Optiq
pub mod Xetra
pub mod LseRaw
pub mod OptiqRaw
pub mod Orders
pub mod Exits
pub mod Ends
mod Tests
use fosdk.Common.{
  ℕ, ◌≡◌, Bool, true, false, String, Option, none, some, List, [], ◌∷◌, ℤ, if◌then◌else◌,
}
use fosdk.Gwc.Env.{Env, Field}
use fosdk.Gwc.Order.{Order}
use fosdk.Gwc.Wait.{Wait}

-- What stands in the codecs' headers, and the doubles that are written as decimals.
pub record Names (Double : Type 0) : Type 0 where
  pub field : String → Field
  pub constant : String → ℤ
  pub decimal : String → Double

-- A value to set in a message.
pub data Value (Double : Type 0) : Type 0 where
  text : String → Value Double
  number : ℤ → Value Double
  real : Double → Value Double

-- What a callback asks of the connector.
pub data Call (Msg Double : Type 0) : Type 0 where
  modifies cancels : Order Msg Double → Call Msg Double
  modifies_cdr cancels_cdr : Msg → Call Msg Double

-- The end of `main`: an exit code, with the connector if there is one, or a wait that does not end.
pub data Ending (S : Type 0) : Type 0 where
  exits : ℕ → Option S → Ending S
  blocked : Ending S

-- What `main` calls: the logger, the utilities, the factory, and the connector, of which `S` is the
-- state. While `main` waits or sleeps the dispatch thread goes on; `none` is a wait without an end.
pub record Api (S Msg Double : Type 0) : Type 0 where
  pub configure : Bool
  pub find_file : String → Option String
  -- The properties are those that the program sets for the connector.
  pub get : String → List (String × String) → Option S
  pub init : List (String × String) → S → S × Bool
  pub start : Bool → S → S × Bool
  pub wait_for : Wait → S → Option S
  pub trader_logon : Msg → S → S × Bool
  pub send_order : Order Msg Double → S → S × Bool
  pub send_raw : List ℕ → S → S × Bool
  pub stop : S → S × Bool
  pub sleep : ℕ → S → S

module _ {S : Type 0} where
  -- `if (!call) errx (1, ...)`, and what follows.
  unfoldable pub or_exit : S × Bool → (S → Ending S) → Ending S
  or_exit r next = if r.1 then next r.0 else exits 1 (some r.0)

  unfoldable pub waited : Option S → (S → Ending S) → Ending S
  waited none next = blocked
  waited (some s) next = next s

  unfoldable pub given : Option S → (S → Ending S) → Ending S
  given none next = exits 1 none
  given (some s) next = next s

module _ {S Msg Double : Type 0} (A : Api S Msg Double) where
  -- From the factory to the logon, as all the programs do it.
  unfoldable pub logged_on : String → List (String × String) → (S → Ending S) → Ending S
  unfolding or_exit waited given
  logged_on type props next = given (A.get type props) (λ s.
      or_exit (A.init props s)
        (λ t. or_exit (A.start false t) (λ u. waited (A.wait_for Wait.for_logon u) next)))

module _ {Cache : Type 0} (E : Env Cache) (N : Names E.Double) where
  unfoldable pub set_value : String → Value E.Double → E.Msg → E.Msg
  set_value name (text v) m = E.set_string m (N.field name) v
  set_value name (number v) m = E.set_integer m (N.field name) v
  set_value name (real v) m = E.set_double m (N.field name) v

  -- One field after the other.
  unfoldable pub fill : List (String × Value E.Double) → E.Msg → E.Msg
  unfolding set_value
  fill [] m = m
  fill ((name, v) ∷ vs) m = fill vs (set_value name v m)

  unfoldable pub fill_order :
      List (String × Value E.Double) → Order E.Msg E.Double → Order E.Msg E.Double
  unfolding fill
  fill_order vs o = record o { msg = fill vs o.msg }

  -- `gwcOrder order;`: the message is empty, and the other members, for which the class has no
  -- constructor, are what they are.
  abbrev pub new_order : Order E.Msg E.Double → Order E.Msg E.Double
  new_order left = record left { msg = E.empty }
