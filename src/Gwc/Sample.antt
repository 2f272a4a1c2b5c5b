-- ===== src/Gwc/Sample.antt =====
-- A cdr message as two tables, with which the theorems are applied at concrete inputs.
use mathlib.Core.Logic.{ite, if_pos, if_neg}
use fosdk.Common.{
  ℕ, ◌<◌, ◌≤◌, List, [], ◌∷◌, pos, length, arith, ◌≡◌, ◌≢◌, refl, Bool, true, false, ◌||◌, String,
  Option, none, some, ℤ,
}
use fosdk.Gwc.System.{System}
use fosdk.Gwc.Env.{Field, Cdr, IsCdr, Env, IsCodec, Decoded, short, success}

unfoldable pub Field-discrete : Discrete Field
Field-discrete = hlevel

pub record Table : Type 0 where
  pub texts : Field → Option String
  pub numbers : Field → Option ℤ

abbrev is_set {ℓ} : {A : Type ℓ} → Option A → Bool
is_set none = false
is_set (some a) = true

abbrev update {ℓ} : {A : Type ℓ} → (Field → Option A) → Field → A → Field → Option A
update t f v g = ite (Field-discrete f g) (some v) (t g)

update_self {ℓ} : {A : Type ℓ} (t : Field → Option A) (f : Field) (v : A) → update t f v f ≡ some v
update_self t f v = if_pos (Field-discrete f f) (refl {a = f}) (some v) (t f)

update_ne {ℓ} :
    {A : Type ℓ} (t : Field → Option A) (f g : Field) (v : A) → f ≢ g → update t f v g ≡ t g
update_ne t f g v h = if_neg (Field-discrete f g) h (some v) (t g)

abbrev pub sample_cdr : Cdr
sample_cdr = record {
  Msg = Table;
  DateTime = Unit;
  empty = record { texts = λ f. none; numbers = λ f. none };
  get_string = λ m f. m.texts f;
  get_integer = λ m f. m.numbers f;
  contains = λ m f. is_set (m.texts f) || is_set (m.numbers f);
  set_string = λ m f v. record m { texts = update m.texts f v };
  set_integer = λ m f v. record m { numbers = update m.numbers f v };
  set_date_time = λ m f v. m;
}

pub sample_cdr-IsCdr : IsCdr sample_cdr
sample_cdr-IsCdr = record {
  get_string-set_string_self = λ m f v. update_self m.texts f v;
  get_string-set_string_ne = λ m f g v h. update_ne m.texts f g v h;
  get_integer-set_string_ne = λ m f g v h. refl;
  get_integer-set_integer_self = λ m f v. update_self m.numbers f v;
  get_integer-set_integer_ne = λ m f g v h. update_ne m.numbers f g v h;
  get_string-set_integer_ne = λ m f g v h. refl;
  get_integer-set_date_time_ne = λ m f g v h. refl;
  get_string-set_date_time_ne = λ m f g v h. refl;
}

-- A codec of two-byte messages, the first byte the template and the second the sequence number; every
-- message is encoded as the bytes 1 and 2.
abbrev pub decode_two : List ℕ → Decoded Table
decode_two [] = record { status = short; msg = sample_cdr.empty; used = 0 }
decode_two (t ∷ []) = record { status = short; msg = sample_cdr.empty; used = 0 }
decode_two (t ∷ n ∷ rest) = record {
  status = success;
  msg =
      sample_cdr.set_integer (sample_cdr.set_integer sample_cdr.empty Field.template_id (pos t))
        Field.msg_seq_num (pos n);
  used = 2;
}

abbrev pub sample_env : {Cache : Type 0} → Env Cache
sample_env = record {
  cdr = sample_cdr;
  Double = ℕ;
  to_integer = λ d. pos d;
  ten_thousandths = λ n. 0;
  set_double = λ m f d. m;
  encode = λ m. some (1 ∷ 2 ∷ []);
  decode = λ m b. decode_two b;
  parse_bool = λ t. none;
  format = λ t n. t;
  now = λ es. tt;
  connects = λ es. true;
  logging_on = λ es m. m;
  trader_logging_off = λ es m. m;
  reconnects = λ es t. true;
  uninitialised = pos 0;
}

-- A system in which everything succeeds, with a cache file of some items of 16 bytes.
abbrev pub sample_system : {Item : Type 0} → List Item → System Item
sample_system items = record {
  get = λ key. some key;
  get_integer = λ key. none;
  get_bool = λ key. none;
  parse_address = λ h. true;
  parse_number = λ t. some (pos 1);
  parse_bool = λ t. some true;
  loads_dictionary = λ t. true;
  opens_file = λ t. true;
  open_cache = λ name size. some (record { created = false; item_size = 16; items = items });
  creates_mw = true;
  creates_queue = true;
  creates_thread = true;
}

decode_two_bounds :
    (b : List ℕ)
    → (decode_two b).status ≡ success
    → (0 < (decode_two b).used) × ((decode_two b).used ≤ length b)
decode_two_bounds [] h = cc
decode_two_bounds (t ∷ []) h = cc
decode_two_bounds (t ∷ n ∷ rest) h = (omega arith, omega arith)

pub sample_env-IsCodec : {Cache : Type 0} → IsCodec (sample_env {Cache = Cache})
sample_env-IsCodec = record { used_bounds = λ m b h. decode_two_bounds b h }
