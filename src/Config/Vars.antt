-- ===== src/Config/Vars.antt =====
-- `ConfigVar` and `Config::lookup`: include/Configurator/Configurator.h.
-- The types of the variables are numbers, and so are the values of each type; the conversions of a
-- type are parameters. `none` of `to_str` is an exception. `none` of `from_string` is one that it does
-- not catch, as a thrown text of FileLogAppender, which is no std::exception. What is written to the
-- log is left out.
pub mod Lookup
use siempre.Base.{
  ℕ, Bool, true, false, ◌&&◌, ◌||◌, List, [], ◌∷◌, ◌++◌, Option, none, some, if◌then◌else◌, ◌==◌,
  Bytes, same, is_alpha, within,
}

pub record ConfigVar : Type 0 where
  pub name : Bytes
  pub description : Bytes
  pub type : ℕ
  pub value : ℕ
  pub listeners : List (ℕ × ℕ)

pub set_value : ConfigVar → ℕ → ConfigVar
set_value v x = record v { value = x }

module _ (to_str : ℕ → ℕ → Option Bytes) where
  pub to_string : ConfigVar → Bytes
  to_string v = or_empty (to_str v.type v.value)
    where
      or_empty : Option Bytes → Bytes
      or_empty none = []
      or_empty (some s) = s

-- What a conversion from a text does: it gives a value, throws a std::exception, or throws something
-- else.
pub data Conversion : Type 0 where
  converted : ℕ → Conversion
  refused : Conversion
  escapes : Conversion

module _ (from_str : ℕ → Bytes → Conversion) where
  pub from_string : ConfigVar → Bytes → Option (ConfigVar × Bool)
  unfolding set_value
  from_string v str = assigned (from_str v.type str)
    where
      assigned : Conversion → Option (ConfigVar × Bool)
      assigned (converted x) = some (set_value v x, false)
      assigned refused = some (v, false)
      assigned escapes = none

-- The map of the listeners, by key.
pub put_listener : List (ℕ × ℕ) → ℕ → ℕ → List (ℕ × ℕ)
put_listener [] key cb = (key, cb) ∷ []
put_listener (l ∷ ls) key cb =
    let later = put_listener ls key cb in if l.0 == key then (key, cb) ∷ ls else l ∷ later

pub erase_listener : List (ℕ × ℕ) → ℕ → List (ℕ × ℕ)
erase_listener [] key = []
erase_listener (l ∷ ls) key =
    let later = erase_listener ls key in if l.0 == key then ls else l ∷ later

pub find_listener : List (ℕ × ℕ) → ℕ → Option ℕ
find_listener [] key = none
find_listener (l ∷ ls) key =
    let later = find_listener ls key in if l.0 == key then some l.1 else later

pub add_listener : ConfigVar → ℕ → ℕ → ConfigVar
unfolding put_listener
add_listener v key cb = record v { listeners = put_listener v.listeners key cb }

pub del_listener : ConfigVar → ℕ → ConfigVar
unfolding erase_listener
del_listener v key = record v { listeners = erase_listener v.listeners key }

pub get_listener : ConfigVar → ℕ → Option ℕ
unfolding find_listener
get_listener v key = find_listener v.listeners key

-- `m_datas`.
abbrev pub Datas : Type 0
Datas = List (Bytes × ConfigVar)

pub look_up_base : Datas → Bytes → Option ConfigVar
look_up_base [] name = none
look_up_base (x ∷ xs) name =
    let later = look_up_base xs name in if same x.0 name then some x.1 else later

abbrev pub is_name_char : ℕ → Bool
is_name_char c = is_alpha c || c == b'.' || c == b'_' || within b'0' b'9' c

abbrev pub is_valid_name : Bytes → Bool
is_valid_name [] = true
is_valid_name (c ∷ cs) = is_name_char c && is_valid_name cs

-- What `lookup` gives: a variable of the type asked for, a null pointer, or an exception.
pub data Found : Type 0 where
  var : ConfigVar → Found
  null : Found
  invalid : Found

abbrev pub new_var : Bytes → ℕ → ℕ → Bytes → ConfigVar
new_var name t x description = record {
  name = name;
  description = description;
  type = t;
  value = x;
  listeners = [];
}

pub lookup : Datas → Bytes → ℕ → ℕ → Bytes → Datas × Found
lookup m name t x description = known (look_up_base m name)
  where
    known : Option ConfigVar → Datas × Found
    known (some v) = if v.type == t then (m, var v) else (m, null)
    known none =
        if is_valid_name name
        then (m ++ ((name, new_var name t x description) ∷ []), var (new_var name t x description))
        else (m, invalid)

-- `lookUpBase` and the call of `fromString` on what it finds.
pub assign : (ℕ → Bytes → Conversion) → Datas → Bytes → Bytes → Option Datas
unfolding from_string
assign from_str [] key str = some []
assign from_str (x ∷ xs) key str =
    let later = assign from_str xs key str in
    if same x.0 key then put_read (from_string from_str x.1 str) else put_before later
  where
    put_read : Option (ConfigVar × Bool) → Option Datas
    put_read none = none
    put_read (some r) = some ((x.0, r.0) ∷ xs)

    put_before : Option Datas → Option Datas
    put_before none = none
    put_before (some ys) = some (x ∷ ys)
