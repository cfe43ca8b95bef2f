-- ===== src/Logger/Pattern.antt =====
-- The pattern of a formatter: `LogFormatter::init` of src/Logger/Logger.cc.
-- The loops over indexes are recursion on the text behind the index. The outer loop takes fuel,
-- since it goes on behind a directive; `m_error`, which nothing reads, is left out.
pub mod Print
pub mod Total
mod Tests
use siempre.Base.{
  ℕ, zero, suc, ◌+◌, ◌≡◌, ◌≤◌, Bool, true, false, not, ◌&&◌, ◌||◌, List, [], ◌∷◌, ◌++◌, Option,
  none, some, ◌==◌, if◌then◌else◌, is_empty, length, Bytes, codes, same, is_alpha, map,
}

-- An entry of `vec`: literal text (0), or a directive with its format (1).
pub data Token : Type 0 where
  text : Bytes → Token
  directive : Bytes → Bytes → Token

-- What the loop over a directive finds: its name, its format, and the text behind it; or a format
-- that is not closed.
pub data Scan : Type 0 where
  found : Bytes → Bytes → Bytes → Scan
  unclosed : Scan

pub scan_format : Bytes → Bytes → Bytes → Scan
scan_format name fmt [] = unclosed
scan_format name fmt (c ∷ cs) =
    let later = scan_format name (fmt ++ (c ∷ [])) cs in
    if c == b'}' then found name fmt cs else later

pub scan_name : Bytes → Bytes → Scan
unfolding scan_format
scan_name name [] = found name [] []
scan_name name (c ∷ cs) =
    let later = scan_name (name ++ (c ∷ [])) cs in
    if c == b'{'
    then scan_format name [] cs
    else if is_alpha c || c == b'}'
    then later
    else found name [] (c ∷ cs)

abbrev pub flush : Bytes → List Token → List Token
flush [] ts = ts
flush (c ∷ nstr) ts = text (c ∷ nstr) ∷ ts

abbrev pub starts_percent : Bytes → Bool
starts_percent [] = false
starts_percent (c ∷ cs) = c == b'%'

abbrev pub pattern_error : Bytes
pattern_error = codes "<<pattern_error>>"

abbrev pub Parser : Type 0
Parser = Bytes → Bytes → Option (List Token)

abbrev pub prepend : (List Token → List Token) → Option (List Token) → Option (List Token)
prepend f none = none
prepend f (some ts) = some (f ts)

-- Behind a directive that is not closed the loop goes on with its first character as text.
abbrev pub after_scan : Parser → Bytes → Bytes → Scan → Option (List Token)
after_scan go nstr cs (found name fmt rest) =
    prepend (λ ts. flush nstr (directive name fmt ∷ ts)) (go [] rest)
after_scan go nstr cs unclosed = prepend (λ ts. text pattern_error ∷ ts) (go nstr cs)

-- The outer loop, with the literal text `nstr` read so far.
pub parse : ℕ → Bytes → Bytes → Option (List Token)
unfolding scan_name
parse fuel nstr [] = some (flush nstr [])
parse zero nstr (c ∷ cs) = none
parse (suc fuel) nstr (c ∷ cs) =
    let literal = parse fuel (nstr ++ (c ∷ [])) cs in
    let scanned = after_scan (λ n s. parse fuel n s) nstr cs (scan_name [] cs) in
    if not (c == b'%') then literal else if starts_percent cs then literal else scanned

pub tokens : Bytes → Option (List Token)
unfolding parse
tokens pattern = parse (length pattern) [] pattern

pub data Item : Type 0 where
  string_item : Bytes → Item
  message_item level_item elapse_item name_item thread_id_item new_line_item : Item
  date_time_item : Bytes → Item
  file_name_item line_item tab_item fiber_id_item thread_name_item : Item

abbrev pub default_date : Bytes
default_date = codes "%Y-%m-%d %H:%M:%S"

pub new_date_time : Bytes → Item
new_date_time fmt = date_time_item (if is_empty fmt then default_date else fmt)

abbrev pub error_format : Bytes → Bytes
error_format name = codes "<<error_format %" ++ (name ++ codes ">>")

abbrev letter_item : ℕ → Bytes → Option Item
unfolding new_date_time
letter_item c fmt =
    if c == b'm'
    then some message_item
    else if c == b'p'
    then some level_item
    else if c == b'r'
    then some elapse_item
    else if c == b'c'
    then some name_item
    else if c == b't'
    then some thread_id_item
    else if c == b'n'
    then some new_line_item
    else if c == b'd'
    then some (new_date_time fmt)
    else if c == b'f'
    then some file_name_item
    else if c == b'l'
    then some line_item
    else if c == b'T'
    then some tab_item
    else if c == b'F'
    then some fiber_id_item
    else if c == b'N'
    then some thread_name_item
    else none

-- `s_format_items.find`.
pub find_item : Bytes → Bytes → Option Item
unfolding letter_item
find_item [] fmt = none
find_item (c ∷ []) fmt = letter_item c fmt
find_item (c ∷ d ∷ cs) fmt = none

pub item_of : Token → Item
unfolding find_item
item_of (text s) = string_item s
item_of (directive name fmt) = or_error (find_item name fmt)
  where
    or_error : Option Item → Item
    or_error none = string_item (error_format name)
    or_error (some i) = i

abbrev pub map_option : (List Token → List Item) → Option (List Token) → Option (List Item)
map_option f none = none
map_option f (some ts) = some (f ts)

-- The items of a pattern.
pub init : Bytes → Option (List Item)
unfolding tokens item_of
init pattern = map_option (map item_of) (tokens pattern)
