-- ===== src/Env.antt =====
-- The command line and the help texts: src/Configurator/Env.cc.
-- A word is the list of its characters, and `argv` is given without the program's name. The map of
-- arguments is an association list with one entry for a key. `none` of a help call is an iterator
-- that runs past the end of the vector. The locks are not modelled, nor the help text that is printed.
mod Parse
mod Helps
mod Tests
use siempre.Base.{
  ℕ, suc, Bool, true, false, ◌&&◌, List, [], ◌∷◌, ◌++◌, Option, none, some, ◌==◌, if◌then◌else◌,
  is_empty, drop, is_some, same,
}

abbrev pub Word : Type 0
Word = List ℕ

abbrev pub Args : Type 0
Args = List (Word × Word)

pub add : Args → Word → Word → Args
add [] k v = (k, v) ∷ []
add (a ∷ m) k v = let rest = add m k v in if same a.0 k then (k, v) ∷ m else a ∷ rest

pub find_arg : Args → Word → Option Word
find_arg [] k = none
find_arg (a ∷ m) k = let rest = find_arg m k in if same a.0 k then some a.1 else rest

pub has : Args → Word → Bool
unfolding find_arg
has m k = is_some (find_arg m k)

pub get : Args → Word → Word → Word
unfolding find_arg
get m k default = value (find_arg m k)
  where
    value : Option Word → Word
    value none = default
    value (some v) = v

abbrev pub is_key : Word → Bool
is_key [] = false
is_key (c ∷ w) = c == 45

-- The loop of `init`, with `lastIsKey` and `key`; a word that is neither a key nor behind one is
-- reported and left out.
pub parse : List Word → Bool → Word → Args → Args
unfolding add
parse [] last_is_key key m = m
parse (w ∷ ws) last_is_key key m =
    let pending = if last_is_key then add m key [] else m in
    let new_key = drop 1 w in
    let after_key =
      parse ws true new_key (if is_empty ws then add pending new_key [] else pending) in
    let after_value = parse ws false key (if last_is_key then add m key w else m) in
    if is_key w then after_key else after_value

-- How `init` ends: it returns with the arguments, or prints the help and exits.
pub data Start : Type 0 where
  started : Args → Start
  helped : Start

pub init : List Word → Start
unfolding parse has
init ws = let m = parse ws false [] [] in if has m (b'h' ∷ []) then helped else started m

abbrev pub Helps : Type 0
Helps = List (Word × Word)

-- The loop that erases: behind an erased entry `++it` steps over the next one.
pub drop_help : Helps → Word → Option Helps
drop_help [] k = some []
drop_help (h ∷ []) k = if same h.0 k then none else some (h ∷ [])
drop_help (h ∷ g ∷ hs) k =
    let skipping = drop_help hs k in
    let going = drop_help (g ∷ hs) k in
    if same h.0 k then cons_help g skipping else cons_help h going
  where
    cons_help : (Word × Word) → Option Helps → Option Helps
    cons_help h none = none
    cons_help h (some hs) = some (h ∷ hs)

pub add_help : Helps → Word → Word → Option Helps
unfolding drop_help
add_help hs k text = append_help (drop_help hs k)
  where
    append_help : Option Helps → Option Helps
    append_help none = none
    append_help (some hs) = some (hs ++ ((k, text) ∷ []))
