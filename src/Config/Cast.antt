-- ===== src/Config/Cast.antt =====
-- `TypeCast` between texts and containers: include/Configurator/Configurator.h.
-- yaml-cpp is a parameter: an interface of what the casts call. `none` is an exception. A container
-- is the list of its elements or entries in the order of its iteration; the order in which a map keeps
-- its keys is that of the text here.
pub mod RoundTrip
pub mod Unordered
use siempre.Base.{
  ℕ, Bool, true, false, List, [], ◌∷◌, ◌++◌, Option, none, some, if◌then◌else◌, Bytes, same, ◌>>=◌,
  ◌≡◌, All,
}

pub record Yaml : Type 1 where
  pub Node : Type 0
  -- `YAML::Load`, and `operator<<` of a node.
  pub load : Bytes → Option Node
  pub emit : Node → Bytes
  -- A sequence with the nodes pushed back in order, and `node[i]` for the indexes of a node.
  pub sequence : List Node → Node
  pub elements : Node → List Node
  -- `node[key] = value`, and the keys and values of the iteration.
  pub put : Node → Bytes → Node → Node
  pub members : Node → List (Bytes × Node)
  pub is_map : Node → Bool
  pub is_scalar : Node → Bool
  pub scalar : Node → Bytes

module _ {A : Type 0} where
  -- `std::set::insert`, for an order of the elements.
  abbrev pub insert_set : (A → A → Bool) → A → List A → List A
  insert_set lt a [] = a ∷ []
  insert_set lt a (x ∷ xs) =
      let later = insert_set lt a xs in
      if lt a x then a ∷ x ∷ xs else if lt x a then x ∷ later else x ∷ xs

  abbrev pub insert_all : (A → A → Bool) → List A → List A → List A
  insert_all lt s [] = s
  insert_all lt s (a ∷ xs) = insert_all lt (insert_set lt a s) xs

  -- `map.insert`, which keeps an entry that is there.
  abbrev pub insert_entry : List (Bytes × A) → Bytes → A → List (Bytes × A)
  insert_entry [] k a = (k, a) ∷ []
  insert_entry (x ∷ xs) k a =
      let later = insert_entry xs k a in if same x.0 k then x ∷ xs else x ∷ later

module _ (y : Yaml) {A : Type 0} where
  abbrev pub each : (Bytes → Option A) → List y.Node → Option (List A)
  each cast [] = some []
  each cast (n ∷ ns) = do a ← cast (y.emit n); rest ← each cast ns; some (a ∷ rest)

  -- From a text to a vector or a list.
  pub to_list : (Bytes → Option A) → Bytes → Option (List A)
  to_list cast str = do node ← y.load str; each cast (y.elements node)

  abbrev pub nodes_of : (A → Option Bytes) → List A → Option (List y.Node)
  nodes_of cast [] = some []
  nodes_of cast (a ∷ xs) = do
    str ← cast a
    node ← y.load str
    rest ← nodes_of cast xs
    some (node ∷ rest)

  -- From a vector, a list or a set to a text.
  pub from_list : (A → Option Bytes) → List A → Option Bytes
  from_list cast xs = do nodes ← nodes_of cast xs; some (y.emit (y.sequence nodes))

  -- From a text to a set.
  pub to_set : (A → A → Bool) → (Bytes → Option A) → Bytes → Option (List A)
  to_set lt cast str = do
    node ← y.load str
    xs ← each cast (y.elements node)
    some (insert_all lt [] xs)

  abbrev pub entries_of :
      (Bytes → Option A) → List (Bytes × A) → List (Bytes × y.Node) → Option (List (Bytes × A))
  entries_of cast read [] = some read
  entries_of cast read (m ∷ ms) = do
    a ← cast (y.emit m.1)
    entries_of cast (insert_entry read m.0 a) ms

  -- From a text to a map.
  pub to_map : (Bytes → Option A) → Bytes → Option (List (Bytes × A))
  to_map cast str = do node ← y.load str; entries_of cast [] (y.members node)

  abbrev pub put_all : (A → Option Bytes) → y.Node → List (Bytes × A) → Option y.Node
  put_all cast node [] = some node
  put_all cast node (m ∷ ms) = do
    str ← cast m.1
    value ← y.load str
    put_all cast (y.put node m.0 value) ms

  -- From a map to a text.
  pub from_map : (A → Option Bytes) → List (Bytes × A) → Option Bytes
  from_map cast ms = do node ← put_all cast (y.sequence []) ms; some (y.emit node)
