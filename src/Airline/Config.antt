-- ===== src/Airline/Config.antt =====
-- src/airline/Config.cc and Config.h, with `trim` and `split` of common.cc: the configuration file.
--
-- `stod` and its type of numbers are parameters. A C++ exception ends the reading of the file, in
-- the state reached; an access outside `nodeArray` is a fault. Files enter as a function from their
-- names to their text, `none` where a file cannot be opened.

pub mod Range
pub mod Keys
pub mod Safety
pub mod Starts
pub mod Lookup
pub mod Files
pub mod Includes
pub mod Reading
mod Tests
pub mod Lines
use whitefield.Base.{
  ℕ, zero, suc, ◌+◌, ◌-◌, Bool, true, false, ◌&&◌, ◌||◌, Option, none, some, List, [], ◌∷◌, Bytes,
  codes, String, length, modify, replicate, ltb, ◌==◌, if◌then◌else◌,
}
use whitefield.Base.Int.{ℤ, pos, negsuc, ◌<ℤ◌, ◌≤ℤ◌, pred_of}
use whitefield.Base.Text.{behind, before, getline, atoi, stoi, text_eq}
use whitefield.Airline.Dictionary.{Dictionary, put}
use whitefield.Airline.Nodeinfo.{
  Nodeinfo, new_nodeinfo, setkv, set_node_executable, set_node_capture_file, set_promis_mode,
  set_node_position,
}

pub record Config (Real : Type 0) : Type 0 where
  pub node_array : List (Nodeinfo Real)
  pub num_of_nodes : ℕ
  pub keyval : Dictionary

-- The constructor.
abbrev pub new_config : {Real : Type 0} → Config Real
new_config = record { node_array = []; num_of_nodes = 0; keyval = [] }

-- " \t\n\r\f\v".
abbrev is_trimmed : ℕ → Bool
is_trimmed c = c == 32 || c == 9 || c == 10 || c == 13 || c == 12 || c == 11

unfoldable pub ltrim : Bytes → Bytes
ltrim [] = []
ltrim (c ∷ s) = if is_trimmed c then ltrim s else c ∷ s

abbrev trimmed_cons : ℕ → Bytes → Bytes
trimmed_cons c [] = if is_trimmed c then [] else c ∷ []
trimmed_cons c (d ∷ s) = c ∷ d ∷ s

unfoldable pub rtrim : Bytes → Bytes
rtrim [] = []
rtrim (c ∷ s) = trimmed_cons c (rtrim s)

unfoldable pub trim : Bytes → Bytes
unfolding ltrim rtrim
trim s = ltrim (rtrim s)

-- The parts between delimiters; a delimiter at the end closes the last part and opens none.
abbrev extend : ℕ → List Bytes → List Bytes
extend c [] = (c ∷ []) ∷ []
extend c (p ∷ ps) = (c ∷ p) ∷ ps

unfoldable pub split : Bytes → ℕ → List Bytes
split [] delim = []
split (c ∷ s) delim = let parts = split s delim in if c == delim then [] ∷ parts else extend c parts

-- What `getKeyRange` returns: the key, and its three reference parameters.
pub record KeyRange : Type 0 where
  pub key : Bytes
  pub beg_range : ℤ
  pub end_range : ℤ
  pub explicit_range : Bool

-- The statements behind `end_range = atoi(ptr)`.
abbrev check_range : Bytes → ℕ → ℤ → ℤ → KeyRange
check_range key num_of_nodes beg end =
    if end ≤ℤ beg
    then record { key = []; beg_range = beg; end_range = end; explicit_range = true }
    else if pos num_of_nodes ≤ℤ end
    then record {
      key = key;
      beg_range = beg;
      end_range = pred_of num_of_nodes;
      explicit_range = true;
    }
    else record { key = key; beg_range = beg; end_range = end; explicit_range = true }

-- The statements behind the search for '['; `ptr` is the text behind it.
abbrev bracket_range : Bytes → ℕ → Bytes → KeyRange
bracket_range key num_of_nodes ptr = elim (behind b'-' ptr) [
  | none ↦ record { key = key; beg_range = atoi ptr; end_range = atoi ptr; explicit_range = true }
  | some ptr' ↦ check_range key num_of_nodes (atoi ptr) (atoi ptr')
]

unfoldable pub get_key_range : Bytes → ℕ → KeyRange
get_key_range keystr num_of_nodes = elim (behind b'[' keystr) [
  | none ↦ record {
    key = keystr;
    beg_range = pos 0;
    end_range = pred_of num_of_nodes;
    explicit_range = false;
  }
  | some ptr ↦ bracket_range (before b'[' keystr) num_of_nodes ptr
]

-- `for (; i <= end; i++) nodeArray[i].f()`, with the rounds that are left counted down; `none` is
-- an access behind the end of the array.
unfoldable pub write_nodes : {A : Type 0} → (A → A) → ℕ → ℕ → List A → Option (List A)
write_nodes f zero i nodes = some nodes
write_nodes f (suc rounds) i nodes =
    let rest = write_nodes f rounds (i + 1) (modify i f nodes) in
    if ltb i (length nodes) then rest else none

abbrev write_upto : {A : Type 0} → (A → A) → ℤ → ℤ → List A → Option (List A)
write_upto f (negsuc b) end nodes = none
write_upto f (pos b) (negsuc e) nodes = some nodes
write_upto f (pos b) (pos e) nodes = write_nodes f (e + 1 - b) b nodes

-- `for (i = beg; i <= end; i++)`; a negative index is an access in front of the array.
unfoldable pub write_range : {A : Type 0} → (A → A) → ℤ → ℤ → List A → Option (List A)
unfolding write_nodes
write_range f beg end nodes = if end <ℤ beg then some nodes else write_upto f beg end nodes

-- How the reading of a file ends.
pub data Outcome (Real : Type 0) : Type 0 where
  success : Config Real → Outcome Real
  failure : Config Real → Outcome Real
  fault : Outcome Real
  out_of_fuel : Outcome Real

-- `clearNodeArray`: the loop over the nodes has nothing else to undo.
unfoldable pub clear_node_array : {Real : Type 0} → Config Real → Config Real
clear_node_array c = record c { node_array = []; num_of_nodes = 0 }

-- `setNumberOfNodes`, which throws at a negative size, behind the clearing.
unfoldable pub set_number_of_nodes : {Real : Type 0} → ℤ → Config Real → Outcome Real
unfolding clear_node_array
set_number_of_nodes (pos n) c =
    success (record c { node_array = replicate n new_nodeinfo; num_of_nodes = n })
set_number_of_nodes (negsuc n) c = failure (clear_node_array c)

unfoldable pub set : {Real : Type 0} → Bytes → Bytes → Config Real → Config Real
set key val c = record c { keyval = put key val c.keyval }

abbrev stored : {Real : Type 0} → Config Real → Option (List (Nodeinfo Real)) → Outcome Real
stored c none = fault
stored c (some nodes) = success (record c { node_array = nodes })
