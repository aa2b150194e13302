-- ===== src/Plist.antt =====
-- The property lists that src/client.c builds and reads through libplist: the tree of nodes that
-- the `plist_new_*` and `plist_dict_set_item` calls make. A C string is the list of its bytes.
use Prim.Native.String.{String}
use Prim.Native.Char.{code}
use usbmuxd.Prelude.{Bool, List, Option, [], eq_bytes, if◌then◌else◌, none, some, ℕ, ◌∷◌}

mutual
  -- The node types that the code tests for.
  pub data Plist : Type 0 where
    boolean : Bool → Plist
    uint : ℕ → Plist
    string : List ℕ → Plist
    bytes : List ℕ → Plist
    array : Items → Plist
    dict : Fields → Plist

  pub data Items : Type 0 where
    end : Items
    item : Plist → Items → Items

  pub data Fields : Type 0 where
    stop : Fields
    field : List ℕ → Plist → Fields → Fields

-- The bytes of a string literal.
abbrev pub codes : String → List ℕ
codes String.[] = []
codes (String.◌∷◌ c s) = code c ∷ codes s

-- `plist_dict_get_item`: `none` for a missing key and for a node that is no dictionary.
abbrev pub lookup : List ℕ → Fields → Option Plist
lookup key stop = none
lookup key (field k v fs) = if eq_bytes k key then some v else lookup key fs

abbrev pub get_item : Plist → List ℕ → Option Plist
get_item (dict fs) key = lookup key fs
get_item _ key = none

-- `plist_get_uint_val` into a variable that holds 0: a node that is no number leaves it.
abbrev pub uint_val : Plist → ℕ
uint_val (uint n) = n
uint_val _ = 0

-- The bytes of a string node.
abbrev pub string_of : Option Plist → Option (List ℕ)
string_of (some (string s)) = some s
string_of _ = none

abbrev pub data_of : Option Plist → Option (List ℕ)
data_of (some (bytes b)) = some b
data_of _ = none

-- A `uint` node, and 0 for any other.
abbrev pub uint_of : Option Plist → ℕ
uint_of (some (uint n)) = n
uint_of _ = 0

-- `plist_dict_copy_item`: the entry of the source goes to the front, if there is one.
abbrev pub copy_item : Plist → List ℕ → Fields → Fields
copy_item source key fs = elim (get_item source key) [ none ↦ fs | some v ↦ field key v fs ]
