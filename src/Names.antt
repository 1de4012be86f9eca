-- ===== src/Names.antt =====
-- `journal_object_type_str` and `journal_state_str` of src/journals.c. An enumeration whose values
-- are not negative is unsigned.
pub mod Distinct
use Prim.Native.String.{String}
use jio.Base.{ℕ, List, [], ◌∷◌, Option, none, some, get_elem?}

abbrev pub type_names : List String
type_names =
    "UNUSED" ∷ "Data" ∷ "Field" ∷ "Entry" ∷ "DataHashTable" ∷ "FieldHashTable" ∷ "EntryArray"
    ∷ "Tag" ∷ []

abbrev pub state_names : List String
state_names = "Offline" ∷ "Online" ∷ "Archived" ∷ []

abbrev pub or_unknown : Option String → String
or_unknown none = "UNKNOWN"
or_unknown (some name) = name

unfoldable pub journal_object_type_str : ℕ → String
journal_object_type_str type = or_unknown (get_elem? type_names type)

unfoldable pub journal_state_str : ℕ → String
journal_state_str state = or_unknown (get_elem? state_names state)
