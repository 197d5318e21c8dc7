-- ===== src/ConfigMaps/Types.antt =====
-- The state of ConfigmapsComponent. A config map is an object that the table, the dialogs and the
-- requests share, so it has an address.
use hellogit.Common.{
  Text, codes, text_eq, text_leb, is_empty, ℕ, zero, suc, ◌-◌, ◌^◌, ◌==◌, leb, ltb, Bool, false,
  not, ◌&&◌, ◌||◌, Option, none, some, List, [], ◌∷◌, ◌++◌, if◌then◌else◌, every, keep,
}
use hellogit.Common.Sort.{sort}
use hellogit.Subnet.{number}

-- The properties of `data`, in the order in which they were put in.
abbrev pub Data : Type 0
Data = List (Text × Text)

-- `data[name]`, `data[name] = value` and `delete data[name]`
abbrev pub get : Data → Text → Option Text
get [] name = none
get ((k, v) ∷ d) name = if text_eq k name then some v else get d name

abbrev pub put : Text → Text → Data → Data
put name value [] = (name, value) ∷ []
put name value ((k, v) ∷ d) = if text_eq k name then (k, value) ∷ d else (k, v) ∷ put name value d

abbrev pub remove : Text → Data → Data
remove name [] = []
remove name ((k, v) ∷ d) = if text_eq k name then d else (k, v) ∷ remove name d

-- The name of an array index: the digits of a number below 2 ^ 32 - 1, without a leading zero.
unfoldable pub is_array_index : Text → Bool
is_array_index [] = false
is_array_index (c ∷ cs) =
    every (λ d. leb 48 d && leb d 57) (c ∷ cs)
    && (not (c == 48) || is_empty cs)
    && ltb (number (c ∷ cs)) (2 ^ 32 - 1)

-- The order in which `Object.entries` goes through the properties: array indices by their number,
-- and then the others as they were put in.
unfoldable pub property_order : Data → Data
unfolding is_array_index
property_order d =
    sort (λ (e f : Text × Text). leb (number e.0) (number f.0)) (keep (λ e. is_array_index e.0) d)
    ++ keep (λ e. not (is_array_index e.0)) d

-- The entries are compared as texts, a name and its value with a comma between them.
abbrev pub entry_at_most : Text × Text → Text × Text → Bool
entry_at_most e f = text_leb (e.0 ++ codes "," ++ e.1) (f.0 ++ codes "," ++ f.1)

-- The metadata is known by the name; `data` is null if there is none.
pub record ConfigMap : Type 0 where
  pub name : Text
  pub data_entries : Option Data

-- `config_map_visible`: its elements, undefined where nothing was written, and the property that a
-- write at index -1 makes.
pub record RowFlags : Type 0 where
  pub cells : List (Option Bool)
  pub at_minus_one : Option Bool

-- `flags[i]`, undefined past the end
abbrev pub cell_at : List (Option Bool) → ℕ → Option Bool
cell_at [] i = none
cell_at (x ∷ xs) zero = x
cell_at (x ∷ xs) (suc i) = cell_at xs i

-- `flags[i] = b`: past the end the array grows, with holes before the new element.
abbrev pub write_cell : List (Option Bool) → ℕ → Bool → List (Option Bool)
write_cell [] zero b = some b ∷ []
write_cell [] (suc i) b = none ∷ write_cell [] i b
write_cell (x ∷ xs) zero b = some b ∷ xs
write_cell (x ∷ xs) (suc i) b = x ∷ write_cell xs i b

abbrev pub flag_of : RowFlags → Option ℕ → Option Bool
flag_of f none = f.at_minus_one
flag_of f (some i) = cell_at f.cells i

abbrev pub set_flag : RowFlags → Option ℕ → Bool → RowFlags
set_flag f none b = record f { at_minus_one = some b }
set_flag f (some i) b = record f { cells = write_cell f.cells i b }

pub record Page : Type 0 where
  pub config_maps : List ℕ
  pub config_map_visible : RowFlags
  pub loading : Bool
  pub controller_maintainer : Bool
  pub controller_admin : Bool
  pub objects : ℕ → ConfigMap
  pub next : ℕ

pub data Label : Type 0 where
  edited created deleted : Label

-- What the text editor is opened with.
pub record Editor : Type 0 where
  pub show_options : Bool
  pub is_read_only : Bool
  pub title : Text
  pub text : Text
  pub use_language : Text
  pub display_save : Bool
  pub disable_save : Bool
  pub save_message : Text

pub data Effect : Type 0 where
  get_config_maps : Effect
  -- of the config map with this name; the value, the entry's name and the object are for the answer
  get_associated_pods : Text → Option Text → Text → ℕ → Effect
  open_create : ℕ → Effect
  confirm_delete : Text → ℕ → Effect
  -- for an entry of an object, with the pods
  open_editor : Editor → Text → ℕ → List Text → Effect
  -- an object with its data as they are sent, and the pods; the rest is for the answer
  edit_config_map : ℕ → Option Data → List Text → Label → Text → Effect
  success_snackbar error_snackbar : Text → Effect
  type_error : Effect

abbrev pub Outcome : Type 0
Outcome = Page × List Effect
