-- ===== src/ConfigMaps/Actions.antt =====
-- The handlers, the answers of the server, and the dialogs that close.
use hellogit.Common.{
  Text, codes, join_with, ends_with, ℕ, suc, ◌==◌, ltb, Bool, true, false, not, ◌||◌, Option, none,
  some, List, [], ◌∷◌, ◌++◌, if◌then◌else◌, find_index, set_at, update, length, replicate,
}
use hellogit.Common.Sort.{sort}
use hellogit.Rest.{Reply, ok}
use hellogit.ConfigMaps.Types.{
  Data, property_order, flag_of, set_flag, get, put, remove, entry_at_most, ConfigMap, Page, Label,
  edited, created, deleted, get_config_maps, get_associated_pods, open_create, confirm_delete,
  open_editor, edit_config_map, Effect, success_snackbar, error_snackbar, type_error, Outcome,
}

abbrev blank : ℕ → ConfigMap
blank _ = record { name = []; data_entries = none }

unfoldable pub constructed : Bool → Bool → Page
constructed maintainer admin = record {
  config_maps = [];
  config_map_visible = record { cells = []; at_minus_one = none };
  loading = false;
  controller_maintainer = maintainer;
  controller_admin = admin;
  objects = blank;
  next = 0;
}

unfoldable pub ng_on_init : Page → Outcome
ng_on_init p = (record p { loading = true }, get_config_maps ∷ [])

-- `get_config_map_index_`
unfoldable pub get_config_map_index : ℕ → Page → Option ℕ
get_config_map_index r p = find_index (λ s. s == r) p.config_maps

-- `!flag`, where undefined is not true
abbrev pub negation : Option Bool → Bool
negation none = true
negation (some b) = not b

unfoldable pub toggle_table_row_expansion : ℕ → Page → Outcome
unfolding get_config_map_index
toggle_table_row_expansion r p =
    let index = get_config_map_index r p in
    let f = p.config_map_visible in
    (record p { config_map_visible = set_flag f index (negation (flag_of f index)) }, [])

unfoldable pub is_config_map_expansion_row_visible : ℕ → Page → Option Bool
unfolding get_config_map_index
is_config_map_expansion_row_visible r p = flag_of p.config_map_visible (get_config_map_index r p)

unfoldable pub is_config_map_data_defined : ConfigMap → Bool
is_config_map_data_defined c = elim c.data_entries [ none ↦ false | some d ↦ true ]

-- `api_get_associated_pods_`
unfoldable pub api_get_associated_pods : Option Text → Text → ℕ → Page → List Effect
api_get_associated_pods value name r p = get_associated_pods (p.objects r).name value name r ∷ []

-- `config_map.data[name]` of null throws.
abbrev edit_or_throw : Option Data → Text → ℕ → Page → List Effect
edit_or_throw none name r p = type_error ∷ []
edit_or_throw (some d) name r p = get_associated_pods (p.objects r).name (get d name) name r ∷ []

unfoldable pub edit_config_map_data : Text → ℕ → Page → Outcome
edit_config_map_data name r p = (p, edit_or_throw (p.objects r).data_entries name r p)

abbrev text_or_empty : Option Text → Text
text_or_empty none = []
text_or_empty (some t) = t

abbrev pub entry : Option Data → Text → Option Text
entry none name = none
entry (some d) name = get d name

-- `open_text_editor_`
unfoldable pub open_text_editor : Text → ℕ → Text → List Text → Page → List Effect
open_text_editor name r message pods p =
    let maintainer = p.controller_maintainer in
    let admin = p.controller_admin in
    open_editor
      (record {
        show_options = maintainer || admin;
        is_read_only = not maintainer || not admin;
        title =
            (if not maintainer then codes "Viewing" else codes "Editing")
            ++ (codes " config map data: " ++ name);
        text = text_or_empty (entry (p.objects r).data_entries name);
        use_language =
            if ends_with (codes ".yml") name || ends_with (codes ".yaml") name
            then codes "yaml"
            else codes "txt";
        display_save = maintainer || admin;
        disable_save = not maintainer || not admin;
        save_message = message;
      })
      name r pods
    ∷ []

unfoldable pub view_config_map_data : Text → ℕ → Page → Outcome
unfolding open_text_editor
view_config_map_data name r p = (p, open_text_editor name r [] [] p)

unfoldable pub create_config_map_data : ℕ → Page → Outcome
create_config_map_data r p = (p, open_create r ∷ [])

-- The dialog closed: undefined, or a form that is valid or not with its name.
unfoldable pub create_closed : ℕ → Option (Bool × Text) → Page → Outcome
unfolding api_get_associated_pods
create_closed r none p = (p, [])
create_closed r (some (valid, name)) p =
    (p, if valid then api_get_associated_pods (some []) name r p else [])

unfoldable pub delete_config_map_data : Text → ℕ → Page → Outcome
delete_config_map_data name r p = (p, confirm_delete name r ∷ [])

unfoldable pub delete_confirmed : Text → ℕ → Page → Outcome
unfolding api_get_associated_pods
delete_confirmed name r p = (p, api_get_associated_pods none name r p)

abbrev pub or_null : Data → Option Data
or_null [] = none
or_null (e ∷ d) = some (e ∷ d)

abbrev label_of : Option Text → Label
label_of none = created
label_of (some v) = edited

-- What an edit makes of `data`, and what it is called; none where `delete null[name]` throws.
unfoldable pub edit_entry : Option Text → Text → Option Data → Option (Option Data × Label)
edit_entry (some value) name (some d) = some (some (put name value d), label_of (get d name))
edit_entry (some value) name none = some (some ((name, value) ∷ []), created)
edit_entry none name none = none
edit_entry none name (some d) = some (or_null (remove name d), deleted)

abbrev pub write : ℕ → Option Data → Page → Page
write r d p = record p { objects = update p.objects r (record (p.objects r) { data_entries = d }) }

-- `api_edit_config_map_`: `config_map_edit` is the config map itself.
unfoldable pub api_edit_config_map : Option Text → Text → ℕ → List Text → Page → Outcome
unfolding edit_entry
api_edit_config_map value name r pods p = elim (edit_entry value name (p.objects r).data_entries) [
  | none ↦ (p, type_error ∷ [])
  | some (d, label) ↦ (write r d p, edit_config_map r d pods label name ∷ [])
]

unfoldable pub text_editor_closed : Text → ℕ → List Text → Option Text → Page → Outcome
unfolding api_edit_config_map
text_editor_closed name r pods none p = (p, [])
text_editor_closed name r pods (some response) p = api_edit_config_map (some response) name r pods p

-- `Object.entries(data).sort()`, put into a new object one by one.
unfoldable pub sorted : Option Data → Option Data
unfolding property_order
sorted none = none
sorted (some d) = some (if ltb 1 (length d) then sort entry_at_most (property_order d) else d)

abbrev success_text : Label → Text
success_text edited = codes "edited"
success_text created = codes "created"
success_text deleted = codes "deleted"

abbrev pub error_text : Label → Text
error_text edited = codes "editing"
error_text created = codes "creating"
error_text deleted = codes "deleting"

-- The answer to `edit_config_map`: the object is put at its place, its entries are sorted and its
-- row is shown.
unfoldable pub replied_edit_config_map : Label → Text → ℕ → Reply (Unit {0}) → Page → Outcome
unfolding get_config_map_index sorted
replied_edit_config_map label name r (ok response) p =
    let index = get_config_map_index r p in
    let q = record p {
      config_maps = set_at p.config_maps index r;
      config_map_visible = set_flag p.config_map_visible index true;
    } in
    (
      write r (sorted (q.objects r).data_entries) q,
      success_snackbar (success_text label ++ (codes " config map data: " ++ name)) ∷ [],
    )
replied_edit_config_map label name r _ p =
    (p, error_snackbar (error_text label ++ (codes " config map data: " ++ name)) ∷ [])

abbrev pub question : List Text → Text
question pods =
    codes "Are you sure you want to save this configuration? Doing so will cause "
    ++ (join_with (codes ", ") pods
        ++ codes
            " to bounce on your Kubernetes cluster which will bring certain services down for a couple of minutes.")

-- The answer to `get_associated_pods`, the names of the pods: undefined means to delete the entry.
unfoldable pub replied_get_associated_pods :
    Option Text → Text → ℕ → Reply (List Text) → Page → Outcome
unfolding api_edit_config_map open_text_editor
replied_get_associated_pods none name r (ok pods) p = api_edit_config_map none name r pods p
replied_get_associated_pods (some value) name r (ok pods) p =
    (p, open_text_editor name r (question pods) pods p)
replied_get_associated_pods value name r _ p =
    (p, error_snackbar (codes "getting associated pods: " ++ (p.objects r).name) ∷ [])

-- The objects of a response
unfoldable pub allocate_all : List ConfigMap → Page → Page × List ℕ
allocate_all [] p = (p, [])
allocate_all (c ∷ cs) p =
    let (q, rs) =
      allocate_all cs (record p { objects = update p.objects p.next c; next = suc p.next }) in
    (q, p.next ∷ rs)

unfoldable pub replied_get_config_maps : Reply (List ConfigMap) → Page → Outcome
unfolding allocate_all
replied_get_config_maps (ok items) p =
    let (q, rows) = allocate_all items p in
    (
      record q {
        config_maps = rows;
        config_map_visible = record {
          cells = replicate (length rows) (some false);
          at_minus_one = none;
        };
        loading = false;
      },
      [],
    )
replied_get_config_maps _ p = (p, error_snackbar (codes "getting config maps") ∷ [])
