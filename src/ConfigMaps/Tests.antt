-- ===== src/ConfigMaps/Tests.antt =====
-- A config map of two entries, one of which is deleted, and the theorems at it.
use hellogit.Common.{
  Text, codes, zero, suc, ◌≡◌, ◌≢◌, refl, true, Bool, not, Option, none, some, List, [], ◌∷◌, arith,
}
use hellogit.Rest.{ok, http_error, unanswered}
use hellogit.ConfigMaps.Types.{
  Data, property_order, is_array_index, ConfigMap, Page, deleted, Label, edit_config_map,
  error_snackbar,
}
use hellogit.ConfigMaps.Actions.{
  constructed, ng_on_init, entry, api_edit_config_map, replied_edit_config_map,
  replied_get_config_maps, allocate_all, edit_entry, toggle_table_row_expansion, text_editor_closed,
  replied_get_associated_pods, get_config_map_index, is_config_map_expansion_row_visible,
}
use hellogit.ConfigMaps.Events
use hellogit.ConfigMaps.Saving.{are_keyed, are_plain, changed, AreSorted, saved_lem, refused_lem}
use hellogit.ConfigMaps.Runs.{run-toggled}
use hellogit.ConfigMaps.Names.{is_word}

abbrev kit : ConfigMap
kit = record {
  name = codes "kit";
  data_entries = some ((codes "b.yml", codes "two") ∷ (codes "a.yml", codes "one") ∷ []);
}

abbrev events : List Events.Event
events =
    Events.reply_config_maps (ok (kit ∷ []))
    ∷ Events.toggle 0
    ∷ Events.reply_pods (some []) (codes "c.txt") 0 (ok (codes "pod" ∷ []))
    ∷ Events.close_editor (codes "c.txt") 0 [] (some (codes "three"))
    ∷ []

abbrev page : Page
page = Events.run events (ng_on_init (constructed true true)).0

page_index : get_config_map_index 0 page ≡ some 0
unfolding Events.run Events.handle ng_on_init constructed replied_get_config_maps allocate_all
    toggle_table_row_expansion replied_get_associated_pods text_editor_closed api_edit_config_map
    edit_entry get_config_map_index
page_index = refl

abbrev listed : Page
listed = (replied_get_config_maps (ok (kit ∷ [])) (ng_on_init (constructed true true)).0).0

deleted_then_none :
    let q = (api_edit_config_map none (codes "b.yml") 0 [] listed).0 in
    ((q.objects 0).data_entries ≡ some ((codes "a.yml", codes "one") ∷ []))
    × (((api_edit_config_map none (codes "a.yml") 0 [] q).0.objects 0).data_entries ≡ none)
unfolding replied_get_config_maps allocate_all api_edit_config_map edit_entry ng_on_init constructed
deleted_then_none = (refl, refl)

listed_keyed : are_keyed (listed.objects 0).data_entries ≡ true
unfolding replied_get_config_maps allocate_all ng_on_init constructed
listed_keyed = refl

differs : suc zero ≢ zero
differs h = omega (arith, h)

page_visible : is_config_map_expansion_row_visible 0 page ≡ some true
unfolding Events.run Events.handle ng_on_init constructed replied_get_config_maps allocate_all
    toggle_table_row_expansion replied_get_associated_pods text_editor_closed api_edit_config_map
    edit_entry get_config_map_index is_config_map_expansion_row_visible
page_visible = refl

run-toggled_example :
    let q = (toggle_table_row_expansion 0 page).0 in
    (b : Bool) × (is_config_map_expansion_row_visible 0 page ≡ some b)
    × (is_config_map_expansion_row_visible 0 q ≡ some (not b))
    × (is_config_map_expansion_row_visible 1 q ≡ is_config_map_expansion_row_visible 1 page)
run-toggled_example = run-toggled events true true 0 1 0 page_index differs

-- Names that JavaScript takes for array indices, and one that it does not.
indices_first :
    property_order ((codes "1a", []) ∷ (codes "9", []) ∷ (codes "10", []) ∷ (codes "007", []) ∷ [])
    ≡ (codes "9", []) ∷ (codes "10", []) ∷ (codes "1a", []) ∷ (codes "007", []) ∷ []
unfolding property_order is_array_index
indices_first = refl

b_word : is_word (codes "b.yml") ≡ true
unfolding is_array_index
b_word = refl

listed_plain : are_plain (listed.objects 0).data_entries ≡ true
unfolding replied_get_config_maps allocate_all ng_on_init constructed is_array_index
listed_plain = refl

saved_lem_example :
    let (q, asked) = api_edit_config_map (some (codes "new")) (codes "b.yml") 0 [] listed in
    let o = replied_edit_config_map deleted (codes "b.yml") 0 (ok tt) q in
    ((d : Option Data) × (l : Label) × (asked ≡ edit_config_map 0 d [] l (codes "b.yml") ∷ [])
      × (entry d
          ≡ changed (entry (listed.objects 0).data_entries) (codes "b.yml") (some (codes "new"))))
    × (entry (o.0.objects 0).data_entries
        ≡ changed (entry (listed.objects 0).data_entries) (codes "b.yml") (some (codes "new")))
    × AreSorted (o.0.objects 0).data_entries
    × (are_keyed (o.0.objects 0).data_entries ≡ true)
    × (o.0.objects 1 ≡ listed.objects 1)
saved_lem_example =
    saved_lem (some (codes "new")) (codes "b.yml") 0 [] listed tt listed_keyed deleted 1 differs
      b_word listed_plain

refused_lem_example :
    let q = (api_edit_config_map (some (codes "new")) (codes "b.yml") 0 [] listed).0 in
    let o = replied_edit_config_map deleted (codes "b.yml") 0 http_error q in
    (entry (o.0.objects 0).data_entries
      ≡ changed (entry (listed.objects 0).data_entries) (codes "b.yml") (some (codes "new")))
    × ((m : Text) × (o.1 ≡ error_snackbar m ∷ []))
refused_lem_example =
    refused_lem (some (codes "new")) (codes "b.yml") 0 [] listed tt listed_keyed deleted http_error
      unanswered
