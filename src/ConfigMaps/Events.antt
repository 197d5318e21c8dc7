-- ===== src/ConfigMaps/Events.antt =====
-- What can happen to the page, one handler at a time, in any order.
use hellogit.Common.{Text, ℕ, Bool, Option, List, [], ◌∷◌}
use hellogit.Rest.{Reply}
use hellogit.ConfigMaps.Types.{ConfigMap, Page, Label, Outcome}
use hellogit.ConfigMaps.Actions.{
  toggle_table_row_expansion, edit_config_map_data, view_config_map_data, create_config_map_data,
  create_closed, delete_config_map_data, delete_confirmed, text_editor_closed,
  replied_edit_config_map, replied_get_associated_pods, replied_get_config_maps,
}

pub data Event : Type 0 where
  toggle create : ℕ → Event
  edit_data view_data delete_data confirm : Text → ℕ → Event
  close_create : ℕ → Option (Bool × Text) → Event
  close_editor : Text → ℕ → List Text → Option Text → Event
  reply_edit : Label → Text → ℕ → Reply (Unit {0}) → Event
  reply_pods : Option Text → Text → ℕ → Reply (List Text) → Event
  reply_config_maps : Reply (List ConfigMap) → Event

unfoldable pub handle : Event → Page → Outcome
handle (toggle r) p = toggle_table_row_expansion r p
handle (create r) p = create_config_map_data r p
handle (edit_data name r) p = edit_config_map_data name r p
handle (view_data name r) p = view_config_map_data name r p
handle (delete_data name r) p = delete_config_map_data name r p
handle (confirm name r) p = delete_confirmed name r p
handle (close_create r response) p = create_closed r response p
handle (close_editor name r pods response) p = text_editor_closed name r pods response p
handle (reply_edit label name r reply) p = replied_edit_config_map label name r reply p
handle (reply_pods value name r reply) p = replied_get_associated_pods value name r reply p
handle (reply_config_maps reply) p = replied_get_config_maps reply p

unfoldable pub run : List Event → Page → Page
run [] p = p
run (e ∷ es) p = run es (handle e p).0
