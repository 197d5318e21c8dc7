-- ===== src/Scale.antt =====
-- web/frontend/src/app/modules/elasticsearch-scale/elasticsearch-scale.component.ts with its
-- classes: how many nodes of each type Elasticsearch has, and a run that changes them.
pub mod Types
pub mod Posts
pub mod Loading
mod Tests
use text.Mathlib.Text.{◌==◌ as str_eq}
use hellogit.Common.{
  ℕ, zero, ◌==◌, String, Bool, true, false, not, ◌&&◌, ◌||◌, Option, none, some, List, [], ◌∷◌, map,
  if◌then◌else◌,
}
use hellogit.Rest.{Reply, ok}
use hellogit.Scale.Types.{
  NodeType, master, data_node, ml, ingest, Counts, count_of, set_count, Nodes, Slider, Page, Effect,
  check_elastic, get_elastic_nodes, get_elastic_full_config, deploy_elastic, post_elastic_nodes,
  post_elastic_full_config, start_timer, open_editor, cant_run_dialog, in_progress_dialog,
  error_snackbar, Outcome,
}

abbrev pub or_zero : Option ℕ → ℕ
or_zero none = 0
or_zero (some n) = n

abbrev pub node_title : NodeType → String
node_title master = "Master"
node_title data_node = "Data"
node_title ml = "Machine Learning"
node_title ingest = "Ingest"

-- `new SliderControlClass(type, response)`
unfoldable pub new_slider : Nodes → NodeType → Slider
new_slider nodes type = record {
  title = node_title type;
  node_type = type;
  current_count = or_zero (count_of type nodes.counts);
  min_count = 1;
  max_count = or_zero (count_of type nodes.max_scale_counts);
  hidden = or_zero (count_of type nodes.counts) == 0;
}

abbrev pub node_types : List NodeType
node_types = master ∷ data_node ∷ ml ∷ ingest ∷ []

unfoldable pub constructed : Bool → Bool → Page
constructed maintainer admin = record {
  node_sliders = [];
  server_node_count = 0;
  status = false;
  loading = true;
  controller_maintainer = maintainer;
  controller_admin = admin;
}

unfoldable pub ng_on_init : Page → Outcome
ng_on_init p = (p, check_elastic ∷ get_elastic_nodes ∷ [])

-- The loop of `run_elasticsearch_scale_`
unfoldable pub node_return : List Slider → Counts → Counts
node_return [] c = c
node_return (s ∷ ss) c = node_return ss (set_count s.node_type s.current_count c)

abbrev pub no_counts : Counts
no_counts = record { master_count = none; data_count = none; ml_count = none; ingest_count = none }

unfoldable pub run_elasticsearch_scale : Page → Outcome
unfolding node_return
run_elasticsearch_scale p =
    (record p { loading = true }, post_elastic_nodes (node_return p.node_sliders no_counts) ∷ [])

-- The dialog of `open_run_confirm_dialog` closed, with the option to confirm or not.
unfoldable pub run_confirm_closed : Bool → Page → Outcome
unfolding run_elasticsearch_scale
run_confirm_closed false p = (p, [])
run_confirm_closed true p =
    if p.status then (p, cant_run_dialog ∷ []) else run_elasticsearch_scale p

unfoldable pub edit_elasticsearch_configuration : Page → Outcome
edit_elasticsearch_configuration p = (p, get_elastic_full_config ∷ [])

-- `setup_websocket_onbroadcast_`
unfoldable pub on_broadcast : String → String → Page → Outcome
on_broadcast status message p =
    if str_eq status "COMPLETED" && str_eq message "Elastic scaling completed successfully."
    then (record p { status = false; loading = false }, get_elastic_nodes ∷ [])
    else (p, [])

-- `open_text_editor_`, and its dialog closed
unfoldable pub open_text_editor : String → Page → List Effect
open_text_editor elastic p =
    open_editor elastic (p.controller_maintainer || p.controller_admin)
      (not p.controller_maintainer || not p.controller_admin)
    ∷ []

unfoldable pub text_editor_closed : Option String → Page → Outcome
text_editor_closed none p = (p, [])
text_editor_closed (some response) p = (p, post_elastic_full_config response ∷ [])

unfoldable pub replied_get_elastic_nodes : Reply Nodes → Page → Outcome
unfolding new_slider
replied_get_elastic_nodes (ok response) p = (
  record p {
    server_node_count = response.nodes_of_server;
    node_sliders = map (λ type. new_slider response type) node_types;
  },
  [],
)
replied_get_elastic_nodes _ p = (p, error_snackbar "getting elasticsearch nodes" ∷ [])

unfoldable pub replied_post_elastic_nodes : Reply String → Page → Outcome
replied_post_elastic_nodes (ok response) p = (record p { node_sliders = [] }, start_timer ∷ [])
replied_post_elastic_nodes _ p = (p, error_snackbar "changing elasticsearch nodes" ∷ [])

unfoldable pub replied_get_elastic_full_config : Reply String → Page → Outcome
unfolding open_text_editor
replied_get_elastic_full_config (ok elastic) p = (p, open_text_editor elastic p)
replied_get_elastic_full_config _ p = (p, error_snackbar "getting elasticsearch" ∷ [])

unfoldable pub replied_post_elastic_full_config : Reply String → Page → Outcome
replied_post_elastic_full_config (ok response) p =
    (record p { node_sliders = [] }, start_timer ∷ [])
replied_post_elastic_full_config _ p =
    (p, error_snackbar "changing elasticsearch configuration" ∷ [])

-- The timer of `api_deploy_elastic_`, and the answer
unfoldable pub timer_fired : Page → Outcome
timer_fired p = (p, deploy_elastic ∷ [])

unfoldable pub replied_deploy_elastic : Reply String → Page → Outcome
replied_deploy_elastic (ok response) p = (record p { status = true }, [])
replied_deploy_elastic _ p = (p, error_snackbar "deloying elasticsearch" ∷ [])

unfoldable pub replied_check_elastic : Reply String → Page → Outcome
replied_check_elastic (ok status) p =
    if not (str_eq status "Ready") && not (str_eq status "Unknown") && not (str_eq status "None")
    then (record p { status = true }, in_progress_dialog ∷ [])
    else (
      record p { loading = false },
      if str_eq status "None"
          then error_snackbar
              "- You cannot scale Elasticsearch until you have a Kit deployed and Elastic is installed"
            ∷ []
          else if str_eq status "Unknown"
          then error_snackbar "- Unknown Elasticsearch Status" ∷ []
          else [],
    )
replied_check_elastic _ p = (p, error_snackbar "checking elasticsearch status" ∷ [])

-- A slider of the template, which is bound to its count, is moved.
abbrev moved : NodeType → ℕ → Slider → Slider
moved master n s = elim s.node_type [ master ↦ record s { current_count = n } | _ ↦ s ]
moved data_node n s = elim s.node_type [ data_node ↦ record s { current_count = n } | _ ↦ s ]
moved ml n s = elim s.node_type [ ml ↦ record s { current_count = n } | _ ↦ s ]
moved ingest n s = elim s.node_type [ ingest ↦ record s { current_count = n } | _ ↦ s ]

unfoldable pub slide : NodeType → ℕ → Page → Page
slide type n p = record p { node_sliders = map (moved type n) p.node_sliders }

pub data Event : Type 0 where
  slide_to : NodeType → ℕ → Event
  close_run_confirm : Bool → Event
  edit fire : Event
  broadcast : String → String → Event
  close_editor : Option String → Event
  reply_nodes : Reply Nodes → Event
  reply_post_nodes reply_config reply_post_config reply_deploy reply_check : Reply String → Event

unfoldable pub handle : Event → Page → Outcome
handle (slide_to type n) p = (slide type n p, [])
handle (close_run_confirm confirmed) p = run_confirm_closed confirmed p
handle edit p = edit_elasticsearch_configuration p
handle fire p = timer_fired p
handle (broadcast status message) p = on_broadcast status message p
handle (close_editor response) p = text_editor_closed response p
handle (reply_nodes r) p = replied_get_elastic_nodes r p
handle (reply_post_nodes r) p = replied_post_elastic_nodes r p
handle (reply_config r) p = replied_get_elastic_full_config r p
handle (reply_post_config r) p = replied_post_elastic_full_config r p
handle (reply_deploy r) p = replied_deploy_elastic r p
handle (reply_check r) p = replied_check_elastic r p

unfoldable pub run : List Event → Page → Page
run [] p = p
run (e ∷ es) p = run es (handle e p).0
