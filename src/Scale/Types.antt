-- ===== src/Scale/Types.antt =====
-- The state of ElasticsearchScaleComponent and its classes.
use hellogit.Common.{ℕ, String, Bool, Option, some, List}

-- The keys of NodeTitleEnum
pub data NodeType : Type 0 where
  master data_node ml ingest : NodeType

-- A count by type; a field that is not there is undefined.
pub record Counts : Type 0 where
  pub master_count : Option ℕ
  pub data_count : Option ℕ
  pub ml_count : Option ℕ
  pub ingest_count : Option ℕ

abbrev pub count_of : NodeType → Counts → Option ℕ
count_of master c = c.master_count
count_of data_node c = c.data_count
count_of ml c = c.ml_count
count_of ingest c = c.ingest_count

abbrev pub set_count : NodeType → ℕ → Counts → Counts
set_count master n c = record c { master_count = some n }
set_count data_node n c = record c { data_count = some n }
set_count ml n c = record c { ml_count = some n }
set_count ingest n c = record c { ingest_count = some n }

pub record Nodes : Type 0 where
  pub counts : Counts
  pub max_scale_counts : Counts
  pub nodes_of_server : ℕ

pub record Slider : Type 0 where
  pub title : String
  pub node_type : NodeType
  pub current_count : ℕ
  pub min_count : ℕ
  pub max_count : ℕ
  pub hidden : Bool

pub record Page : Type 0 where
  pub node_sliders : List Slider
  pub server_node_count : ℕ
  pub status : Bool
  pub loading : Bool
  pub controller_maintainer : Bool
  pub controller_admin : Bool

pub data Effect : Type 0 where
  check_elastic get_elastic_nodes get_elastic_full_config deploy_elastic : Effect
  post_elastic_nodes : Counts → Effect
  post_elastic_full_config : String → Effect
  -- `setTimeout` to deploy
  start_timer : Effect
  -- the text, and whether it can be saved, or only read
  open_editor : String → Bool → Bool → Effect
  cant_run_dialog in_progress_dialog : Effect
  error_snackbar : String → Effect

abbrev pub Outcome : Type 0
Outcome = Page × List Effect
