-- ===== src/Workflow/Types.antt =====
-- The page of catalog-page.component.ts, but its forms of a chart's values.
--
-- The nodes are objects that the processes, the form and the page share, so they live in a store.
use hellogit.Common.{Text, codes, String, ℕ, Bool, Option, List}

pub record Status : Type 0 where
  pub status_host : Option Text
  pub status_deployment : Text
  pub status : Text

-- The fields of a node that the page reads or writes.
pub record Node : Type 0 where
  pub node_id : Text
  pub hostname : Text
  pub node_type : Text
  pub deployment_name : Option Text
  pub node_status : Option Status

pub record Chart : Type 0 where
  pub chart_id : Text
  pub node_affinity : Text
  pub dev_dependent : Option Text

-- A process by its name, and its nodes.
pub record Process : Type 0 where
  pub process : Text
  pub children : List ℕ

-- The form of the first step: the controls selectedProcess and selectedNodes, and whether the nodes
-- are required.
pub record ProcessForm : Type 0 where
  pub selected_process : Text
  pub process_enabled : Bool
  pub selected_nodes : List ℕ
  pub nodes_enabled : Bool
  pub nodes_required : Bool

-- Values that are saved are known by the name of their host.
pub record Page : Type 0 where
  pub chart_info : Option Chart
  pub process_list : List Process
  pub process_form : Option ProcessForm
  pub node_list : List ℕ
  pub nodes : Option (List ℕ)
  pub statuses : Option (List Status)
  pub saved_values : Option (List Text)
  pub set_children_called : Bool
  pub service_node_available : Bool
  pub objects : ℕ → Node
  pub next : ℕ

-- What a chart's request has of a node.
pub record Target : Type 0 where
  pub target_host : Text
  pub target_deployment : Option Text

pub data Effect : Type 0 where
  navigate get_nodes : Effect
  get_chart_info get_chart_statuses get_saved_values : Text → Effect
  get_iface_states : Text → Effect
  -- The chart, the nodes, and the values that the last step has.
  install reinstall : Text → List Target → List (Text × Text) → Effect
  uninstall : Text → List Target → Effect
  confirm : Text → Text → Effect
  display : Text → Effect
  display_text error_snackbar : String → Effect
  error_text : Text → Effect
  -- The handler ends by an exception.
  type_error : Effect

abbrev pub Outcome : Type 0
Outcome = Page × List Effect

abbrev pub server_any_value : Text
server_any_value = codes "Server - Any"
