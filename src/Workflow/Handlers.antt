-- ===== src/Workflow/Handlers.antt =====
-- The first step of catalog-page.component.ts and the run of an action. The values of the last step,
-- which its forms hold, are given to the action.
use hellogit.Common.{
  Text, codes, text_eq, ℕ, ◌==◌, Bool, true, false, not, ◌&&◌, ◌||◌, Option, none, some, List, [],
  ◌∷◌, ◌++◌, map, if◌then◌else◌, update, for_each,
}
use hellogit.Workflow.Types.{
  Status, Node, Chart, Process, ProcessForm, Page, Target, Effect, Outcome, server_any_value,
  navigate, get_chart_info, get_iface_states, install, reinstall, uninstall,
}

abbrev pub process_list_constant : List Process
process_list_constant =
    record { process = codes "install"; children = [] }
    ∷ record { process = codes "reinstall"; children = [] }
    ∷ record { process = codes "uninstall"; children = [] }
    ∷ []

abbrev blank : ℕ → Node
blank _ = record {
  node_id = [];
  hostname = [];
  node_type = [];
  deployment_name = none;
  node_status = none;
}

unfoldable pub constructed : Page
constructed = record {
  chart_info = none;
  process_list = process_list_constant;
  process_form = none;
  node_list = [];
  nodes = none;
  statuses = none;
  saved_values = none;
  set_children_called = false;
  service_node_available = false;
  objects = blank;
  next = 0;
}

-- The end of the url, if it has one.
unfoldable pub ng_on_init : Option Text → Page → Outcome
ng_on_init none p = (p, navigate ∷ [])
ng_on_init (some application) p = (p, get_chart_info application ∷ [])

unfoldable pub navigate_to_catalog : Page → Outcome
navigate_to_catalog p = (p, navigate ∷ [])

unfoldable pub initialize_process_form_group : Page → Page
initialize_process_form_group p = record p {
  process_form = some (record {
    selected_process = [];
    process_enabled = p.set_children_called;
    selected_nodes = [];
    nodes_enabled = false;
    nodes_required = false;
  });
}

-- The control is valid if it is enabled and filled.
abbrev is_chosen : ProcessForm → Bool
is_chosen f = f.process_enabled && not (text_eq f.selected_process [])

unfoldable pub selection_change_process : Chart → ProcessForm → ProcessForm
selection_change_process c f =
    if is_chosen f
    then record f {
      nodes_enabled = true;
      nodes_required = not (text_eq c.node_affinity server_any_value) || f.nodes_required;
    }
    else f

-- `filter_nodes_by_process`: the nodes of the last process of the name, or those of before.
unfoldable pub filter_nodes_by_process : Text → List Process → List ℕ → List ℕ
filter_nodes_by_process name [] node_list = node_list
filter_nodes_by_process name (p ∷ ps) node_list =
    filter_nodes_by_process name ps (if text_eq p.process name then p.children else node_list)

abbrev is_empty_list : List ℕ → Bool
is_empty_list [] = true
is_empty_list (r ∷ rs) = false

unfoldable pub is_config_ready : Chart → ProcessForm → Bool
is_config_ready c f =
    (text_eq f.selected_process (codes "install") || text_eq f.selected_process (codes "reinstall"))
    && (not (is_empty_list f.selected_nodes) || text_eq c.node_affinity server_any_value)

-- `get_iface_states`: a request for each sensor that is selected
unfoldable pub iface_requests : (ℕ → Node) → List ℕ → List Effect
iface_requests o [] = []
iface_requests o (r ∷ rs) =
    let rest = iface_requests o rs in
    if text_eq (o r).node_type (codes "Sensor")
    then get_iface_states (o r).hostname ∷ rest
    else rest

-- `node_hostname.split('.')[0]`
unfoldable pub before_dot : Text → Text
before_dot [] = []
before_dot (c ∷ cs) = let rest = before_dot cs in if c == b'.' then [] else c ∷ rest

-- `get_deployment_name_`, with the name that saved values have, if they do.
unfoldable pub get_deployment_name : Chart → Text → Text → Option Text → Text
unfolding before_dot
get_deployment_name c application node_hostname saved =
    let deployment_name =
      if text_eq c.node_affinity server_any_value
      then application
      else before_dot node_hostname ++ (codes "-" ++ application) in
    elim saved [
      | none ↦ deployment_name
      | some name ↦ if not (text_eq name deployment_name) then name else deployment_name
    ]

-- The loop of `server_any_value_check_`: the nodes, and those that are selected, if any was.
unfoldable pub server_loop :
    List ℕ → List ℕ → (ℕ → Node) × Option (List ℕ) → (ℕ → Node) × Option (List ℕ)
server_loop [] selected so_far = so_far
server_loop (r ∷ rs) selected (o, chosen) =
    let selected' = selected ++ r ∷ [] in
    let rest =
      server_loop rs selected'
        (update o r (record (o r) { hostname = codes "server" }), some selected') in
    let other = server_loop rs selected (o, chosen) in
    if text_eq (o r).node_type (codes "Control-Plane") then rest else other

abbrev select : Option (List ℕ) → ProcessForm → ProcessForm
select none f = f
select (some rs) f = record f { selected_nodes = rs }

-- Whether a status is for a host: for its name, or for no name.
abbrev pub is_for : Text → Option Text → Bool
is_for hostname none = true
is_for hostname (some h) = text_eq h hostname

-- The inner and the outer loop of `set_deployment_name_`
unfoldable pub deployment_for : List Status → Node → Node
deployment_for [] n = n
deployment_for (s ∷ ss) n = deployment_for ss (
    if is_for n.hostname s.status_host
    then record n { deployment_name = some s.status_deployment }
    else n)

unfoldable pub set_deployment_name : List Status → List ℕ → (ℕ → Node) → ℕ → Node
unfolding deployment_for for_each
set_deployment_name statuses rs o = for_each (deployment_for statuses) rs o

abbrev pub targets : (ℕ → Node) → List ℕ → List Target
targets o rs =
    map (λ r. record { target_host = (o r).hostname; target_deployment = (o r).deployment_name }) rs

-- The action `uninstall`, once the chart, its statuses and the nodes have come.
unfoldable pub run_uninstall : Chart → List Status → List ℕ → ProcessForm → Page → Outcome
unfolding server_loop set_deployment_name
run_uninstall c statuses nodes f p =
    let (o, chosen) =
      if text_eq c.node_affinity server_any_value
      then server_loop nodes [] (p.objects, none)
      else (p.objects, none) in
    let g = select chosen f in
    let o' = set_deployment_name statuses g.selected_nodes o in
    (
      record p { objects = o'; process_form = some g },
      uninstall c.chart_id (targets o' g.selected_nodes) ∷ [],
    )

unfoldable pub run_chart_action :
    Chart → List Status → List ℕ → ProcessForm → List (Text × Text) → Page → Outcome
unfolding run_uninstall
run_chart_action c statuses nodes f values p =
    if text_eq f.selected_process (codes "install")
    then (p, install c.chart_id (targets p.objects f.selected_nodes) values ∷ [])
    else if text_eq f.selected_process (codes "reinstall")
    then (p, reinstall c.chart_id (targets p.objects f.selected_nodes) values ∷ [])
    else if text_eq f.selected_process (codes "uninstall")
    then run_uninstall c statuses nodes f p
    else (p, navigate ∷ [])
