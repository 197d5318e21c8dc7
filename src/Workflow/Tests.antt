-- ===== src/Workflow/Tests.antt =====
-- Two sensors, one of them deployed, and a service node, for a chart of sensors.
use hellogit.Common.{
  Text, codes, text_leb, ℕ, true, false, ◌||◌, ◌≡◌, refl, none, some, List, [], ◌∷◌, map, keep, any,
  allocate, fresh, includes, arith,
}
use hellogit.Common.Sort.{sort}
use hellogit.Workflow.Types.{Status, Node, Chart, ProcessForm, Page, uninstall}
use hellogit.Workflow.Processes.{
  with_status, status_for, fits, child_status, children_loop, set_children, is_offered, push_child,
  by_id, put_by_id, has_children, set_process_list_children,
}
use hellogit.Workflow.Handlers.{constructed, run_chart_action, get_deployment_name, before_dot}
use hellogit.Workflow.Children.{
  can_install, can_uninstall, is_service, processes_of, set_process_list_children_lem,
}
use hellogit.Workflow.Names.{target_of, naming, last, statuses_of, run_chart_action-targets}

abbrev node : Text → Text → Text → Node
node id name type = record {
  node_id = id;
  hostname = name;
  node_type = type;
  deployment_name = none;
  node_status = none;
}

abbrev response : List Node
response =
    node (codes "2") (codes "sensor2.lan") (codes "Sensor")
    ∷ node (codes "3") (codes "service1.lan") (codes "Service")
    ∷ node (codes "1") (codes "sensor1.lan") (codes "Sensor")
    ∷ []

abbrev chart : Chart
chart = record { chart_id = codes "zeek"; node_affinity = codes "Sensor"; dev_dependent = none }

abbrev statuses : List Status
statuses =
    record {
      status_host = some (codes "sensor1.lan");
      status_deployment = codes "sensor1-zeek";
      status = codes "DEPLOYED";
    }
    ∷ []

abbrev page : Page
page = set_process_list_children text_leb chart statuses response constructed

-- The first sensor is at 0, the second at 1.
listed :
    page.process_list
    ≡ record { process = codes "install"; children = 1 ∷ [] }
      ∷ record { process = codes "reinstall"; children = 0 ∷ [] }
      ∷ record { process = codes "uninstall"; children = 0 ∷ [] }
      ∷ []
unfolding set_process_list_children children_loop fits child_status status_for set_children
    is_offered push_child by_id put_by_id allocate fresh constructed includes
listed = refl

name : get_deployment_name chart (codes "zeek") (codes "sensor1.lan") none ≡ codes "sensor1-zeek"
unfolding get_deployment_name before_dot
name = refl

-- A form, of which the choice of a process is not enabled yet.
abbrev waiting : Page
waiting = record constructed {
  process_form = some (record {
    selected_process = [];
    process_enabled = false;
    selected_nodes = [];
    nodes_enabled = false;
    nodes_required = true;
  });
}

abbrev arrived : Page
arrived = set_process_list_children text_leb chart statuses response waiting

set_process_list_children_lem_example :
    let ns =
      map (with_status statuses) (sort (λ (a b : Node). text_leb a.hostname b.hostname) response) in
    (installs : List ℕ) × (others : List ℕ) × (arrived.process_list
      ≡ keep has_children (processes_of installs others others))
    × (map arrived.objects installs ≡ keep (can_install chart) ns)
    × (map arrived.objects others ≡ keep (can_uninstall chart) ns)
    × (arrived.process_form
        ≡ some (record {
          selected_process = [];
          process_enabled = true;
          selected_nodes = [];
          nodes_enabled = false;
          nodes_required = true;
        }))
    × (arrived.set_children_called ≡ any (fits chart) ns || false)
    × (arrived.service_node_available ≡ any is_service ns || false)
unfolding constructed fits includes
set_process_list_children_lem_example =
    set_process_list_children_lem text_leb chart statuses response waiting refl
      ((refl, (refl, tt)), ((refl, tt), (tt, tt)))

abbrev form : ProcessForm
form = record {
  selected_process = codes "uninstall";
  process_enabled = true;
  selected_nodes = 0 ∷ 1 ∷ [];
  nodes_enabled = true;
  nodes_required = true;
}

run_chart_action-targets_example :
    (run_chart_action chart statuses (0 ∷ 1 ∷ 2 ∷ []) form [] page).1
    ≡ uninstall (codes "zeek") (
        map
          (λ r. target_of (naming (page.objects r) (last (statuses_of statuses (page.objects r)))))
          (0 ∷ 1 ∷ []))
      ∷ []
run_chart_action-targets_example =
    run_chart_action-targets chart statuses (0 ∷ 1 ∷ 2 ∷ []) form [] page refl refl (omega arith)
