-- ===== src/Nodes/Tests.antt =====
-- A control plane, a sensor from an ISO that is deployed, a MIP and a server that is being removed.
use hellogit.Common.{
  Text, codes, true, false, ◌≡◌, refl, none, some, List, [], ◌∷◌, ◌++◌, allocate, fresh,
}
use hellogit.Rest.{ok, http_error}
use hellogit.Nodes.Types.{
  Job, Node, KitStatus, Page, confirm_delete, no_status, disable_refresh_kit_button,
  disable_deploy_kit_button, can_delete_node,
}
use hellogit.Nodes.Handlers.{
  constructed, marked, jobs_loop, update_nodes_data, replied_get_catalog_apps,
}
use hellogit.Nodes.Deletion.{replied_get_catalog_apps_lem}
use hellogit.Nodes.Events.{
  Event, run, nodes_answer, delete_clicked, delete_closed, delete_answer, nodes_message,
  status_message,
}
use hellogit.Nodes.Runs.{Shows, last_arrived, run-Shows}

abbrev node : Text → Text → Text → List Job → Node
node name type deployment jobs = record {
  hostname = name;
  node_type = type;
  deployment_type = deployment;
  jobs = some jobs;
  vpn_status = none;
  is_deployed = none;
  is_removing = none;
}

abbrev plane : Node
plane = node (codes "control") (codes "Control-Plane") (codes "Virtual") []

abbrev sensor : Node
sensor =
    node (codes "sensor1") (codes "Sensor") (codes "Iso")
      (record { job_name = codes "deploy"; complete = true } ∷ [])

abbrev laptop : Node
laptop = node (codes "mip1") (codes "MIP") (codes "Baremetal") []

abbrev server : Node
server = node (codes "server1") (codes "Server") (codes "Virtual") (
    record { job_name = codes "deploy"; complete = false }
    ∷ record { job_name = codes "remove"; complete = false }
    ∷ [])

abbrev kit : List Node
kit = sensor ∷ plane ∷ laptop ∷ server ∷ []

abbrev page : Page
page = update_nodes_data kit constructed

shown :
    (page.nodes ≡ 0 ∷ 3 ∷ [])
    × (page.setup_nodes ≡ 1 ∷ [])
    × (page.iso_sensor_detected ≡ true)
    × ((page.objects 0).is_deployed ≡ some true)
    × ((page.objects 3).is_removing ≡ some true)
unfolding update_nodes_data marked jobs_loop allocate fresh constructed
shown = (refl, refl, refl, refl, refl)

-- A deployed sensor can be deleted.
deletable : (can_delete_node sensor ≡ true) × (can_delete_node plane ≡ false)
unfolding can_delete_node
deletable = (refl, refl)

-- While jobs run on a deployed kit, it can be refreshed and not deployed.
abbrev busy : KitStatus
busy = record no_status { base_kit_deployed = true; jobs_running = true; ready_to_deploy = true }

busy_buttons :
    (disable_refresh_kit_button (record page { kit_status = busy }) ≡ false)
    × (disable_deploy_kit_button (record page { kit_status = busy }) ≡ true)
unfolding disable_refresh_kit_button disable_deploy_kit_button
busy_buttons = (refl, refl)

replied_get_catalog_apps_lem_example :
    let name = (page.objects 0).hostname in
    replied_get_catalog_apps (ok (codes "arkime" ∷ codes "zeek" ∷ [])) 0 page ≡ (
      page,
      confirm_delete 0 (codes "Delete " ++ name ++ codes "?") (
            (codes "Are you sure you want delete " ++ name ++ codes "?")
            ++ codes "\n\n       The following applications will be uninstalled: \n "
            ++ codes ", ")
          ∷ [],
    )
replied_get_catalog_apps_lem_example =
    replied_get_catalog_apps_lem (codes "arkime") (codes "zeek" ∷ []) 0 page

abbrev events : List Event
events =
    nodes_answer (ok kit)
    ∷ delete_clicked 0
    ∷ delete_closed true 0
    ∷ delete_answer (ok (codes "job")) 0
    ∷ status_message busy
    ∷ nodes_message (plane ∷ server ∷ [])
    ∷ nodes_answer http_error
    ∷ []

run-Shows_example : Shows (last_arrived events []) (run events constructed)
unfolding constructed
run-Shows_example = run-Shows events [] constructed (refl, refl, refl)
