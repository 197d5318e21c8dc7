-- ===== src/Workflow/Replies.antt =====
-- The answers to the requests of catalog-page.component.ts.
use hellogit.Common.{
  Text, codes, String, Bool, true, false, Option, none, some, List, [], ◌∷◌, ◌++◌,
}
use hellogit.Rest.{Reply, ok, error_message_class, http_error}
use hellogit.Workflow.Types.{
  Status, Node, Chart, Page, Effect, Outcome, navigate, get_nodes, get_chart_statuses,
  get_saved_values, confirm, display, display_text, error_snackbar, error_text,
}
use hellogit.Workflow.Processes.{set_process_list_children}
use hellogit.Workflow.Handlers.{initialize_process_form_group}

-- The dialog that says that a chart depends on another closed, with the option to go back or not.
unfoldable pub confirm_closed : Bool → Chart → Page → Outcome
confirm_closed true c p = (p, navigate ∷ [])
confirm_closed false c p = (p, get_chart_statuses c.chart_id ∷ [])

unfoldable pub open_confirm_mat_dialog : Chart → Effect
open_confirm_mat_dialog c = elim c.dev_dependent [
  | none ↦ confirm (c.chart_id ++ codes " is dependent on undefined") (
      codes
        "This chart is dependent on undefined and it is not installed, are you sure you want to continue.")
  | some d ↦ confirm (c.chart_id ++ (codes " is dependent on " ++ d)) (
      codes "This chart is dependent on "
      ++ (d ++ codes " and it is not installed, are you sure you want to continue."))
]

unfoldable pub replied_get_chart_info : Reply Chart → Page → Outcome
unfolding initialize_process_form_group
replied_get_chart_info (ok c) p = (
  initialize_process_form_group (record p { chart_info = some c }),
  elim c.dev_dependent [
    | none ↦ get_chart_statuses c.chart_id ∷ []
    | some d ↦ get_chart_statuses d ∷ get_chart_statuses c.chart_id ∷ []
  ],
)
replied_get_chart_info (error_message_class m) p = (p, error_snackbar "getting chart info" ∷ [])
replied_get_chart_info http_error p = (p, error_snackbar "getting chart info" ∷ [])

-- The statuses of the chart that this one depends on, or its own.
unfoldable pub replied_get_chart_statuses : Bool → Chart → Reply (List Status) → Page → Outcome
unfolding open_confirm_mat_dialog
replied_get_chart_statuses true c (ok []) p = (p, open_confirm_mat_dialog c ∷ [])
replied_get_chart_statuses true c (ok (s ∷ ss)) p = (p, [])
replied_get_chart_statuses false c (ok ss) p =
    (record p { statuses = some ss }, get_nodes ∷ get_saved_values c.chart_id ∷ [])
replied_get_chart_statuses dependent c (error_message_class m) p =
    (p, error_snackbar "getting chart statuses" ∷ [])
replied_get_chart_statuses dependent c http_error p =
    (p, error_snackbar "getting chart statuses" ∷ [])

unfoldable pub replied_get_catalog_nodes :
    (Text → Text → Bool) → Chart → List Status → Reply (List Node) → Page → Outcome
unfolding set_process_list_children
replied_get_catalog_nodes at_most c statuses (ok response) p =
    (set_process_list_children at_most c statuses response p, [])
replied_get_catalog_nodes at_most c statuses (error_message_class m) p =
    (p, error_snackbar "getting kit nodes" ∷ [])
replied_get_catalog_nodes at_most c statuses http_error p =
    (p, error_snackbar "getting kit nodes" ∷ [])

abbrev filled : List Text → Option (List Text)
filled [] = none
filled (v ∷ vs) = some (v ∷ vs)

unfoldable pub replied_get_saved_values : Reply (List Text) → Page → Outcome
replied_get_saved_values (ok response) p = (record p { saved_values = filled response }, [])
replied_get_saved_values (error_message_class m) p = (p, error_snackbar "getting saved values" ∷ [])
replied_get_saved_values http_error p = (p, error_snackbar "getting saved values" ∷ [])

abbrev queued : String → String → Chart → Reply Text → Page → Outcome
queued what action c (ok job) p = (p, display (c.chart_id ++ codes what) ∷ navigate ∷ [])
queued what action c (error_message_class m) p = (p, display_text m ∷ [])
queued what action c http_error p =
    (p, error_text (codes "catalog application " ++ (c.chart_id ++ codes action)) ∷ [])

unfoldable pub replied_catalog_install : Chart → Reply Text → Page → Outcome
replied_catalog_install c reply p = queued " Installation Queued" " install" c reply p

unfoldable pub replied_catalog_reinstall : Chart → Reply Text → Page → Outcome
replied_catalog_reinstall c reply p = queued " Reinstallation Queued" " reinstall" c reply p

unfoldable pub replied_catalog_uninstall : Chart → Reply Text → Page → Outcome
replied_catalog_uninstall c reply p = queued " Uninstall Queued" " uninstall" c reply p
