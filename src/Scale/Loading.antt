-- ===== src/Scale/Loading.antt =====
-- The progress bar and the flag of a run in progress.
use text.Mathlib.Text.{◌==◌ as str_eq}
use hellogit.Common.{
  ◌≡◌, refl, inl, inr, String, true, false, ◌&&◌, none, some, List, [], ◌∷◌, All, Bool-cases,
}
use hellogit.Rest.{ok}
use hellogit.Scale.Types.{Page, post_elastic_nodes}
use hellogit.Scale.{
  Event, close_run_confirm, edit, fire, broadcast, close_editor, reply_nodes, reply_post_nodes,
  reply_config, reply_post_config, reply_deploy, reply_check, slide_to, handle, run,
  run_elasticsearch_scale, run_confirm_closed, edit_elasticsearch_configuration, on_broadcast,
  text_editor_closed, replied_get_elastic_nodes, replied_post_elastic_nodes,
  replied_get_elastic_full_config, replied_post_elastic_full_config, timer_fired,
  replied_deploy_elastic, slide, no_counts, node_return,
}

-- Neither the broadcast of a scaling that has ended, nor the answer to the check of the start.
abbrev pub IsOther : Event → Type 0
IsOther (broadcast status message) =
    (str_eq status "COMPLETED" && str_eq message "Elastic scaling completed successfully.") ≡ false
IsOther (reply_check r) = ⊥
IsOther _ = Unit

handle-loading :
    (e : Event) (p : Page) → IsOther e → p.loading ≡ true → (handle e p).0.loading ≡ true
unfolding handle run_elasticsearch_scale run_confirm_closed edit_elasticsearch_configuration
    on_broadcast text_editor_closed replied_get_elastic_nodes replied_post_elastic_nodes
    replied_get_elastic_full_config replied_post_elastic_full_config timer_fired
    replied_deploy_elastic slide
handle-loading (slide_to type n) p o l = l
handle-loading (close_run_confirm false) p o l = l
handle-loading (close_run_confirm true) p o l = elim (Bool-cases p.status) [
  | inl e ↦ rw e l
  | inr e ↦ rw e refl
]
handle-loading edit p o l = l
handle-loading fire p o l = l
handle-loading (broadcast status message) p o l = rw o l
handle-loading (close_editor none) p o l = l
handle-loading (close_editor (some t)) p o l = l
handle-loading (reply_nodes (ok r)) p o l = l
handle-loading (reply_nodes _) p o l = l
handle-loading (reply_post_nodes (ok r)) p o l = l
handle-loading (reply_post_nodes _) p o l = l
handle-loading (reply_config (ok r)) p o l = l
handle-loading (reply_config _) p o l = l
handle-loading (reply_post_config (ok r)) p o l = l
handle-loading (reply_post_config _) p o l = l
handle-loading (reply_deploy (ok r)) p o l = l
handle-loading (reply_deploy _) p o l = l
handle-loading (reply_check r) p o l = absurd o

run-loading :
    (es : List Event) (p : Page) → All IsOther es → p.loading ≡ true → (run es p).loading ≡ true
unfolding run
run-loading [] p o l = l
run-loading (e ∷ es) p o l = run-loading es (handle e p).0 o.1 (handle-loading e p o.0 l)

-- From a confirmed run on, which none was in progress to stop, the page shows that it is loading,
-- whatever happens and whatever the server answers to the run, until the check of the start is
-- answered or some scaling ends.
pub run_confirm_closed-loading :
    (es : List Event) (p : Page)
    → p.status ≡ false
    → All IsOther es
    → (run es (run_confirm_closed true p).0).loading ≡ true
unfolding run_confirm_closed run_elasticsearch_scale
run_confirm_closed-loading es p idle o =
    run-loading es (run_confirm_closed true p).0 o (rw (run_confirm_closed, idle) refl)

-- A run is confirmed while none is in progress, and the server takes it. When the timer has fired
-- and the deployment is not answered yet, a run that is confirmed again is posted too, and with no
-- counts.
pub run_confirm_closed-again :
    (response : String) (p : Page)
    → p.status ≡ false
    → let q = (replied_post_elastic_nodes (ok response) (run_confirm_closed true p).0).0 in
      (run_confirm_closed true (timer_fired q).0).1 ≡ post_elastic_nodes no_counts ∷ []
unfolding run_confirm_closed run_elasticsearch_scale replied_post_elastic_nodes timer_fired
    node_return
run_confirm_closed-again response p idle = rw idle refl
