-- ===== src/Policy/Sync.antt =====
-- The flag `job_status`, which says that a rule sync runs, through every event.
use text.Mathlib.Text.{◌==◌ as str_eq}
use hellogit.Common.{
  ℕ, ◌≡◌, refl, String, Bool, true, false, not, none, some, List, [], ◌∷◌, keep, every, ap, ◌∙◌,
  if◌then◌else◌, arith,
}
use hellogit.Policy.Types.{
  Page, Job, Notification, Reply, ok, one, many, new_rule_set, new_rule_sets, RuleSetData,
}
use hellogit.Policy.Actions.{
  ng_on_init, get_rules_clicked, edit_rule_closed, enable_rule_set, enable_rule, delete_rule_closed,
  delete_rule_set_closed, edit_rule_set_closed, add_rule_closed, rule_sync, add_rule_set_closed,
  upload_rules_file_closed, clear_rules,
}
use hellogit.Policy.Replies.{
  replied_sync_rule_sets, replied_get_rule_sets, replied_get_rules, replied_create_rule_set,
  replied_update_rule_set, replied_upload_rule_file, replied_toggle_rule, replied_delete_rule,
  replied_delete_rule_set, replied_check_suricata, replied_check_zeek, replied_get_jobs, broadcast,
  rule_set_changed, first_is_running, includes,
}
use mathlib.Core.List.{foldl}
use mathlib.Core.Bool.{and-eq-true_iff}
use hellogit.Policy.Events
use hellogit.Policy.Events.{Event}

-- What a broadcast says of a rule sync that was running or not.
abbrev pub after_broadcast : Notification → Bool → Bool
after_broadcast n running =
    if str_eq n.role "rulesync"
    then if str_eq n.status "STARTED"
      then true
      else if str_eq n.status "COMPLETED"
      then false
      else if str_eq n.status "ERROR"
      then false
      else running
    else running

-- The value of `job_status` after an event, from the value before.
abbrev pub running_after : Event → Bool → Bool
running_after Events.init running = true
running_after Events.sync running = true
running_after (Events.reply_jobs (ok jobs)) running =
    first_is_running (keep (λ (j : Job). includes j.description "perform_rulesync") jobs)
running_after (Events.socket_broadcast n) running = after_broadcast n running
running_after _ running = running

clear_rules-job_status : (rs : List ℕ) (p : Page) → (clear_rules rs p).job_status ≡ p.job_status
unfolding clear_rules
clear_rules-job_status [] p = refl
clear_rules-job_status (r ∷ rs) p = clear_rules-job_status rs _

new_rule_sets-job_status :
    (ds : List RuleSetData) (p : Page) → (new_rule_sets ds p).0.job_status ≡ p.job_status
unfolding new_rule_sets new_rule_set
new_rule_sets-job_status [] p = refl
new_rule_sets-job_status (d ∷ ds) p = new_rule_sets-job_status ds (new_rule_set d p).0

module _ (at_most : String → String → Bool) where
  handle-job_status :
      (e : Event) (p : Page)
      → (Events.handle at_most e p).0.job_status ≡ running_after e p.job_status
  unfolding Events.handle get_rules_clicked ng_on_init rule_sync rule_set_changed enable_rule_set
      enable_rule edit_rule_closed delete_rule_closed delete_rule_set_closed edit_rule_set_closed
      add_rule_closed add_rule_set_closed upload_rules_file_closed replied_sync_rule_sets
      replied_get_rules replied_create_rule_set replied_update_rule_set replied_upload_rule_file
      replied_toggle_rule replied_delete_rule replied_delete_rule_set replied_check_suricata
      replied_check_zeek replied_get_jobs broadcast replied_get_rule_sets new_rule_set
  handle-job_status Events.init p = refl
  handle-job_status Events.sync p = refl
  handle-job_status Events.socket_rule_set_change p = refl
  handle-job_status (Events.click_get_rules r) p = clear_rules-job_status p.rule_sets p
  handle-job_status (Events.click_enable_rule_set r) p = refl
  handle-job_status (Events.click_enable_rule rule r) p = refl
  handle-job_status (Events.close_edit_rule rule none) p = refl
  handle-job_status (Events.close_edit_rule rule (some x)) p = refl
  handle-job_status (Events.close_delete_rule rule r false) p = refl
  handle-job_status (Events.close_delete_rule rule r true) p = ground arith
  handle-job_status (Events.close_delete_rule_set r confirmed) p = refl
  handle-job_status (Events.close_edit_rule_set none) p = refl
  handle-job_status (Events.close_edit_rule_set (some x)) p = refl
  handle-job_status (Events.close_add_rule none) p = refl
  handle-job_status (Events.close_add_rule (some x)) p = refl
  handle-job_status (Events.close_add_rule_set none) p = refl
  handle-job_status (Events.close_add_rule_set (some x)) p = refl
  handle-job_status (Events.close_upload none) p = refl
  handle-job_status (Events.close_upload (some x)) p = refl
  handle-job_status (Events.reply_sync (ok x)) p = refl
  handle-job_status (Events.reply_sync _) p = refl
  handle-job_status (Events.reply_get_rule_sets (ok x)) p = new_rule_sets-job_status x p
  handle-job_status (Events.reply_get_rule_sets _) p = refl
  handle-job_status (Events.reply_get_rules r i (ok x)) p = refl
  handle-job_status (Events.reply_get_rules r i _) p = refl
  handle-job_status (Events.reply_create (ok x)) p = refl
  handle-job_status (Events.reply_create _) p = refl
  handle-job_status (Events.reply_update id e true (ok (some x))) p = refl
  handle-job_status (Events.reply_update id e false (ok (some x))) p = refl
  handle-job_status (Events.reply_update id e _ (ok none)) p = refl
  handle-job_status (Events.reply_update id e _ _) p = refl
  handle-job_status (Events.reply_upload (ok (one x))) p = refl
  handle-job_status (Events.reply_upload (ok (many x))) p = ground arith
  handle-job_status (Events.reply_upload _) p = refl
  handle-job_status (Events.reply_toggle rule r (ok (some x))) p = refl
  handle-job_status (Events.reply_toggle rule r (ok none)) p = refl
  handle-job_status (Events.reply_toggle rule r _) p = refl
  handle-job_status (Events.reply_delete_rule i (ok (some x))) p = refl
  handle-job_status (Events.reply_delete_rule i (ok none)) p = refl
  handle-job_status (Events.reply_delete_rule i _) p = refl
  handle-job_status (Events.reply_delete_rule_set i (ok (some x))) p = refl
  handle-job_status (Events.reply_delete_rule_set i (ok none)) p = refl
  handle-job_status (Events.reply_delete_rule_set i _) p = refl
  handle-job_status (Events.reply_suricata (ok (some []))) p = refl
  handle-job_status (Events.reply_suricata (ok _)) p = refl
  handle-job_status (Events.reply_suricata _) p = refl
  handle-job_status (Events.reply_zeek (ok (some []))) p = refl
  handle-job_status (Events.reply_zeek (ok _)) p = refl
  handle-job_status (Events.reply_zeek _) p = refl
  handle-job_status (Events.reply_jobs (ok x)) p = refl
  handle-job_status (Events.reply_jobs _) p = refl
  handle-job_status (Events.socket_broadcast n) p = ground arith

  -- Through any run the page keeps the flag as the events say: set by the start of the page and by
  -- `rule_sync`, read from the jobs, set and reset by the broadcasts of a rule sync, and changed by
  -- nothing else.
  pub run-job_status :
      (es : List Event) (p : Page)
      → (Events.run at_most es p).0.job_status ≡ foldl (λ b e. running_after e b) p.job_status es
  unfolding Events.run
  run-job_status [] p = refl
  run-job_status (e ∷ es) p =
      run-job_status es (Events.handle at_most e p).0
      ∙ ap (λ b. foldl (λ c f. running_after f c) b es) (handle-job_status e p)

-- The events that say nothing of a rule sync.
abbrev pub says_nothing : Event → Bool
says_nothing Events.init = false
says_nothing Events.sync = false
says_nothing (Events.reply_jobs (ok jobs)) = false
says_nothing (Events.socket_broadcast n) = not (str_eq n.role "rulesync")
says_nothing _ = true

running_after_nothing : (e : Event) → says_nothing e ≡ true → running_after e true ≡ true
running_after_nothing Events.init h = refl
running_after_nothing Events.sync h = refl
running_after_nothing (Events.reply_jobs (ok jobs)) h = cc
running_after_nothing (Events.socket_broadcast n) h = ground arith
running_after_nothing _ h = refl

still_running :
    (es : List Event)
    → every says_nothing es ≡ true
    → foldl (λ b e. running_after e b) true es ≡ true
still_running [] h = refl
still_running (e ∷ es) h =
    let (here, later) = (and-eq-true_iff _ _).0 h in
    rw (running_after_nothing e here) (still_running es later)

-- After `rule_sync` the page says that a sync runs for as long as neither the jobs are read nor a
-- rule sync's broadcast arrives, also when the server has refused the request.
pub rule_sync-refused :
    (at_most : String → String → Bool) (reply : Reply (Unit {0})) (es : List Event) (p : Page)
    → every says_nothing es ≡ true
    → (Events.run at_most (Events.sync ∷ Events.reply_sync reply ∷ es) p).0.job_status ≡ true
rule_sync-refused at_most reply es p h =
    run-job_status at_most (Events.sync ∷ Events.reply_sync reply ∷ es) p ∙ still_running es h
