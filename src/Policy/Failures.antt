-- ===== src/Policy/Failures.antt =====
-- The error paths: what the page does when the server refuses a call, or does not answer.
use hellogit.Common.{◌≡◌, refl, String, Bool, [], ◌∷◌}
use hellogit.Rest.{IsError, refused, unanswered}
use hellogit.Policy.Types.{Page, snackbar}
use hellogit.Policy.Replies.{
  replied_sync_rule_sets, replied_get_rule_sets, replied_get_rules, replied_create_rule_set,
  replied_update_rule_set, replied_upload_rule_file, replied_toggle_rule, replied_delete_rule,
  replied_delete_rule_set, replied_check_suricata, replied_check_zeek, replied_get_jobs,
}
use hellogit.Policy.Events
use hellogit.Policy.Events.{Event}

-- The events that bring an error, one for each call.
abbrev pub IsFailure : Event → Type 0
IsFailure (Events.reply_sync r) = IsError r
IsFailure (Events.reply_get_rule_sets r) = IsError r
IsFailure (Events.reply_get_rules rule_set index r) = IsError r
IsFailure (Events.reply_create r) = IsError r
IsFailure (Events.reply_update id enabled enabling r) = IsError r
IsFailure (Events.reply_upload r) = IsError r
IsFailure (Events.reply_toggle rule rule_set r) = IsError r
IsFailure (Events.reply_delete_rule index r) = IsError r
IsFailure (Events.reply_delete_rule_set id r) = IsError r
IsFailure (Events.reply_suricata r) = IsError r
IsFailure (Events.reply_zeek r) = IsError r
IsFailure (Events.reply_jobs r) = IsError r
IsFailure _ = ⊥

-- A call that fails, at any moment, leaves the page as it is and displays one message: no handler
-- half-applies an answer, and none tries again.
pub failure_keeps :
    (at_most : String → String → Bool) (e : Event) (p : Page)
    → IsFailure e
    → (m : String) × (Events.handle at_most e p ≡ (p, snackbar m ∷ []))
unfolding Events.handle replied_sync_rule_sets replied_get_rule_sets replied_get_rules
    replied_create_rule_set replied_update_rule_set replied_upload_rule_file replied_toggle_rule
    replied_delete_rule replied_delete_rule_set replied_check_suricata replied_check_zeek
    replied_get_jobs
failure_keeps at_most (Events.reply_sync r) p (refused m) = (_, refl)
failure_keeps at_most (Events.reply_sync r) p unanswered = (_, refl)
failure_keeps at_most (Events.reply_get_rule_sets r) p (refused m) = (_, refl)
failure_keeps at_most (Events.reply_get_rule_sets r) p unanswered = (_, refl)
failure_keeps at_most (Events.reply_get_rules x y r) p (refused m) = (_, refl)
failure_keeps at_most (Events.reply_get_rules x y r) p unanswered = (_, refl)
failure_keeps at_most (Events.reply_create r) p (refused m) = (_, refl)
failure_keeps at_most (Events.reply_create r) p unanswered = (_, refl)
failure_keeps at_most (Events.reply_update x y z r) p (refused m) = (_, refl)
failure_keeps at_most (Events.reply_update x y z r) p unanswered = (_, refl)
failure_keeps at_most (Events.reply_upload r) p (refused m) = (_, refl)
failure_keeps at_most (Events.reply_upload r) p unanswered = (_, refl)
failure_keeps at_most (Events.reply_toggle x y r) p (refused m) = (_, refl)
failure_keeps at_most (Events.reply_toggle x y r) p unanswered = (_, refl)
failure_keeps at_most (Events.reply_delete_rule x r) p (refused m) = (_, refl)
failure_keeps at_most (Events.reply_delete_rule x r) p unanswered = (_, refl)
failure_keeps at_most (Events.reply_delete_rule_set x r) p (refused m) = (_, refl)
failure_keeps at_most (Events.reply_delete_rule_set x r) p unanswered = (_, refl)
failure_keeps at_most (Events.reply_suricata r) p (refused m) = (_, refl)
failure_keeps at_most (Events.reply_suricata r) p unanswered = (_, refl)
failure_keeps at_most (Events.reply_zeek r) p (refused m) = (_, refl)
failure_keeps at_most (Events.reply_zeek r) p unanswered = (_, refl)
failure_keeps at_most (Events.reply_jobs r) p (refused m) = (_, refl)
failure_keeps at_most (Events.reply_jobs r) p unanswered = (_, refl)
failure_keeps at_most _ p h = elim h [ ]
