-- ===== src/Policy/Events.antt =====
-- What can happen to the page, one handler at a time: a user's action, a dialog that closes, an
-- answer of the server, a message of the websocket. They come in any order, since answers are
-- asynchronous, so a run is any list of events. An event carries what its handler closes over.
use hellogit.Common.{ℕ, String, Bool, Option, List, [], ◌∷◌, ◌++◌}
use hellogit.Policy.Types.{Rule, RuleSetData, Page, Outcome, Reply, Job, Notification, Uploaded}
use hellogit.Policy.Actions.{
  ng_on_init, get_rules_clicked, edit_rule_closed, enable_rule_set, enable_rule, delete_rule_closed,
  delete_rule_set_closed, edit_rule_set_closed, add_rule_closed, rule_sync, add_rule_set_closed,
  upload_rules_file_closed,
}
use hellogit.Policy.Replies.{
  replied_sync_rule_sets, replied_get_rule_sets, replied_get_rules, replied_create_rule_set,
  replied_update_rule_set, replied_upload_rule_file, replied_toggle_rule, replied_delete_rule,
  replied_delete_rule_set, replied_check_suricata, replied_check_zeek, replied_get_jobs, broadcast,
  rule_set_changed,
}

pub data Event : Type 0 where
  init sync socket_rule_set_change : Event
  click_get_rules click_enable_rule_set : ℕ → Event
  click_enable_rule : Rule → ℕ → Event
  close_edit_rule : Rule → Option Rule → Event
  close_delete_rule : Rule → ℕ → Bool → Event
  close_delete_rule_set : ℕ → Bool → Event
  close_edit_rule_set : Option (Bool × ℕ × Bool) → Event
  close_add_rule : Option Rule → Event
  close_add_rule_set close_upload : Option Bool → Event
  reply_sync : Reply (Unit {0}) → Event
  reply_get_rule_sets : Reply (List RuleSetData) → Event
  reply_get_rules : ℕ → Option ℕ → Reply (List Rule) → Event
  reply_create : Reply RuleSetData → Event
  reply_update : ℕ → Bool → Bool → Reply (Option RuleSetData) → Event
  reply_upload : Reply Uploaded → Event
  reply_toggle : Rule → ℕ → Reply (Option Rule) → Event
  reply_delete_rule : Option ℕ → Reply (Option String) → Event
  reply_delete_rule_set : ℕ → Reply (Option String) → Event
  reply_suricata reply_zeek : Reply (Option (List String)) → Event
  reply_jobs : Reply (List Job) → Event
  socket_broadcast : Notification → Event

module _ (at_most : String → String → Bool) where
  unfoldable pub handle : Event → Page → Outcome
  handle init p = ng_on_init p
  handle sync p = rule_sync p
  handle socket_rule_set_change p = rule_set_changed p
  handle (click_get_rules r) p = get_rules_clicked r p
  handle (click_enable_rule_set r) p = enable_rule_set r p
  handle (click_enable_rule rule r) p = enable_rule rule r p
  handle (close_edit_rule rule response) p = edit_rule_closed rule response p
  handle (close_delete_rule rule r confirmed) p = delete_rule_closed rule r confirmed p
  handle (close_delete_rule_set r confirmed) p = delete_rule_set_closed r confirmed p
  handle (close_edit_rule_set form) p = edit_rule_set_closed form p
  handle (close_add_rule response) p = add_rule_closed at_most response p
  handle (close_add_rule_set form) p = add_rule_set_closed form p
  handle (close_upload form) p = upload_rules_file_closed form p
  handle (reply_sync r) p = replied_sync_rule_sets r p
  handle (reply_get_rule_sets r) p = replied_get_rule_sets at_most r p
  handle (reply_get_rules rule_set index r) p = replied_get_rules at_most rule_set index r p
  handle (reply_create r) p = replied_create_rule_set r p
  handle (reply_update id enabled enabling r) p = replied_update_rule_set id enabled enabling r p
  handle (reply_upload r) p = replied_upload_rule_file r p
  handle (reply_toggle rule rule_set r) p = replied_toggle_rule rule rule_set r p
  handle (reply_delete_rule index r) p = replied_delete_rule index r p
  handle (reply_delete_rule_set id r) p = replied_delete_rule_set id r p
  handle (reply_suricata r) p = replied_check_suricata r p
  handle (reply_zeek r) p = replied_check_zeek r p
  handle (reply_jobs r) p = replied_get_jobs r p
  handle (socket_broadcast n) p = broadcast n p

  -- A run, with all that it does in order.
  unfoldable pub run : List Event → Page → Outcome
  run [] p = (p, [])
  run (e ∷ es) p =
      let (q, effects) = handle e p in let (q', later) = run es q in (q', effects ++ later)
