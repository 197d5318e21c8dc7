-- ===== src/Mips.antt =====
-- web/frontend/src/app/modules/mip-mng/mip-mng.component.ts: the table of MIPs, which the server and
-- the websocket fill with nodes, and the errors of adding one.
pub mod Messages
pub mod Table
mod Tests
use hellogit.Common.{
  Text, codes, text_eq, ℕ, zero, suc, ◌-◌, ◌==◌, ltb, String, Bool, true, false, not, ◌&&◌, ◌||◌,
  Option, none, some, List, [], ◌∷◌, ◌++◌, if◌then◌else◌, length, update,
}
use hellogit.Rest.{Reply, ok, error_message_class, http_error}

pub record Job : Type 0 where
  pub job_name : Text
  pub complete : Bool
  pub error : Bool

-- The fields of a node that the page reads or writes.
pub record Node : Type 0 where
  pub hostname : Text
  pub node_type : Text
  pub jobs : Option (List Job)
  pub is_deployed : Option Bool
  pub is_removing : Bool

-- A node is an object that the table and its dialogs share. The settings are known by the number of
-- their keys.
pub record Page : Type 0 where
  pub mips : List ℕ
  pub mip_settings : Option ℕ
  pub objects : ℕ → Node
  pub next : ℕ

pub data Effect : Type 0 where
  get_nodes get_mip_settings add_mip : Effect
  delete_node : Text → Effect
  confirm_delete open_info : ℕ → Effect
  open_add : Effect
  display : Text → Effect
  display_error success_snackbar error_snackbar : String → Effect

abbrev pub Outcome : Type 0
Outcome = Page × List Effect

abbrev blank : ℕ → Node
blank _ = record {
  hostname = [];
  node_type = [];
  jobs = none;
  is_deployed = none;
  is_removing = false;
}

unfoldable pub constructed : Page
constructed = record { mips = []; mip_settings = some 0; objects = blank; next = 0 }

unfoldable pub ng_on_init : Page → Outcome
ng_on_init p = (p, get_nodes ∷ get_mip_settings ∷ [])

unfoldable pub open_mip_info_dialog_window : ℕ → Page → Outcome
open_mip_info_dialog_window r p = (p, open_info r ∷ [])

-- `can_delete_node`: the loop, and none where it throws for a node without jobs.
unfoldable pub can_delete_loop : List Job → Bool
can_delete_loop [] = true
can_delete_loop (j ∷ js) =
    let rest = can_delete_loop js in
    if text_eq j.job_name (codes "create") then j.complete || j.error else rest

unfoldable pub can_delete_node : Node → Option Bool
unfolding can_delete_loop
can_delete_node n = elim n.jobs [ none ↦ none | some js ↦ some (can_delete_loop js) ]

unfoldable pub open_delete_node_confirm_dialog_window : ℕ → Page → Outcome
open_delete_node_confirm_dialog_window r p = (p, confirm_delete r ∷ [])

-- The dialog closed, with the option to confirm or not.
unfoldable pub delete_confirmed : Bool → ℕ → Page → Outcome
delete_confirmed false r p = (p, [])
delete_confirmed true r p = (
  record p { objects = update p.objects r (record (p.objects r) { is_removing = true }) },
  delete_node (p.objects r).hostname ∷ [],
)

unfoldable pub disable_add_mip_button : Page → Bool
disable_add_mip_button p = elim p.mip_settings [ none ↦ true | some keys ↦ keys == 0 ]

unfoldable pub open_add_mip_dialog_window : Page → Outcome
open_add_mip_dialog_window p = (p, open_add ∷ [])

-- The dialog closed: undefined, or a form that is valid or not.
unfoldable pub add_closed : Option Bool → Page → Outcome
add_closed none p = (p, [])
add_closed (some valid) p = (p, if valid then add_mip ∷ [] else [])

-- The jobs' loop of `update_mips_data_`
unfoldable pub deployed_loop : Option Bool → List Job → Option Bool
deployed_loop so_far [] = so_far
deployed_loop so_far (j ∷ js) =
    deployed_loop (if text_eq j.job_name (codes "deploy") then some j.complete else so_far) js

unfoldable pub marked : Node → Node
unfolding deployed_loop
marked n = elim n.jobs [
  | none ↦ n
  | some js ↦ record n { is_deployed = deployed_loop n.is_deployed js }
]

abbrev pub is_mip : Node → Bool
is_mip n = text_eq n.node_type (codes "MIP")

-- The nodes' loop: the response's objects, and the addresses of those that are pushed.
unfoldable pub mips_loop : List Node → Page → Page × List ℕ
unfolding marked
mips_loop [] p = (p, [])
mips_loop (n ∷ ns) p =
    let (q, rs) =
      mips_loop ns (record p { objects = update p.objects p.next (marked n); next = suc p.next }) in
    (q, if is_mip n then p.next ∷ rs else rs)

unfoldable pub update_mips_data : List Node → Page → Page
unfolding mips_loop
update_mips_data nodes p = let (q, rs) = mips_loop nodes p in record q { mips = rs }

unfoldable pub replied_get_nodes : Reply (List Node) → Page → Outcome
unfolding update_mips_data
replied_get_nodes (ok nodes) p = (update_mips_data nodes p, [])
replied_get_nodes (error_message_class m) p = (p, display_error m ∷ [])
replied_get_nodes http_error p = (p, error_snackbar "retrieving nodes" ∷ [])

-- The message `node-state-change` of the websocket
unfoldable pub on_node_state_change : List Node → Page → Outcome
unfolding update_mips_data
on_node_state_change nodes p = (update_mips_data nodes p, [])

unfoldable pub replied_get_mip_settings : Reply ℕ → Page → Outcome
replied_get_mip_settings (ok keys) p = (record p { mip_settings = some keys }, [])
replied_get_mip_settings (error_message_class m) p = (p, display_error m ∷ [])
replied_get_mip_settings http_error p = (p, error_snackbar "retrieving mip settings" ∷ [])

unfoldable pub replied_delete_node : Reply String → Page → Outcome
replied_delete_node (ok response) p = (p, success_snackbar "requested delete node" ∷ [])
replied_delete_node (error_message_class m) p = (p, display_error m ∷ [])
replied_delete_node http_error p = (p, error_snackbar "deleting nodes" ∷ [])

-- An object of errors: its keys with the messages of each.
abbrev pub Errors : Type 0
Errors = List (Text × List Text)

-- `construct_post_validation_error_message_`: the loop over the errors of a key, from an index on,
-- of so many.
unfoldable pub errors_loop : Text → ℕ → ℕ → Text → List Text → Text
errors_loop key count index message [] = message
errors_loop key count index message (error ∷ errors) =
    errors_loop key count (suc index)
      (message
        ++ (key
            ++ (codes ":     " ++ error)
            ++ (if not (index == (count - 1)) then codes "\n" else [])))
      errors

unfoldable pub keys_loop : ℕ → ℕ → Text → Errors → Text
unfolding errors_loop
keys_loop count index message [] = message
keys_loop count index message ((key, errors) ∷ rest) =
    keys_loop count (suc index)
      (errors_loop key (length errors) 0 message errors
        ++ (if not (index == (count - 1)) then codes "\n\n" else []))
      rest

unfoldable pub construct_post_validation_error_message : Errors → Text
unfolding keys_loop
construct_post_validation_error_message errors = keys_loop (length errors) 0 [] errors

-- The loop over an array of errors; a text is appended to undefined as to its name.
unfoldable pub array_loop : ℕ → ℕ → Option Text → List Text → Option Text
array_loop last index message [] = message
array_loop last index message (error ∷ errors) =
    array_loop last (suc index)
      (some (
        (elim message [ none ↦ codes "undefined" | some t ↦ t ])
        ++ (error ++ (if ltb index last then codes "\n" else []))))
      errors

-- The loops over the messages of a ValidationErrorClass, which show the text so far for each key.
unfoldable pub messages_loop : Text → ℕ → ℕ → Bool → Text → List Text → Text
messages_loop key last index more_keys message [] = message
messages_loop key last index more_keys message (m ∷ ms) =
    messages_loop key last (suc index) more_keys
      (message
        ++ (key ++ (codes ": " ++ m) ++ (if ltb index last || more_keys then codes "\n" else [])))
      ms

unfoldable pub fields_loop : ℕ → ℕ → Text → Errors → List Effect
unfolding messages_loop
fields_loop last index message [] = []
fields_loop last index message ((key, messages) ∷ rest) =
    let t = messages_loop key (length messages - 1) 0 (ltb index last) message messages in
    display t ∷ fields_loop last (suc index) t rest

-- The errors that `addMip` answers with.
pub data AddError : Type 0 where
  message_class : String → AddError
  validation_error : Errors → AddError
  post_array : List Text → AddError
  post_object : Errors → AddError
  post_other other_error : AddError

-- undefined is shown as it is.
abbrev pub shown : Option Text → Text
shown none = codes "undefined"
shown (some t) = t

unfoldable pub add_failed : AddError → List Effect
unfolding array_loop fields_loop construct_post_validation_error_message
add_failed (message_class m) = display_error m ∷ []
add_failed (validation_error errors) = fields_loop (length errors - 1) 0 [] errors
add_failed (post_array errors) = display (shown (array_loop (length errors - 1) 0 none errors)) ∷ []
add_failed (post_object errors) = display (construct_post_validation_error_message errors) ∷ []
add_failed post_other =
    display (codes "Post validation message was not returned in correct format") ∷ []
add_failed other_error = error_snackbar "adding mip" ∷ []

-- The answer to `addMip`, an error or not.
unfoldable pub replied_add_mip : Option AddError → Page → Outcome
unfolding add_failed
replied_add_mip none p = (p, success_snackbar "requested add mip" ∷ [])
replied_add_mip (some error) p = (p, add_failed error)
