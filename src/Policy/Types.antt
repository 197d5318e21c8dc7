-- ===== src/Policy/Types.antt =====
-- web/frontend/src/app/classes/rule.class.ts and web/frontend/src/app/classes/rule-set.class.ts,
-- and the state of PolicyManagementComponent.
--
-- Rule sets and arrays of rules are shared objects: a table's row is a reference to a rule set, and
-- after `get_rules` the `rules` of a rule set and the rules table are one array. So both live in a
-- store, `objects` and `arrays`, and `next` is the next free address.
pub use hellogit.Rest.{Reply, ok, error_message_class, http_error}
use hellogit.Common.{ℕ, suc, String, Bool, false, Option, none, some, List, [], ◌∷◌, update}

pub record Rule : Type 0 where
  pub id : ℕ
  pub rule_name : String
  pub rule : String
  pub created_date : String
  pub last_modified_date : String
  pub is_enabled : Bool
  pub by_pass_validation : Bool
  pub rule_set_id : ℕ

pub record HostInfo : Type 0 where
  pub hostname : String
  pub management_ip : String
  pub mac : String

pub record SensorState : Type 0 where
  pub hostname : String
  pub state : String

-- The fields of a RuleSetClass that are copied as they are.
pub record Details : Type 0 where
  pub id : ℕ
  pub app_type : String
  pub clearance : String
  pub name : String
  pub state : String
  pub created_date : String
  pub last_modified_date : String
  pub is_enabled : Bool

-- A rule set object: `rules` is `null`, or the address of an array.
pub record RuleSet : Type 0 where
  pub details : Details
  pub open details use *
  pub sensors : List HostInfo
  pub sensor_states : List SensorState
  pub rules : Option ℕ

-- A rule set as the server sends it, with the lists that may be missing.
pub record RuleSetData : Type 0 where
  pub details : Details
  pub open details use *
  pub sensors : Option (List HostInfo)
  pub sensor_states : Option (List SensorState)
  pub rules : Option (List Rule)

-- `rules_visible_`: the elements, and the property that a write at index -1 makes (`false` while
-- there is none: it is only tested).
pub record Flags : Type 0 where
  pub cells : List Bool
  pub at_minus_one : Bool

pub record Page : Type 0 where
  pub objects : ℕ → RuleSet
  pub arrays : ℕ → List Rule
  pub next : ℕ
  pub rule_sets : List ℕ
  pub rules : ℕ
  pub rules_visible_ : Flags
  pub job_status : Bool
  pub rulesetchange : Bool

pub record Job : Type 0 where
  pub description : String
  pub status : Option String

pub record Notification : Type 0 where
  pub role : String
  pub status : String

-- The answer to an upload: a RuleClass, an array whose elements are RuleClass or not, or else.
pub data Uploaded : Type 0 where
  one : Rule → Uploaded
  many : List (Option Rule) → Uploaded
  other : Uploaded

-- The REST calls, each with what its subscriber closes over.
pub data Request : Type 0 where
  get_jobs get_rule_sets sync_rule_sets check_suricata check_zeek upload_rule_file : Request
  get_rules : ℕ → Option ℕ → Request
  create_rule_set : Request
  update_rule_set : ℕ → Bool → Bool → Request
  toggle_rule : Rule → ℕ → Request
  delete_rule : Rule → Option ℕ → Request
  delete_rule_set : ℕ → Request

pub data Effect : Type 0 where
  snackbar : String → Effect
  request : Request → Effect
  -- a TypeError that leaves the handler
  type_error : Effect

-- A handler's outcome: the page and the effects, in order.
abbrev pub Outcome : Type 0
Outcome = Page × List Effect

-- What stands at an address that is not in use.
abbrev pub blank : RuleSet
blank = record {
  details = record {
    id = 0;
    app_type = "";
    clearance = "";
    name = "";
    state = "";
    created_date = "";
    last_modified_date = "";
    is_enabled = false;
  };
  sensors = [];
  sensor_states = [];
  rules = none;
}

-- Store operations.
abbrev pub new_array : List Rule → Page → Page × ℕ
new_array xs p = (record p { arrays = update p.arrays p.next xs; next = suc p.next }, p.next)

abbrev pub write_array : ℕ → List Rule → Page → Page
write_array a xs p = record p { arrays = update p.arrays a xs }

abbrev pub write_object : ℕ → RuleSet → Page → Page
write_object r o p = record p { objects = update p.objects r o }

-- `rule_set.rules = …`
abbrev pub assign_rules : ℕ → Option ℕ → Page → Page
assign_rules r rules p = write_object r (record (p.objects r) { rules = rules }) p

-- What the constructor makes of a list that may be missing.
abbrev pub or_empty {ℓ} : {A : Type ℓ} → Option (List A) → List A
or_empty none = []
or_empty (some xs) = xs

-- `new RuleSetClass(data)`
unfoldable pub new_rule_set : RuleSetData → Page → Page × ℕ
new_rule_set d p =
    let (q, a) = new_array (or_empty d.rules) p in
    let o : RuleSet = record {
      details = d.details;
      sensors = or_empty d.sensors;
      sensor_states = or_empty d.sensor_states;
      rules = some a;
    } in
    (record q { objects = update q.objects q.next o; next = suc q.next }, q.next)

-- `response.map((rule_set) => new RuleSetClass(rule_set))`
unfoldable pub new_rule_sets : List RuleSetData → Page → Page × List ℕ
new_rule_sets [] p = (p, [])
new_rule_sets (d ∷ ds) p =
    let (q, r) = new_rule_set d p in let (q', rs) = new_rule_sets ds q in (q', r ∷ rs)
