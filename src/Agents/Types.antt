-- ===== src/Agents/Types.antt =====
-- The page of agent-builder-chooser.component.ts with classes/host.class.ts,
-- classes/ip-target-list.class.ts and classes/agent-installer-configuration.class.ts below it.
--
-- Rows, the selection, dialogs and requests share lists and hosts, to which handlers write, so these
-- are objects in stores. Configurations of installers are only read.
use hellogit.Common.{Text, codes, text_eq, String, ℕ, Bool, true, false, Option, none, some, List}

pub record Host : Type 0 where
  pub hostname : Option Text
  pub state : Text
  pub last_state_change : Text

-- The fields of a list but its hosts.
pub record About : Type 0 where
  pub list_id : Option Text
  pub name : Text
  pub protocol : Text
  pub ntlm_port : Text
  pub ntlm_domain_name : Text
  pub smb_port : Text
  pub smb_domain_name : Text

-- A list of targets as it comes from the server, and as an object, whose hosts are objects.
pub record ListData : Type 0 where
  pub about : About
  pub hosts : Option (List Host)

pub record TargetList : Type 0 where
  pub about : About
  pub targets : Option (List ℕ)

-- A row of the table of lists: its list, what the table of its hosts shows, and whether it is open.
pub record Row : Type 0 where
  pub config : ℕ
  pub host_list : List ℕ
  pub expanded : Bool

-- The packages of a configuration are known by their keys.
pub record Installer : Type 0 where
  pub installer_id : Text
  pub config_name : Text
  pub custom_packages : Option (List Text)

pub record AppConfig : Type 0 where
  pub app_name : Text

pub record Page : Type 0 where
  pub installers : Option (List Installer)
  pub installer_selection : Option Installer
  pub lists_table : Option (List ℕ)
  pub ip_target_selection : Option ℕ
  pub app_configs : Option (List AppConfig)
  pub is_downloading : Bool
  pub hosts : ℕ → Host
  pub lists : ℕ → TargetList
  pub rows : ℕ → Row
  pub next : ℕ

pub data Action : Type 0 where
  install reinstall uninstall uninstalls : Action

-- What a dialog for credentials is to send: the objects are read when it is sent. An action on one
-- host has it as its target.
pub record Request : Type 0 where
  pub action : Action
  pub installer : Installer
  pub target_list : ℕ
  pub target : Option ℕ

-- What is sent of it.
pub record Sent : Type 0 where
  pub sent_action : Action
  pub sent_installer : Installer
  pub sent_list : ListData
  pub sent_target : Option Host
  pub user_name : Text
  pub password : Text

pub data Effect : Type 0 where
  get_chart_status get_configs get_app_configs : Effect
  get_ip_target_list : Bool → Effect
  generate : Installer → Effect
  save_config : Installer → Effect
  delete_config : Text → Effect
  save_ip_target_list : ListData → Effect
  delete_ip_target_list : Text → Effect
  add_host : Option Text → Text → Effect
  remove_host : Option Text → Host → Effect
  send : Sent → Effect
  ask_credentials : Text → Text → Request → Effect
  confirm : Text → Text → Effect
  open_details : List AppConfig → Installer → Effect
  open_installer : List AppConfig → Effect
  open_target open_add_hosts save_file render_rows : Effect
  display : Text → Effect
  display_text success_snackbar error_snackbar : String → Effect
  -- The handler ends by an exception.
  type_error : Effect

abbrev pub Outcome : Type 0
Outcome = Page × List Effect

-- What a template shows of undefined.
abbrev pub shown : Option Text → Text
shown none = codes "undefined"
shown (some t) = t

-- `===` of texts that may be undefined
abbrev pub same : Option Text → Option Text → Bool
same none none = true
same (some s) (some t) = text_eq s t
same _ _ = false
