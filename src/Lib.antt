-- ===== src/Lib.antt =====
-- hellogit is the front end of a sensor kit's controller: an Angular application in
-- web/frontend/src/app whose pages send REST calls to the controller, are told of changes over a
-- websocket, and keep tables and forms in between. This library models the pages and helpers that
-- carry the application's own logic and proves what they keep.
--
-- Model. A component is a record of its fields. Each button handler, closed dialog, REST answer
-- (the two callbacks of a subscription) and websocket message is one function from the record to
-- the new record and the effects it asks for, in order: requests, snackbar texts, and a TypeError
-- where one leaves the handler. `handle` selects the function of an event and `run` folds a list
-- of events, so a statement about every run is one about every order in which users, answers and
-- messages can come. JavaScript's -1 of findIndex is `none`, and what the source does with it
-- (splice from the end, a property beside the array) is written out. A text that is taken apart
-- is a list of UTF-16 code units; one that is only compared is a String.
--
-- Files and code:
-- - Common: the shared names, and below it Boolean tests (Tests), arrays with JavaScript's
--   out-of-range behaviour (Arrays), texts (Texts), and the stable sort of Array.prototype.sort
--   (Sort).
-- - Rest: web/frontend/src/app/services/abstract/api.service.ts, `handleError`, and `Reply`, what
--   a subscriber tells apart. Rest/Errors holds the theorem.
-- - Snackbar: web/frontend/src/app/services/mat-snackbar.service.ts, the texts.
-- - Policy: web/frontend/src/app/modules/policy-management/policy-management.component.ts.
--   Policy/Types has web/frontend/src/app/classes/rule.class.ts,
--   web/frontend/src/app/classes/rule-set.class.ts and the page, Policy/Actions the handlers of
--   buttons and closed dialogs, Policy/Replies those of answers and messages, Policy/Events the
--   runs. Rule sets and arrays of rules are shared by reference in the source, so they live in a
--   store with addresses. Visible, Deletion, Loading, Toggling, Sync, Failures and Clicks hold
--   the theorems; Policy/Filter has the table's filter. The order of localeCompare is a
--   parameter, `at_most`, and what is said of an order rests on the hypotheses that it is total
--   and transitive; toLowerCase is a parameter of Filter.
-- - Notifications: web/frontend/src/app/modules/notifications/notifications.component.ts and
--   web/frontend/src/app/modules/notifications/components/notifications-dialog.component.ts over
--   the one list of buttons of
--   web/frontend/src/app/modules/notifications/constants/notifications.constant.ts, which both
--   hold. Display and Buttons have
--   web/frontend/src/app/modules/notifications/classes/notifications-static-methods.class.ts,
--   Events the handlers. A `Clock`, the age of a time stamp, is a parameter.
-- - Stdout: web/frontend/src/app/modules/server-stdout/server-stdout.component.ts.
-- - Forms: web/frontend/src/app/validators/generic-validators.validator.ts. Forms/Password has
--   passwordValidator and consecutive, Forms/Validators the others. A pattern is a test on texts,
--   a parameter.
-- - Progress:
--   web/frontend/src/app/modules/global-components/components/node-state-progress-bar/node-state-progress-bar.component.ts,
--   all the bars of a page.
-- - Chips:
--   web/frontend/src/app/modules/global-components/components/modal-dialog-mat/modal-dialog-mat.component.ts.
-- - Cookies: web/frontend/src/app/services/cookies.service.ts, over the decoded text.
-- - Alerts: web/frontend/src/app/modules/security-alerts/security-alerts.component.ts with its
--   constants. Alerts/Types has the page and its rows, which dialogs and requests share and to
--   which handlers add fields, so they live in a store; Actions the handlers of toggles, chips
--   and dates, Links those of a row and the links that they build, Replies the answers and the
--   dialogs that close, Events the runs. Columns, Filters, Asks, Queries and Visits hold the
--   theorems. What `Date` computes and the clock are a parameter (`Calendar`, `Moment`).
-- - ConfigMaps: web/frontend/src/app/modules/config-map/config-map.component.ts over a store of
--   config map objects (web/frontend/src/app/classes/config-map.class.ts). Types has the page and
--   the entries of an object, Actions the handlers, answers and dialogs, Events the runs; Entries
--   has the laws of the entries as a map, Names those of the names that JavaScript keeps in their
--   order, and Saving and Runs the theorems.
-- - Scale: web/frontend/src/app/modules/elasticsearch-scale/elasticsearch-scale.component.ts with
--   its classes and enum. Posts and Loading hold the theorems.
-- - Mips: web/frontend/src/app/modules/mip-mng/mip-mng.component.ts over a store of nodes. Table
--   has the theorems on the rows, Messages those on the texts of errors.
-- - Indices:
--   web/frontend/src/app/modules/elasticsearch-index-management/elasticsearch-index-management.component.ts.
--   The stepper and the forms are events. Actions has the theorem.
-- - Nodes: web/frontend/src/app/modules/node-mng/node-mng.component.ts over a store of nodes.
--   Types has the page and the tests of its buttons, Handlers the clicks, dialogs and answers,
--   Events the runs; Tables, Deletion and Runs hold the theorems.
-- - Agents: web/frontend/src/app/modules/agent-builder-chooser/agent-builder-chooser.component.ts
--   with the classes of hosts, lists and configurations, over stores of hosts, lists and rows.
--   Types has the page, Hosts the loops over hosts, Tables what fills the tables, Actions and
--   Dialogs the clicks and closed dialogs, Replies the answers, Events the runs; Distinct,
--   Refresh, Single, Removal, Selected and Runs hold the theorems. toLowerCase is a parameter;
--   the index of a row on a page of the paginator is a hypothesis.
-- - Workflow:
--   web/frontend/src/app/modules/catalog/components/catalog-page/catalog-page.component.ts over a
--   store of nodes. Types has the page, Processes what the processes list, Handlers the first
--   step and the run of an action, Replies the answers; Unrepeated, Children and Names hold the
--   theorems. The order of naturalSort is a parameter.
-- - AddNode:
--   web/frontend/src/app/modules/node-mng/components/add-node-dialog/add-node-dialog.component.ts.
--   Types has the dialog and its form, Addresses what it computes of addresses, Handlers the
--   choices and answers; Digits has the texts of numbers, Offered and Race the theorems.
-- - Subnet: web/frontend/src/app/classes/data-methods.class.ts, the arithmetic of IPv4 addresses.
--   Masks has `&` with a mask, Octets the ones of a netmask, Prefixes the theorems.
-- - Catalog:
--   web/frontend/src/app/modules/catalog/components/application-card/application-card.component.ts.
-- A folder's Tests has runs on concrete data.
--
-- Bounds. Every loop of the modelled code runs over an array or a text and is a structural
-- recursion, but for the binary digits of an octet in Subnet, which are at most the 32 of its
-- fuel, and in AddNode the loops that push so many addresses, which count them down, and the
-- decimal digits of a number, whose fuel is the number's successor, which is more than it has
-- digits (AddNode/Digits). Numbers are natural; 32-bit arithmetic is in Subnet only, with its
-- wrap-around written out.
--
-- Not modelled: HTML templates, Angular's change detection and form groups, the console, and the
-- pages whose code is mostly form construction (system settings, cold log ingest, PCAP, health,
-- tools, portal); the drill-down of the security alerts; the forms of the catalog page, which are
-- built from a chart's controls, the dialogs of the agent builder and the fields of a virtual
-- machine in the dialog to add a node; validateIPAddress, validateFromArray and
-- getFormValidationErrors; the Python controller.
pub mod Common
pub mod Rest
pub mod Snackbar
pub mod Policy
pub mod Alerts
pub mod Catalog
pub mod Chips
pub mod Cookies
pub mod Progress
pub mod Forms
pub mod Stdout
pub mod Notifications
pub mod ConfigMaps
pub mod Subnet
pub mod Scale
pub mod Mips
pub mod Indices
pub mod Nodes
pub mod AddNode
pub mod Agents
pub mod Workflow
