-- ===== src/Workflow/Processes.antt =====
-- `set_process_list_children_` of catalog-page.component.ts: which nodes a process is for. The order
-- of the nodes' names, which naturalSort computes, is a parameter.
use hellogit.Common.{
  Text, codes, String, text_eq, includes, ℕ, ◌+◌, Bool, true, false, not, ◌&&◌, ◌||◌, Option, none,
  some, List, [], ◌∷◌, ◌++◌, map, if◌then◌else◌, length, keep, allocate, fresh,
}
use hellogit.Common.Sort.{sort}
use hellogit.Catalog.{to_lower_case}
use hellogit.Workflow.Types.{Status, Node, Chart, Process, ProcessForm, Page, server_any_value}

abbrev pub same_host : Text → Option Text → Bool
same_host hostname none = false
same_host hostname (some h) = text_eq hostname h

-- `includes` looks for the text null where the host is null.
abbrev pub host_part : Option Text → Text
host_part none = codes "null"
host_part (some h) = h

abbrev pub head : List Status → Option Status
head [] = none
head (s ∷ ss) = some s

-- The status that a node gets: of its host, or, unless it is a sensor, of one whose name is in that of
-- its host.
unfoldable pub status_for : List Status → Node → Option Status
status_for statuses n =
    if text_eq (to_lower_case n.node_type) (codes "sensor")
    then head (keep (λ (s : Status). same_host n.hostname s.status_host) statuses)
    else head (
        keep
          (λ (s : Status).
            same_host n.hostname s.status_host || includes (host_part s.status_host) n.hostname)
          statuses)

abbrev pub with_status : List Status → Node → Node
with_status statuses n = record n { node_status = status_for statuses n }

-- Whether the chart is for a node.
unfoldable pub fits : Chart → Node → Bool
fits c n =
    includes n.node_type c.node_affinity
    || (text_eq c.node_affinity server_any_value && text_eq n.node_type (codes "Server"))

unfoldable pub child_status : Node → Text
child_status n = elim n.node_status [ none ↦ codes "UNKNOWN" | some s ↦ s.status ]

-- `[...new Map(children.map(item => [item._id, item])).values()]`: a later node takes the place of
-- that of its id.
unfoldable pub put_by_id : (ℕ → Node) → ℕ → List ℕ → List ℕ
put_by_id o x [] = x ∷ []
put_by_id o x (y ∷ ys) =
    let rest = put_by_id o x ys in if text_eq (o y).node_id (o x).node_id then x ∷ ys else y ∷ rest

unfoldable pub by_id : (ℕ → Node) → List ℕ → List ℕ → List ℕ
unfolding put_by_id
by_id o so_far [] = so_far
by_id o so_far (x ∷ xs) = by_id o (put_by_id o x so_far) xs

unfoldable pub push_child : (ℕ → Node) → ℕ → Process → Process
unfolding by_id
push_child o r p = record p { children = by_id o [] (p.children ++ r ∷ []) }

abbrev pub is_process : String → Process → Bool
is_process name p = text_eq p.process (codes name)

-- Whether `set_children_` lists a node of this status under a process.
unfoldable pub is_offered : Text → Process → Bool
is_offered status p =
    if text_eq status (codes "DEPLOYED")
    then not (is_process "install" p)
    else if text_eq status (codes "UNKNOWN")
    then not (is_process "reinstall" p) && not (is_process "uninstall" p)
    else true

unfoldable pub set_children : (ℕ → Node) → Text → ℕ → List Process → List Process
unfolding is_offered push_child
set_children o status r processes =
    map (λ p. if is_offered status p then push_child o r p else p) processes

-- The loop over the nodes: the processes, whether a node was set, and whether one is of services.
unfoldable pub children_loop :
    Chart → (ℕ → Node) → List ℕ → List Process × Bool × Bool → List Process × Bool × Bool
unfolding fits child_status set_children
children_loop c o [] so_far = so_far
children_loop c o (r ∷ rs) (processes, called, service) = children_loop c o rs (
  if fits c (o r) then set_children o (child_status (o r)) r processes else processes,
  fits c (o r) || called,
  text_eq (o r).node_type (codes "Service") || service,
)

abbrev pub has_children : Process → Bool
has_children p = elim p.children [ [] ↦ false | r ∷ rs ↦ true ]

abbrev pub enable_process : Bool → Option ProcessForm → Option ProcessForm
enable_process called none = none
enable_process called (some f) = some (record f { process_enabled = called || f.process_enabled })

-- `set_process_list_children_` with its result put in place, for a chart and statuses that have come.
-- The nodes of a response are new objects, which are sorted, and given their statuses one by one.
unfoldable pub set_process_list_children :
    (Text → Text → Bool) → Chart → List Status → List Node → Page → Page
unfolding children_loop allocate fresh
set_process_list_children at_most c statuses response p =
    let sorted = sort (λ (a b : Node). at_most a.hostname b.hostname) response in
    let o = allocate p.objects p.next (map (with_status statuses) sorted) in
    let rs = fresh p.next (map (with_status statuses) sorted) in
    let (processes, called, service) = children_loop c o rs (p.process_list, false, false) in
    record p {
      objects = o;
      next = p.next + length response;
      nodes = some rs;
      process_list = keep has_children processes;
      process_form = enable_process called p.process_form;
      set_children_called = called || p.set_children_called;
      service_node_available = service || p.service_node_available;
    }
