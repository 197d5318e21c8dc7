-- ===== src/Agents/Tables.antt =====
-- The tables of agent-builder-chooser.component.ts: what fills and refreshes them.
use hellogit.Common.{
  Text, ℕ, suc, ◌+◌, Bool, true, false, Option, none, some, List, [], ◌∷◌, if◌then◌else◌, length,
  update, allocate, fresh,
}
use hellogit.Agents.Types.{
  Host, ListData, TargetList, Installer, Page, Outcome, same, render_rows, type_error,
}
use hellogit.Agents.Hosts.{update_ip_targets}

unfoldable pub set_installers : List Installer → Page → Page
set_installers response p = record p { installers = some response; installer_selection = none }

-- A list of a response becomes an object, its hosts before it, and a row of a new table.
unfoldable pub new_targets : Option (List Host) → Page → Page × Option (List ℕ)
unfolding allocate fresh
new_targets none p = (p, none)
new_targets (some hs) p = (
  record p { hosts = allocate p.hosts p.next hs; next = p.next + length hs },
  some (fresh p.next hs),
)

abbrev all_of : Option (List ℕ) → List ℕ
all_of none = []
all_of (some rs) = rs

unfoldable pub new_row : ListData → Page → Page × ℕ
unfolding new_targets
new_row i p =
    let (q, targets) = new_targets i.hosts p in
    (
      record q {
        lists = update q.lists q.next (record { about = i.about; targets = targets });
        rows =
            update q.rows q.next
              (record { config = q.next; host_list = all_of targets; expanded = false });
        next = suc q.next;
      },
      q.next,
    )

unfoldable pub new_rows : List ListData → Page → Page × List ℕ
unfolding new_row
new_rows [] p = (p, [])
new_rows (i ∷ is) p = let (q, r) = new_row i p in let (q', rs) = new_rows is q in (q', r ∷ rs)

-- `set_ip_target_config_mat_table_data_`
unfoldable pub set_lists : List ListData → Page → Page
unfolding new_rows
set_lists response p =
    let (q, rs) = new_rows response p in
    record q { lists_table = some rs; ip_target_selection = none }

-- The loops of a refresh: the first list of the response with the row's id, and the rows up to one
-- at which an exception ends the handler.
unfoldable pub first_with_id : Option Text → List ListData → Option ListData
first_with_id id [] = none
first_with_id id (u ∷ us) = if same id u.about.list_id then some u else first_with_id id us

unfoldable pub refresh_row : TargetList → Option ListData → Page → Page × Bool
unfolding update_ip_targets
refresh_row list none p = (p, true)
refresh_row list (some u) p =
    let (o, finished) = update_ip_targets list.targets u.hosts p.hosts in
    (record p { hosts = o }, finished)

unfoldable pub refresh_rows : List ListData → List ℕ → Page → Page × Bool
unfolding first_with_id refresh_row
refresh_rows response [] p = (p, true)
refresh_rows response (r ∷ rs) p =
    let list = p.lists (p.rows r).config in
    let (q, finished) = refresh_row list (first_with_id list.about.list_id response) p in
    let rest = refresh_rows response rs q in if finished then rest else (q, false)

unfoldable pub refreshed : List ListData → List ℕ → Page → Outcome
unfolding refresh_rows
refreshed response rs p =
    let (q, finished) = refresh_rows response rs p in
    (q, if finished then render_rows ∷ [] else type_error ∷ [])
