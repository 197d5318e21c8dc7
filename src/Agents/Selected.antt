-- ===== src/Agents/Selected.antt =====
-- What is selected is a row of its table.
use hellogit.Common.{
  ℕ, zero, suc, Bool, Bool-cases, inl, inr, true, false, ◌≡◌, refl, sym, ◌∙◌, ap, subst, fun_ext,
  Option, none, some, List, [], ◌∷◌, map, get_elem?, update, arith,
}
use hellogit.Agents.Types.{ListData, TargetList, Row, Installer, Page, Effect, Outcome}
use hellogit.Agents.Tables.{
  new_targets, new_row, new_rows, set_lists, first_with_id, refresh_row, refresh_rows, refreshed,
}
use hellogit.Agents.Actions.{row_at, choose_installer, choose_list}
use hellogit.Agents.Dialogs.{filter_targets, ask_after}
use hellogit.Agents.Replies.{receive_lists}
use hellogit.Agents.Events.{on_selected, on_both}

-- A selection is none, or stands at some place of a table.
abbrev pub IsPlaced : {A : Type 0} → Option A → Option (List A) → Type 0
IsPlaced none table = Unit
IsPlaced (some a) none = ⊥
IsPlaced (some a) (some table) = (i : ℕ) × (get_elem? table i ≡ some a)

-- The lists that a table shows.
abbrev pub shown_lists : (ℕ → Row) → Option (List ℕ) → Option (List ℕ)
shown_lists rows none = none
shown_lists rows (some rs) = some (map (λ r. (rows r).config) rs)

abbrev pub AreSelected : Page → Type 0
AreSelected p =
    IsPlaced p.installer_selection p.installers
    × IsPlaced p.ip_target_selection (shown_lists p.rows p.lists_table)

-- Rows may be opened and may show other hosts.
configs_keep :
    (rows : ℕ → Row) (r : ℕ) (v : Row) (table : Option (List ℕ))
    → v.config ≡ (rows r).config
    → shown_lists (update rows r v) table ≡ shown_lists rows table
configs_keep rows r v none e = refl
configs_keep rows r v (some rs) e =
    let same : ◌≡◌ {A = ℕ → ℕ} (λ s. (update rows r v s).config) (λ s. (rows s).config) =
      fun_ext (λ s. ground arith) in
    ap (λ f. some (map f rs)) same

new_row_keeps :
    (i : ListData) (p : Page)
    → ((new_row i p).0.installers ≡ p.installers)
      × ((new_row i p).0.installer_selection ≡ p.installer_selection)
unfolding new_row new_targets
new_row_keeps i p = elim i.hosts [ none ↦ ground arith | some hs ↦ ground arith ]

new_rows_keeps :
    (is : List ListData) (p : Page)
    → ((new_rows is p).0.installers ≡ p.installers)
      × ((new_rows is p).0.installer_selection ≡ p.installer_selection)
unfolding new_rows
new_rows_keeps [] p = (refl, refl)
new_rows_keeps (i ∷ is) p =
    let (a, b) = new_rows_keeps is (new_row i p).0 in
    let (c, d) = new_row_keeps i p in (a ∙ c, b ∙ d)

pub set_lists_lem :
    (response : List ListData) (p : Page) → AreSelected p → AreSelected (set_lists response p)
unfolding set_lists
set_lists_lem response p (h, _) = let (a, b) = new_rows_keeps response p in (rw (a, b) h, tt)

refresh_row_lem :
    (list : TargetList) (found : Option ListData) (p : Page)
    → AreSelected p
    → AreSelected (refresh_row list found p).0
unfolding refresh_row
refresh_row_lem list none p h = h
refresh_row_lem list (some u) p h = h

refresh_rows_lem :
    (response : List ListData) (rs : List ℕ) (p : Page)
    → AreSelected p
    → AreSelected (refresh_rows response rs p).0
unfolding refresh_rows
refresh_rows_lem response [] p h = h
refresh_rows_lem response (r ∷ rs) p h =
    let list = p.lists (p.rows r).config in
    let found = first_with_id list.about.list_id response in
    let kept = refresh_row_lem list found p h in
    elim (Bool-cases (refresh_row list found p).1) [
      | inl e ↦ rw e (refresh_rows_lem response rs (refresh_row list found p).0 kept)
      | inr e ↦ rw e kept
    ]

pub receive_lists_lem :
    (refresh : Bool) (table : Option (List ℕ)) (response : List ListData) (p : Page)
    → AreSelected p
    → AreSelected (receive_lists refresh table response p).0
unfolding receive_lists refreshed
receive_lists_lem true (some rs) response p h = refresh_rows_lem response rs p h
receive_lists_lem true none response p h = set_lists_lem response p h
receive_lists_lem false table response p h = set_lists_lem response p h

pub single_lem :
    (targets : Option (List ℕ)) (l h : ℕ) (dialog : Effect) (p : Page)
    → AreSelected p
    → AreSelected (ask_after (filter_targets targets l h p) dialog p).0
single_lem none l h dialog p s = s
single_lem (some ts) l h dialog p s = s

placed :
    {A : Type 0} (table : List A) (i : ℕ) (o : Option A)
    → get_elem? table i ≡ o
    → IsPlaced o (some table)
placed table i none e = tt
placed table i (some a) e = (i, e)

pub row_at_lem : {A : Type 0} (table : Option (List A)) (i : ℕ) → IsPlaced (row_at table i) table
row_at_lem none i = tt
row_at_lem (some rows) i = placed rows i (get_elem? rows i) refl

pub choose_installer_lem :
    (o : Option Installer) (p : Page)
    → IsPlaced o p.installers
    → AreSelected p
    → AreSelected (choose_installer o p)
choose_installer_lem none p h s = s
choose_installer_lem (some c) p h s = (h, s.1)

get_elem?-map :
    (f : ℕ → ℕ) (rs : List ℕ) (i : ℕ) {r : ℕ}
    → get_elem? rs i ≡ some r
    → get_elem? (map f rs) i ≡ some (f r)
get_elem?-map f [] i e = cc
get_elem?-map f (r ∷ rs) zero e = cc
get_elem?-map f (r ∷ rs) (suc i) e = get_elem?-map f rs i e

shown-IsPlaced :
    (rows : ℕ → Row) (r : ℕ) (table : Option (List ℕ))
    → IsPlaced (some r) table
    → IsPlaced (some (rows r).config) (shown_lists rows table)
shown-IsPlaced rows r none h = h
shown-IsPlaced rows r (some rs) (i, e) = (i, get_elem?-map (λ s. (rows s).config) rs i e)

pub choose_list_lem :
    (o : Option ℕ) (p : Page)
    → IsPlaced o p.lists_table
    → AreSelected p
    → AreSelected (choose_list o p)
choose_list_lem none p h s = s
choose_list_lem (some r) p h s = (s.0, shown-IsPlaced p.rows r p.lists_table h)

pub row_lem :
    (r : ℕ) (v : Row) (p : Page)
    → v.config ≡ (p.rows r).config
    → AreSelected p
    → AreSelected (record p { rows = update p.rows r v })
row_lem r v p e (h, k) = (
  h,
  subst (λ t. IsPlaced p.ip_target_selection t) (sym (configs_keep p.rows r v p.lists_table e)) k,
)

pub selected_lem :
    (f : Installer → Page → Outcome) (o : Option Installer) (p : Page)
    → ((c : Installer) → AreSelected (f c p).0)
    → AreSelected p
    → AreSelected (on_selected f o p).0
selected_lem f none p k h = h
selected_lem f (some c) p k h = k c

pub both_lem :
    (f : Installer → ℕ → Page → Outcome) (o : Option Installer) (o' : Option ℕ) (p : Page)
    → ((c : Installer) (l : ℕ) → AreSelected (f c l p).0)
    → AreSelected p
    → AreSelected (on_both f o o' p).0
both_lem f none o' p k h = h
both_lem f (some c) none p k h = h
both_lem f (some c) (some l) p k h = k c l
