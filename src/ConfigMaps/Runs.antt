-- ===== src/ConfigMaps/Runs.antt =====
-- The rows of the table through every handler and any run.
use hellogit.Common.{
  Text, ℕ, zero, suc, ◌==◌, ◌≡◌, ◌≢◌, refl, sym, ap, ◌∙◌, Bool, true, false, not, Option, none,
  some, List, [], ◌∷◌, length, length-set, length-replicate, set_at, replicate, every, find_index,
  ◌<◌, arith, inl, inr, Option-cases,
}
use hellogit.Rest.{ok}
use hellogit.ConfigMaps.Types.{Page, RowFlags, cell_at, write_cell, flag_of, set_flag}
use hellogit.ConfigMaps.Actions.{
  constructed, ng_on_init, negation, get_config_map_index, toggle_table_row_expansion,
  is_config_map_expansion_row_visible, edit_config_map_data, view_config_map_data,
  create_config_map_data, create_closed, delete_config_map_data, delete_confirmed,
  text_editor_closed, edit_entry, api_edit_config_map, replied_edit_config_map,
  replied_get_associated_pods, replied_get_config_maps, allocate_all,
}
use hellogit.ConfigMaps.Events

abbrev is_set : Option Bool → Bool
is_set none = false
is_set (some b) = true

-- Each row of the table has its flag.
abbrev AreFlagged : Page → Type 0
AreFlagged p =
    (length p.config_map_visible.cells ≡ length p.config_maps)
    × (every is_set p.config_map_visible.cells ≡ true)

length-write_cell :
    (cells : List (Option Bool)) (i : ℕ) (b : Bool)
    → i < length cells
    → length (write_cell cells i b) ≡ length cells
length-write_cell [] i b h = absurd (omega (arith, h))
length-write_cell (x ∷ xs) zero b h = refl
length-write_cell (x ∷ xs) (suc i) b h = ap suc (length-write_cell xs i b (omega (arith, h)))

every-write_cell :
    (cells : List (Option Bool)) (i : ℕ) (b : Bool)
    → i < length cells
    → every is_set cells ≡ true
    → every is_set (write_cell cells i b) ≡ true
every-write_cell [] i b h e = absurd (omega (arith, h))
every-write_cell (x ∷ xs) zero b h e = ground (arith, e)
every-write_cell (x ∷ xs) (suc i) b h e =
    ground (arith, e, every-write_cell xs i b (omega (arith, h)))

every-replicate : (n : ℕ) → every is_set (replicate n (some false)) ≡ true
every-replicate zero = refl
every-replicate (suc n) = every-replicate n

find_index-lt {ℓ} :
    {A : Type ℓ} (f : A → Bool) (xs : List A) (i : ℕ) → find_index f xs ≡ some i → i < length xs
find_index-lt f [] i h = cc
find_index-lt f (x ∷ xs) zero h = omega arith
find_index-lt f (x ∷ xs) (suc i) h = ground (arith, find_index-lt f xs i)

-- A flag that is written at the index of an object, or of none.
set_flag-AreFlagged :
    (p : Page) (r : ℕ) (b : Bool)
    → AreFlagged p
    → AreFlagged (record p {
      config_map_visible = set_flag p.config_map_visible (get_config_map_index r p) b;
    })
unfolding get_config_map_index
set_flag-AreFlagged p r b (len, all) = elim (Option-cases (get_config_map_index r p)) [
  | inl e ↦ rw (get_config_map_index, e) (len, all)
  | inr (i, e) ↦
      let low : i < length p.config_map_visible.cells =
        omega (arith, len, find_index-lt _ p.config_maps i e) in
      rw (get_config_map_index, e)
        (
          length-write_cell p.config_map_visible.cells i b low ∙ len,
          every-write_cell p.config_map_visible.cells i b low all,
        )
]

length-set_row : (rs : List ℕ) (i : Option ℕ) (r : ℕ) → length (set_at rs i r) ≡ length rs
length-set_row rs none r = refl
length-set_row rs (some i) r = length-set rs i r

edit-AreFlagged :
    (value : Option Text) (name : Text) (r : ℕ) (pods : List Text) (p : Page)
    → AreFlagged p
    → AreFlagged (api_edit_config_map value name r pods p).0
unfolding api_edit_config_map
edit-AreFlagged value name r pods p f =
    elim (Option-cases (edit_entry value name (p.objects r).data_entries)) [
      | inl e ↦ rw (api_edit_config_map, e) f
      | inr ((d, l), e) ↦ rw (api_edit_config_map, e) f
    ]

handle-AreFlagged : (e : Events.Event) (p : Page) → AreFlagged p → AreFlagged (Events.handle e p).0
unfolding Events.handle toggle_table_row_expansion edit_config_map_data view_config_map_data
    create_config_map_data create_closed delete_config_map_data delete_confirmed text_editor_closed
    replied_edit_config_map replied_get_associated_pods replied_get_config_maps
handle-AreFlagged (Events.toggle r) p f =
    set_flag-AreFlagged p r (negation (flag_of p.config_map_visible (get_config_map_index r p))) f
handle-AreFlagged (Events.create r) p f = f
handle-AreFlagged (Events.edit_data name r) p f = f
handle-AreFlagged (Events.view_data name r) p f = f
handle-AreFlagged (Events.delete_data name r) p f = f
handle-AreFlagged (Events.confirm name r) p f = f
handle-AreFlagged (Events.close_create r none) p f = f
handle-AreFlagged (Events.close_create r (some (valid, name))) p f = f
handle-AreFlagged (Events.close_editor name r pods none) p f = f
handle-AreFlagged (Events.close_editor name r pods (some v)) p f =
    edit-AreFlagged (some v) name r pods p f
handle-AreFlagged (Events.reply_edit label name r (ok t)) p f =
    let (len, all) = set_flag-AreFlagged p r true f in
    (len ∙ sym (length-set_row p.config_maps (get_config_map_index r p) r), all)
handle-AreFlagged (Events.reply_edit label name r _) p f = f
handle-AreFlagged (Events.reply_pods none name r (ok pods)) p f =
    edit-AreFlagged none name r pods p f
handle-AreFlagged (Events.reply_pods (some v) name r (ok pods)) p f = f
handle-AreFlagged (Events.reply_pods none name r _) p f = f
handle-AreFlagged (Events.reply_pods (some v) name r _) p f = f
handle-AreFlagged (Events.reply_config_maps (ok items)) p f =
    let n = length (allocate_all items p).1 in (length-replicate n (some false), every-replicate n)
handle-AreFlagged (Events.reply_config_maps _) p f = f

run-AreFlagged : (es : List Events.Event) (p : Page) → AreFlagged p → AreFlagged (Events.run es p)
unfolding Events.run
run-AreFlagged [] p f = f
run-AreFlagged (e ∷ es) p f = run-AreFlagged es (Events.handle e p).0 (handle-AreFlagged e p f)

cell_at-set :
    (cells : List (Option Bool)) (i : ℕ)
    → i < length cells
    → every is_set cells ≡ true
    → (b : Bool) × (cell_at cells i ≡ some b)
cell_at-set [] i h e = absurd (omega (arith, h))
cell_at-set (none ∷ xs) i h e = cc
cell_at-set (some b ∷ xs) zero h e = (b, refl)
cell_at-set (some b ∷ xs) (suc i) h e = cell_at-set xs i (omega (arith, h)) e

cell_at-write_cell :
    (cells : List (Option Bool)) (i : ℕ) (b : Bool) → cell_at (write_cell cells i b) i ≡ some b
cell_at-write_cell [] zero b = refl
cell_at-write_cell [] (suc i) b = cell_at-write_cell [] i b
cell_at-write_cell (x ∷ xs) zero b = refl
cell_at-write_cell (x ∷ xs) (suc i) b = cell_at-write_cell xs i b

cell_at-write_cell_ne :
    (cells : List (Option Bool)) (i j : ℕ) (b : Bool)
    → i ≢ j
    → cell_at (write_cell cells i b) j ≡ cell_at cells j
cell_at-write_cell_ne [] zero zero b n = absurd (n refl)
cell_at-write_cell_ne [] zero (suc j) b n = refl
cell_at-write_cell_ne [] (suc i) zero b n = refl
cell_at-write_cell_ne [] (suc i) (suc j) b n = cell_at-write_cell_ne [] i j b (λ e. n (ap suc e))
cell_at-write_cell_ne (x ∷ xs) zero zero b n = absurd (n refl)
cell_at-write_cell_ne (x ∷ xs) zero (suc j) b n = refl
cell_at-write_cell_ne (x ∷ xs) (suc i) zero b n = refl
cell_at-write_cell_ne (x ∷ xs) (suc i) (suc j) b n =
    cell_at-write_cell_ne xs i j b (λ e. n (ap suc e))

flag_of-set_flag_ne :
    (f : RowFlags) (i : ℕ) (o : Option ℕ) (b : Bool)
    → some i ≢ o
    → flag_of (set_flag f (some i) b) o ≡ flag_of f o
flag_of-set_flag_ne f i none b n = refl
flag_of-set_flag_ne f i (some j) b n = cell_at-write_cell_ne f.cells i j b (λ e. n (ap some e))

-- An object has one index.
find_index-same :
    (r s : ℕ) (xs : List ℕ) (i : ℕ)
    → find_index (λ x. x == r) xs ≡ some i
    → find_index (λ x. x == s) xs ≡ some i
    → s ≡ r
find_index-same r s [] i h k = cc
find_index-same r s (x ∷ xs) zero h k = ground (arith, h, k)
find_index-same r s (x ∷ xs) (suc i) h k =
    find_index-same r s xs i (ground (arith, h)) (ground (arith, k))

row_toggled :
    (r s i : ℕ) (p : Page)
    → AreFlagged p
    → get_config_map_index r p ≡ some i
    → s ≢ r
    → let q = (toggle_table_row_expansion r p).0 in
      (b : Bool) × (is_config_map_expansion_row_visible r p ≡ some b)
      × (is_config_map_expansion_row_visible r q ≡ some (not b))
      × (is_config_map_expansion_row_visible s q ≡ is_config_map_expansion_row_visible s p)
unfolding toggle_table_row_expansion is_config_map_expansion_row_visible get_config_map_index
row_toggled r s i p (len, all) h n =
    let f = p.config_map_visible in
    let (b, e) =
      cell_at-set f.cells i (omega (arith, len, find_index-lt _ p.config_maps i h)) all in
    let apart : some i ≢ get_config_map_index s p =
      λ k. n (find_index-same r s p.config_maps i h (sym k)) in
    rw h (
      rw e (
        b,
        refl,
        cell_at-write_cell f.cells i (not b),
        flag_of-set_flag_ne f i (get_config_map_index s p) (not b) apart,
      ))

-- After any run from the start of the page: a config map of the table is shown or is not; a click
-- on its row hides it or shows it; and whether another object is shown is as it was.
pub run-toggled :
    (es : List Events.Event) (maintainer admin : Bool) (r s i : ℕ)
    → get_config_map_index r (Events.run es (ng_on_init (constructed maintainer admin)).0) ≡ some i
    → s ≢ r
    → let p = Events.run es (ng_on_init (constructed maintainer admin)).0 in
      let q = (toggle_table_row_expansion r p).0 in
      (b : Bool) × (is_config_map_expansion_row_visible r p ≡ some b)
      × (is_config_map_expansion_row_visible r q ≡ some (not b))
      × (is_config_map_expansion_row_visible s q ≡ is_config_map_expansion_row_visible s p)
unfolding ng_on_init constructed
run-toggled es maintainer admin r s i h n =
    let p = Events.run es (ng_on_init (constructed maintainer admin)).0 in
    row_toggled r s i p
      (run-AreFlagged es (ng_on_init (constructed maintainer admin)).0 (refl, refl)) h n
