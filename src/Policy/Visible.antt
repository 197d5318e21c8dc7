-- ===== src/Policy/Visible.antt =====
-- Which rule set's rules are shown: `rules_visible_` through every event.
use hellogit.Common.{
  ℕ, zero, suc, ◌+◌, ◌≤◌, ◌≡◌, refl, String, Bool, true, false, Option, none, some, List, [], ◌∷◌,
  length, set, replicate, arith, inl, inr, Bool-cases, ◌≢◌, not, ap, sym, ◌∙◌, find_index, ◌&&◌,
  ◌==◌,
}
use hellogit.Policy.Types.{Flags, Page, ok, one, many, new_rule_set, new_rule_sets, RuleSetData}
use hellogit.Policy.Actions.{
  all_hidden, flip_at, flag_at, constructed, get_rules_clicked, ng_on_init, edit_rule_closed,
  enable_rule_set, enable_rule, delete_rule_closed, delete_rule_set_closed, edit_rule_set_closed,
  add_rule_closed, rule_sync, add_rule_set_closed, upload_rules_file_closed, get_rule_set_index,
  rules_visible,
}
use hellogit.Policy.Replies.{
  replied_sync_rule_sets, replied_get_rule_sets, replied_get_rules, replied_create_rule_set,
  replied_update_rule_set, replied_upload_rule_file, replied_toggle_rule, replied_delete_rule,
  replied_delete_rule_set, replied_check_suricata, replied_check_zeek, replied_get_jobs, broadcast,
  rule_set_changed,
}
use hellogit.Policy.Events
use hellogit.Policy.Clicks.{rules_visible-clicked}

-- How many of the flags are set, the one at -1 included.
abbrev pub bit : Bool → ℕ
bit true = 1
bit false = 0

abbrev pub shown : List Bool → ℕ
shown [] = 0
shown (b ∷ bs) = bit b + shown bs

abbrev pub AtMostOneVisible : Page → Type 0
AtMostOneVisible p = bit p.rules_visible_.at_minus_one + shown p.rules_visible_.cells ≤ 1

shown-replicate : (n : ℕ) → shown (replicate n false) ≡ 0
shown-replicate zero = refl
shown-replicate (suc n) = omega (arith, shown-replicate n)

shown-set : (n i : ℕ) → shown (set (replicate n false) i true) ≤ 1
shown-set zero i = omega arith
shown-set (suc n) zero = omega (arith, shown-replicate n)
shown-set (suc n) (suc i) = omega (arith, shown-set n i)

get_elem?-replicate : (n i : ℕ) → flag_at (all_hidden n) (some i) ≡ false
get_elem?-replicate zero i = refl
get_elem?-replicate (suc n) zero = refl
get_elem?-replicate (suc n) (suc i) = get_elem?-replicate n i

-- One flip after hiding all.
flip-all_hidden :
    (n : ℕ) (index : Option ℕ)
    → bit (flip_at (all_hidden n) index).at_minus_one + shown (flip_at (all_hidden n) index).cells
      ≤ 1
flip-all_hidden n none = omega (arith, shown-replicate n)
flip-all_hidden n (some i) = rw (get_elem?-replicate n i) (omega (arith, shown-set n i))

get_rules_clicked_visible : (r : ℕ) (p : Page) → AtMostOneVisible (get_rules_clicked r p).0
unfolding get_rules_clicked
get_rules_clicked_visible r p =
    let index = get_rule_set_index (p.objects r).details.id p in
    elim (Bool-cases (flag_at p.rules_visible_ index)) [
      | inl e ↦ rw e (omega (arith, shown-replicate (length p.rule_sets)))
      | inr e ↦ rw e (flip-all_hidden (length p.rule_sets) index)
    ]

shown_one :
    (bs : List Bool) (m : Bool) (i : ℕ)
    → flag_at (record { cells = bs; at_minus_one = m }) (some i) ≡ true
    → 1 ≤ shown bs
shown_one [] m i h = cc
shown_one (b ∷ bs) m zero h = rw h (omega arith)
shown_one (b ∷ bs) m (suc i) h = omega (arith, shown_one bs m i h)

shown_two :
    (bs : List Bool) (m : Bool) (i j : ℕ)
    → i ≢ j
    → flag_at (record { cells = bs; at_minus_one = m }) (some i) ≡ true
    → flag_at (record { cells = bs; at_minus_one = m }) (some j) ≡ true
    → 2 ≤ shown bs
shown_two [] m i j ne h k = cc
shown_two (b ∷ bs) m zero zero ne h k = absurd (ne refl)
shown_two (b ∷ bs) m zero (suc j) ne h k = rw h (omega (arith, shown_one bs m j k))
shown_two (b ∷ bs) m (suc i) zero ne h k = rw k (omega (arith, shown_one bs m i h))
shown_two (b ∷ bs) m (suc i) (suc j) ne h k =
    omega (arith, shown_two bs m i j (λ e. ne (ap suc e)) h k)

-- Two different elements, or an element and the one at -1.
two_set :
    (f : Flags) (i : ℕ) (o : Option ℕ)
    → some i ≢ o
    → flag_at f (some i) ≡ true
    → flag_at f o ≡ true
    → 2 ≤ bit f.at_minus_one + shown f.cells
two_set f i none ne h k = rw k (omega (arith, shown_one f.cells f.at_minus_one i h))
two_set f i (some j) ne h k =
    omega (arith, shown_two f.cells f.at_minus_one i j (λ e. ne (ap some e)) h k)

-- The element that is found passes both tests.
find_index-both {ℓ} :
    {A : Type ℓ} (f g : A → Bool) (xs : List A) (i : ℕ)
    → find_index f xs ≡ some i
    → find_index g xs ≡ some i
    → (x : A) × (f x ≡ true) × (g x ≡ true)
find_index-both f g [] i h k = cc
find_index-both f g (x ∷ xs) zero h k = (x, ground (arith, h), ground (arith, k))
find_index-both f g (x ∷ xs) (suc i) h k =
    find_index-both f g xs i (ground (arith, h)) (ground (arith, k))

equal_of : (a b : ℕ) → (a == b) ≡ true → a ≡ b
equal_of a b h = ground (arith, h)

and_false : (a b : Bool) → (a ≡ true → b ≡ true → ⊥) → (a && b) ≡ false
and_false true true h = absurd (h refl refl)
and_false true false h = refl
and_false false b h = refl

not_both :
    (r s i : ℕ) (p : Page)
    → AtMostOneVisible p
    → get_rule_set_index (p.objects r).details.id p ≡ some i
    → (p.objects r).details.id ≢ (p.objects s).details.id
    → (rules_visible r p && rules_visible s p) ≡ false
unfolding rules_visible
not_both r s i p at_most_one h ne =
    let f = p.rules_visible_ in
    let o = get_rule_set_index (p.objects s).details.id p in
    let apart : some i ≢ o = λ e.
      let (x, hx, kx) = find_index-both _ _ p.rule_sets i h (sym e) in
      ne (
        sym (equal_of (p.objects x).details.id (p.objects r).details.id hx)
        ∙ equal_of (p.objects x).details.id (p.objects s).details.id kx) in
    and_false _ _ (λ hr hs.
      let two = two_set f i o apart (ap (flag_at f) (sym h) ∙ hr) hs in
      omega (arith, two, at_most_one))

new_rule_sets_flags :
    (ds : List RuleSetData) (p : Page) → (new_rule_sets ds p).0.rules_visible_ ≡ p.rules_visible_
unfolding new_rule_sets new_rule_set
new_rule_sets_flags [] p = refl
new_rule_sets_flags (d ∷ ds) p = new_rule_sets_flags ds (new_rule_set d p).0

module _ (at_most : String → String → Bool) where
  -- One event keeps it.
  handle_visible :
      (e : Events.Event) (p : Page)
      → AtMostOneVisible p
      → AtMostOneVisible (Events.handle at_most e p).0
  unfolding Events.handle ng_on_init rule_sync rule_set_changed enable_rule_set enable_rule
      edit_rule_closed delete_rule_closed delete_rule_set_closed edit_rule_set_closed
      add_rule_closed add_rule_set_closed upload_rules_file_closed replied_sync_rule_sets
      replied_get_rules replied_create_rule_set replied_update_rule_set replied_upload_rule_file
      replied_toggle_rule replied_delete_rule replied_delete_rule_set replied_check_suricata
      replied_check_zeek replied_get_jobs broadcast replied_get_rule_sets new_rule_set
  handle_visible Events.init p h = h
  handle_visible Events.sync p h = h
  handle_visible Events.socket_rule_set_change p h = h
  handle_visible (Events.click_get_rules r) p h = get_rules_clicked_visible r p
  handle_visible (Events.click_enable_rule_set r) p h = h
  handle_visible (Events.click_enable_rule rule r) p h = h
  handle_visible (Events.close_edit_rule rule none) p h = h
  handle_visible (Events.close_edit_rule rule (some x)) p h = h
  handle_visible (Events.close_delete_rule rule r false) p h = h
  handle_visible (Events.close_delete_rule rule r true) p h = ground arith
  handle_visible (Events.close_delete_rule_set r confirmed) p h = h
  handle_visible (Events.close_edit_rule_set none) p h = h
  handle_visible (Events.close_edit_rule_set (some x)) p h = h
  handle_visible (Events.close_add_rule none) p h = h
  handle_visible (Events.close_add_rule (some x)) p h = h
  handle_visible (Events.close_add_rule_set none) p h = h
  handle_visible (Events.close_add_rule_set (some x)) p h = h
  handle_visible (Events.close_upload none) p h = h
  handle_visible (Events.close_upload (some x)) p h = h
  handle_visible (Events.reply_sync (ok x)) p h = h
  handle_visible (Events.reply_sync _) p h = h
  handle_visible (Events.reply_get_rule_sets (ok x)) p h = omega (arith, shown-replicate (length x))
  handle_visible (Events.reply_get_rule_sets _) p h = h
  handle_visible (Events.reply_get_rules r i (ok x)) p h = h
  handle_visible (Events.reply_get_rules r i _) p h = h
  handle_visible (Events.reply_create (ok x)) p h = h
  handle_visible (Events.reply_create _) p h = h
  handle_visible (Events.reply_update id e true (ok (some x))) p h = h
  handle_visible (Events.reply_update id e false (ok (some x))) p h = h
  handle_visible (Events.reply_update id e _ (ok none)) p h = h
  handle_visible (Events.reply_update id e _ _) p h = h
  handle_visible (Events.reply_upload (ok (one x))) p h = h
  handle_visible (Events.reply_upload (ok (many x))) p h = ground arith
  handle_visible (Events.reply_upload _) p h = h
  handle_visible (Events.reply_toggle rule r (ok (some x))) p h = h
  handle_visible (Events.reply_toggle rule r (ok none)) p h = h
  handle_visible (Events.reply_toggle rule r _) p h = h
  handle_visible (Events.reply_delete_rule i (ok (some x))) p h = h
  handle_visible (Events.reply_delete_rule i (ok none)) p h = h
  handle_visible (Events.reply_delete_rule i _) p h = h
  handle_visible (Events.reply_delete_rule_set i (ok (some x))) p h = h
  handle_visible (Events.reply_delete_rule_set i (ok none)) p h = h
  handle_visible (Events.reply_delete_rule_set i _) p h = h
  handle_visible (Events.reply_suricata (ok (some []))) p h = h
  handle_visible (Events.reply_suricata (ok _)) p h = h
  handle_visible (Events.reply_suricata _) p h = h
  handle_visible (Events.reply_zeek (ok (some []))) p h = h
  handle_visible (Events.reply_zeek (ok _)) p h = h
  handle_visible (Events.reply_zeek _) p h = h
  handle_visible (Events.reply_jobs (ok x)) p h = h
  handle_visible (Events.reply_jobs _) p h = h
  handle_visible (Events.socket_broadcast n) p h = ground arith

  run_visible :
      (es : List Events.Event) (p : Page)
      → AtMostOneVisible p
      → AtMostOneVisible (Events.run at_most es p).0
  unfolding Events.run
  run_visible [] p h = h
  run_visible (e ∷ es) p h = run_visible es (Events.handle at_most e p).0 (handle_visible e p h)

  -- Whatever happens after the page is made, in whatever order: of two rule sets with different
  -- ids, the first of which is in the table, the page does not show the rules of both; and a click
  -- on the first shows its rules if they were hidden, and hides them if they were shown.
  pub run-AtMostOneVisible :
      (es : List Events.Event) (r s i : ℕ)
      → get_rule_set_index
          ((Events.run at_most es constructed).0.objects r).details.id
          (Events.run at_most es constructed).0
        ≡ some i
      → ((Events.run at_most es constructed).0.objects r).details.id
        ≢ ((Events.run at_most es constructed).0.objects s).details.id
      → let p = (Events.run at_most es constructed).0 in
        ((rules_visible r p && rules_visible s p) ≡ false)
        × (rules_visible r (get_rules_clicked r p).0 ≡ not (rules_visible r p))
  run-AtMostOneVisible es r s i h ne =
      let p = (Events.run at_most es constructed).0 in
      (
        not_both r s i p (run_visible es constructed (omega arith)) h ne,
        rules_visible-clicked r i p h,
      )
