-- ===== src/ConfigMaps/Saving.antt =====
-- An entry that is saved: the edit of the object, the request, and its answer.
use hellogit.Common.{
  Text, codes, text_eq, text_leb_total, text_leb_trans, ℕ, ◌≡◌, refl, sym, subst, ap, fun_ext, ◌∙◌,
  ◌≢◌, ◌⊎◌, inl, inr, Bool, true, Option, none, some, List, [], ◌∷◌, ◌++◌, arith, if◌then◌else◌,
  ltb, length, Bool-cases, update_self, update-ne,
}
use hellogit.Common.Sort.{sort, IsSorted, sort-IsSorted}
use hellogit.Rest.{Reply, ok, IsError, refused, unanswered}
use hellogit.ConfigMaps.Types.{
  Data, get, remove, property_order, entry_at_most, ConfigMap, Page, Label, edit_config_map,
  error_snackbar,
}
use hellogit.ConfigMaps.Actions.{
  entry, or_null, edit_entry, write, api_edit_config_map, sorted, error_text,
  replied_edit_config_map,
}
use hellogit.ConfigMaps.Entries.{
  is_keyed, get-put, put-keyed, get-remove, remove-keyed, sort-keyed, get-sort,
}
use hellogit.ConfigMaps.Names.{
  is_word, is_plain, put-plain, remove-plain, property_order-plain, sort-plain,
}

-- No name of an entry stands twice, as in every object.
abbrev pub are_keyed : Option Data → Bool
are_keyed none = true
are_keyed (some d) = is_keyed d

-- A map changed at one name; undefined takes the name out.
abbrev pub changed : (Text → Option Text) → Text → Option Text → Text → Option Text
changed f name value k = if text_eq name k then value else f k

or_null_lem : (d : Data) (k : Text) → entry (or_null d) k ≡ get d k
or_null_lem [] k = refl
or_null_lem (e ∷ d) k = refl

or_null-keyed : (d : Data) → is_keyed d ≡ true → are_keyed (or_null d) ≡ true
or_null-keyed [] h = refl
or_null-keyed (e ∷ d) h = h

-- There is something to delete from, if nothing is written.
abbrev pub CanEdit : Option Text → Option Data → Type 0
CanEdit none none = ⊥
CanEdit _ _ = Unit

edit_entry_lem :
    (value : Option Text) (name : Text) (before : Option Data)
    → CanEdit value before
    → are_keyed before ≡ true
    → (d : Option Data) × (label : Label) × (edit_entry value name before ≡ some (d, label))
      × (entry d ≡ changed (entry before) name value)
      × (are_keyed d ≡ true)
unfolding edit_entry
edit_entry_lem (some v) name (some d) c h =
    (_, _, refl, fun_ext (λ k. get-put name v d k), put-keyed name v d h)
edit_entry_lem (some v) name none c h = (_, _, refl, refl, refl)
edit_entry_lem none name none c h = absurd c
edit_entry_lem none name (some d) c h = (
  _,
  _,
  refl,
  fun_ext (λ k. or_null_lem (remove name d) k ∙ get-remove name d k h),
  or_null-keyed (remove name d) (remove-keyed name d h),
)

-- No name of an entry is that of an array index.
abbrev pub are_plain : Option Data → Bool
are_plain none = true
are_plain (some d) = is_plain d

or_null-plain : (d : Data) → is_plain d ≡ true → are_plain (or_null d) ≡ true
or_null-plain [] h = refl
or_null-plain (e ∷ d) h = h

abbrev stay_plain : Option (Option Data × Label) → Bool
stay_plain none = true
stay_plain (some (d, label)) = are_plain d

edit_entry-plain :
    (value : Option Text) (name : Text) (before after : Option Data) (label : Label)
    → is_word name ≡ true
    → are_plain before ≡ true
    → edit_entry value name before ≡ some (after, label)
    → are_plain after ≡ true
unfolding edit_entry
edit_entry-plain (some v) name (some d) after label w h e =
    sym (ap stay_plain e) ∙ put-plain name v d w h
edit_entry-plain (some v) name none after label w h e = sym (ap stay_plain e) ∙ ground (arith, w)
edit_entry-plain none name none after label w h e = cc
edit_entry-plain none name (some d) after label w h e =
    sym (ap stay_plain e) ∙ or_null-plain (remove name d) (remove-plain name d h)

-- Sorting changes neither the map nor that it is one.
sorted_lem :
    (d : Option Data)
    → are_plain d ≡ true
    → are_keyed d ≡ true
    → (entry (sorted d) ≡ entry d) × (are_keyed (sorted d) ≡ true)
unfolding sorted
sorted_lem none p h = (refl, refl)
sorted_lem (some d) p h = elim (Bool-cases (ltb 1 (length d))) [
  | inl e ↦
      rw (e, property_order-plain d p)
        (fun_ext (λ k. get-sort entry_at_most d k h), sort-keyed entry_at_most d h)
  | inr e ↦ rw e (refl, h)
]

abbrev line_of : Text × Text → Text
line_of e = e.0 ++ codes "," ++ e.1

entry_total : (e f : Text × Text) → (entry_at_most e f ≡ true) ⊎ (entry_at_most f e ≡ true)
entry_total e f = text_leb_total (line_of e) (line_of f)

entry_trans :
    (e f g : Text × Text)
    → entry_at_most e f ≡ true
    → entry_at_most f g ≡ true
    → entry_at_most e g ≡ true
entry_trans e f g = text_leb_trans (line_of e) (line_of f) (line_of g)

-- The entries are in order, as `Object.entries` goes through them.
abbrev pub AreSorted : Option Data → Type 0
AreSorted none = Unit
AreSorted (some d) = IsSorted entry_at_most (property_order d)

sorted-AreSorted : (d : Option Data) → are_plain d ≡ true → AreSorted (sorted d)
unfolding sorted
sorted-AreSorted none p = tt
sorted-AreSorted (some []) p = subst (IsSorted entry_at_most) (sym (property_order-plain [] p)) tt
sorted-AreSorted (some (e ∷ [])) p =
    subst (IsSorted entry_at_most) (sym (property_order-plain (e ∷ []) p)) (tt, tt)
sorted-AreSorted (some (e ∷ f ∷ d)) p =
    let long : ltb 1 (length (e ∷ f ∷ d)) ≡ true = ground arith in
    let all = e ∷ f ∷ d in
    let same = ap (λ x. property_order (sort entry_at_most x)) (property_order-plain all p) in
    let again = property_order-plain (sort entry_at_most all) (sort-plain entry_at_most all p) in
    rw long (
      subst (IsSorted entry_at_most) (sym (same ∙ again))
        (sort-IsSorted entry_at_most entry_total entry_trans all))

-- The object at its own address and at others.
entries : ℕ → Page → Option Data
entries r p = (p.objects r).data_entries

write_self : (r : ℕ) (d : Option Data) (p : Page) → ((write r d p).objects r).data_entries ≡ d
write_self r d p =
    ap (λ (c : ConfigMap). c.data_entries)
      (update_self p.objects r (record (p.objects r) { data_entries = d }))

write-ne : (r s : ℕ) (d : Option Data) (p : Page) → s ≢ r → (write r d p).objects s ≡ p.objects s
write-ne r s d p n = update-ne p.objects (record (p.objects r) { data_entries = d }) n

replied_self :
    (label : Label) (name : Text) (r : ℕ) (q : Page)
    → ((replied_edit_config_map label name r (ok tt) q).0.objects r).data_entries
      ≡ sorted (q.objects r).data_entries
unfolding replied_edit_config_map
replied_self label name r q = write_self r (sorted (q.objects r).data_entries) q

replied-ne :
    (label : Label) (name : Text) (r s : ℕ) (q : Page)
    → s ≢ r
    → (replied_edit_config_map label name r (ok tt) q).0.objects s ≡ q.objects s
unfolding replied_edit_config_map
replied-ne label name r s q n = write-ne r s (sorted (q.objects r).data_entries) q n

refused_keeps :
    (label : Label) (name : Text) (r : ℕ) (reply : Reply (Unit {0}))
    → IsError reply
    → (q : Page)
    → replied_edit_config_map label name r reply q
      ≡ (q, error_snackbar (error_text label ++ (codes " config map data: " ++ name)) ∷ [])
unfolding replied_edit_config_map
refused_keeps label name r _ (refused m) q = refl
refused_keeps label name r _ unanswered q = refl

module _ (value : Option Text) (name : Text) (r : ℕ) (pods : List Text) (p : Page)
    (can : CanEdit value (p.objects r).data_entries)
    (keyed : are_keyed (p.objects r).data_entries ≡ true) where
  -- What the handler does, if nothing is thrown.
  api_lem :
      (d : Option Data) (l : Label)
      → edit_entry value name (p.objects r).data_entries ≡ some (d, l)
      → api_edit_config_map value name r pods p
        ≡ (write r d p, edit_config_map r d pods l name ∷ [])
  unfolding api_edit_config_map
  api_lem d l e = rw (api_edit_config_map, e) refl

  -- An entry is written or deleted, and the server has saved it: the request has the object's
  -- entries as a map, changed at the one name; so has the object when the answer has come, with no
  -- name twice, and with its entries in order as Object.entries goes through them; and any other
  -- object is as it was. Nothing is deleted where there are no entries, no name stood twice before,
  -- and neither the name nor one that was there is that of an array index.
  pub saved_lem :
      (label : Label) (s : ℕ)
      → s ≢ r
      → is_word name ≡ true
      → are_plain (p.objects r).data_entries ≡ true
      → let (q, asked) = api_edit_config_map value name r pods p in
        let o = replied_edit_config_map label name r (ok tt) q in
        ((d : Option Data) × (l : Label) × (asked ≡ edit_config_map r d pods l name ∷ [])
          × (entry d ≡ changed (entry (p.objects r).data_entries) name value))
        × (entry (o.0.objects r).data_entries
            ≡ changed (entry (p.objects r).data_entries) name value)
        × AreSorted (o.0.objects r).data_entries
        × (are_keyed (o.0.objects r).data_entries ≡ true)
        × (o.0.objects s ≡ p.objects s)
  saved_lem label s n word plain =
      let (d, l, e, m, k) = edit_entry_lem value name (p.objects r).data_entries can keyed in
      let q = write r d p in
      let w : (q.objects r).data_entries ≡ d = write_self r d p in
      let f = replied_self label name r q ∙ ap sorted w in
      let still_plain = edit_entry-plain value name (p.objects r).data_entries d l word plain e in
      let (same, still) = sorted_lem d still_plain k in
      rw (api_lem d l e) (
        (d, l, refl, m),
        ap entry f ∙ (same ∙ m),
        subst AreSorted (sym f) (sorted-AreSorted d still_plain),
        ap are_keyed f ∙ still,
        replied-ne label name r s q n ∙ write-ne r s d p n,
      )

  -- An entry is written or deleted, and the server refuses: one message is shown, and the object
  -- keeps the change that was not saved. Nothing is deleted where there are no entries, and no
  -- name stood twice before.
  pub refused_lem :
      (label : Label) (reply : Reply (Unit {0}))
      → IsError reply
      → let q = (api_edit_config_map value name r pods p).0 in
        let o = replied_edit_config_map label name r reply q in
        (entry (o.0.objects r).data_entries ≡ changed (entry (p.objects r).data_entries) name value)
        × ((m : Text) × (o.1 ≡ error_snackbar m ∷ []))
  refused_lem label reply refusal =
      let (d, l, e, m, k) = edit_entry_lem value name (p.objects r).data_entries can keyed in
      rw (api_lem d l e) (
        rw (refused_keeps label name r reply refusal (write r d p))
          (ap entry (write_self r d p) ∙ m, (_, refl)))
