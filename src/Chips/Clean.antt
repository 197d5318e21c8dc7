-- ===== src/Chips/Clean.antt =====
-- The chips are trimmed and not empty.
use hellogit.Common.{
  All-snoc, ℕ, zero, suc, ◌≡◌, refl, ◌≢◌, inl, inr, false, ◌&&◌, Option, none, some, List, [], ◌∷◌,
  Bool-cases, All, find_index, remove_at,
}
use hellogit.Chips.{
  Text, is_space, trim_start, trim_end, is_empty, trim, FormControl, Modal, constructed,
  add_alert_chip, remove_alert_chip, cancel, submit, text_eq, remove_found, Event, add, remove,
  press_cancel, press_submit, handle, run,
}

-- Not empty, and with no white space at its ends.
abbrev pub Clean : Text → Type 0
Clean chip = (chip ≢ []) × (trim chip ≡ chip)

trim_end_twice : (t : Text) → trim_end (trim_end t) ≡ trim_end t
unfolding trim_end
trim_end_twice [] = refl
trim_end_twice (c ∷ cs) = elim (Bool-cases (is_space c && is_empty (trim_end cs))) [
  | inl e ↦ rw e refl
  | inr e ↦ rw (e, trim_end_twice cs, e) refl
]

trim_twice : (t : Text) → trim (trim t) ≡ trim t
unfolding trim_start trim_end
trim_twice [] = refl
trim_twice (c ∷ cs) = elim (Bool-cases (is_space c)) [
  | inl e ↦ rw e (trim_twice cs)
  | inr e ↦ rw (e, e, e, e, trim_end_twice cs) refl
]

remove-All : (i : ℕ) (ts : List Text) → All Clean ts → All Clean (remove_at i ts)
remove-All i [] h = tt
remove-All zero (t ∷ ts) h = h.1
remove-All (suc i) (t ∷ ts) h = (h.0, remove-All i ts h.1)

full : (t : Text) → is_empty t ≡ false → t ≢ []
full [] h = cc
full (c ∷ cs) h = λ e. cc

add-Clean : (t : Text) (m : Modal) → All Clean m.chips_ → All Clean (add_alert_chip t m).chips_
unfolding add_alert_chip
add-Clean t m h = elim (Bool-cases (is_empty (trim t))) [
  | inl e ↦ rw e h
  | inr e ↦ rw e (All-snoc Clean m.chips_ (trim t) h (full (trim t) e, trim_twice t))
]

found-Clean : (o : Option ℕ) (ts : List Text) → All Clean ts → All Clean (remove_found o ts)
found-Clean none ts h = h
found-Clean (some i) ts h = remove-All i ts h

remove-Clean :
    (t : Text) (m : Modal) → All Clean m.chips_ → All Clean (remove_alert_chip t m).chips_
unfolding remove_alert_chip
remove-Clean t m h = found-Clean (find_index (text_eq t) m.chips_) m.chips_ h

run-Clean_from : (es : List Event) (m : Modal) → All Clean m.chips_ → All Clean (run es m).chips_
unfolding run handle cancel submit
run-Clean_from [] m h = h
run-Clean_from (add t ∷ es) m h = run-Clean_from es (add_alert_chip t m) (add-Clean t m h)
run-Clean_from (remove t ∷ es) m h = run-Clean_from es (remove_alert_chip t m) (remove-Clean t m h)
run-Clean_from (press_cancel ∷ es) m h = run-Clean_from es (cancel m) h
run-Clean_from (press_submit ∷ es) m h = run-Clean_from es (submit m) h

-- Whatever is typed and removed, in whatever order, every chip of the dialog is a text that is not
-- empty and that trimming leaves as it is.
pub run-Clean :
    (es : List Event) (form : List FormControl) → All Clean (run es (constructed form)).chips_
run-Clean es form = run-Clean_from es (constructed form) tt
