-- ===== src/Chips.antt =====
-- web/frontend/src/app/modules/global-components/components/modal-dialog-mat/
-- modal-dialog-mat.component.ts: the dialog with a form, and the alert chips that it collects.
pub mod Clean
pub mod Submit
mod Tests
unfoldable pub use hellogit.Common.{Text, text_eq, is_space, trim_start, is_empty, trim_end, trim}
use hellogit.Common.{
  ℕ, Bool, true, false, ◌&&◌, ◌||◌, Option, none, some, List, [], ◌∷◌, ◌++◌, map, if◌then◌else◌,
  ◌==◌, leb, find_index, remove_at,
}

-- DialogControlTypesEnum
pub data ControlType : Type 0 where
  text textarea password dropdown checkbox date chips timezone other : ControlType

pub record FormControl : Type 0 where
  pub control_type : ControlType
  pub value : Text

-- `closed` is what the dialog was closed with.
pub data Closed : Type 0 where
  cancelled : Closed
  submitted : List FormControl → Closed

pub record Modal : Type 0 where
  pub form : List FormControl
  pub chips_ : List Text
  pub closed : Option Closed

abbrev pub constructed : List FormControl → Modal
constructed form = record { form = form; chips_ = []; closed = none }

abbrev pub is_chips : FormControl → Bool
is_chips control = elim control.control_type [ chips ↦ true | _ ↦ false ]

unfoldable pub add_alert_chip : Text → Modal → Modal
add_alert_chip typed m =
    let value = trim typed in
    if is_empty value then m else record m { chips_ = m.chips_ ++ value ∷ [] }

-- `splice` at what `indexOf` returned, if it is not -1
abbrev pub remove_found : Option ℕ → List Text → List Text
remove_found none ts = ts
remove_found (some i) ts = remove_at i ts

unfoldable pub remove_alert_chip : Text → Modal → Modal
remove_alert_chip chip m = record m {
  chips_ = remove_found (find_index (text_eq chip) m.chips_) m.chips_;
}

unfoldable pub cancel : Modal → Modal
cancel m = record m { closed = some cancelled }

-- `join(',')`
unfoldable pub join : List Text → Text
join [] = []
join (t ∷ []) = t
join (t ∷ u ∷ us) = t ++ b',' ∷ join (u ∷ us)

-- One round of the loop of `submit`.
unfoldable pub fill : Text → FormControl → FormControl
fill joined control = if is_chips control then record control { value = joined } else control

unfoldable pub submit : Modal → Modal
unfolding fill
submit m =
    let form = map (fill (join m.chips_)) m.form in
    record m { form = form; closed = some (submitted form) }

pub data Event : Type 0 where
  add remove : Text → Event
  press_cancel press_submit : Event

unfoldable pub handle : Event → Modal → Modal
handle (add typed) m = add_alert_chip typed m
handle (remove chip) m = remove_alert_chip chip m
handle press_cancel m = cancel m
handle press_submit m = submit m

unfoldable pub run : List Event → Modal → Modal
run [] m = m
run (e ∷ es) m = run es (handle e m)
