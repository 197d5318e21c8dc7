-- ===== src/Chips/Tests.antt =====
-- The theorems on chips, applied.
use hellogit.Common.{◌≡◌, refl, none, some, List, [], ◌∷◌}
use hellogit.Chips.{
  chips, text, FormControl, Modal, submitted, constructed, Event, add, remove, press_submit, submit,
  trim_start, trim_end, is_space, add_alert_chip,
}
use hellogit.Chips.Submit.{Filled, submit-Filled}

abbrev form : List FormControl
form =
    record { control_type = text; value = b'x' ∷ [] }
    ∷ record { control_type = chips; value = [] }
    ∷ []

-- ` a`, which is trimmed, then `b`, and the first is removed.
abbrev events : List Event
events =
    add (b' ' ∷ b'a' ∷ [])
    ∷ add (b' ' ∷ [])
    ∷ add (b'b' ∷ [])
    ∷ remove (b'a' ∷ [])
    ∷ press_submit
    ∷ []

abbrev two : Modal
two = record { form = form; chips_ = (b'a' ∷ []) ∷ (b'b' ∷ []) ∷ []; closed = none }

added : (add_alert_chip (b' ' ∷ b'a' ∷ []) (constructed form)).chips_ ≡ (b'a' ∷ []) ∷ []
unfolding add_alert_chip trim_start trim_end is_space
added = refl

submit-Filled_example :
    let after = submit two in
    Filled two.chips_ form after.form × (after.closed ≡ some (submitted after.form))
submit-Filled_example = submit-Filled two (λ e. cc) (refl, (refl, tt))
