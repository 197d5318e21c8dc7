-- ===== src/Chips/Submit.antt =====
-- What `submit` hands on.
use hellogit.Common.{
  ◌≡◌, refl, ap, ◌∙◌, ◌≢◌, inl, inr, false, some, List, [], ◌∷◌, ◌++◌, map, arith, if◌then◌else◌,
  ◌==◌, any, Bool-cases, All,
}
use hellogit.Chips.{Text, FormControl, Modal, is_chips, join, fill, submit, submitted}

-- The reader of a joined text: its parts between the commas.
abbrev pub split : Text → List Text
split [] = [] ∷ []
split (c ∷ cs) =
    let parts = split cs in
    if c == b',' then [] ∷ parts else elim parts [ [] ↦ (c ∷ []) ∷ [] | t ∷ ts ↦ (c ∷ t) ∷ ts ]

abbrev pub NoComma : Text → Type 0
NoComma t = any (λ c. c == b',') t ≡ false

split-last : (t : Text) → NoComma t → split t ≡ t ∷ []
split-last [] h = refl
split-last (c ∷ cs) h = elim (Bool-cases (c == b',')) [
  | inl e ↦ ground arith
  | inr e ↦ rw (e, split-last cs (ground arith)) refl
]

split-comma : (t rest : Text) → NoComma t → split (t ++ b',' ∷ rest) ≡ t ∷ split rest
split-comma [] rest h = refl
split-comma (c ∷ cs) rest h = elim (Bool-cases (c == b',')) [
  | inl e ↦ ground arith
  | inr e ↦ rw (e, split-comma cs rest (ground arith)) refl
]

split-join : (ts : List Text) → ts ≢ [] → All NoComma ts → split (join ts) ≡ ts
unfolding join
split-join [] ne h = absurd (ne refl)
split-join (t ∷ []) ne h = split-last t h.0
split-join (t ∷ u ∷ us) ne h =
    split-comma t (join (u ∷ us)) h.0 ∙ ap (λ vs. t ∷ vs) (split-join (u ∷ us) (λ e. cc) h.1)

-- The controls of the form, one by one: a control for chips holds all the chips, any other is as it
-- was.
abbrev pub Filled : List Text → List FormControl → List FormControl → Type 0
Filled chips [] [] = Unit
Filled chips (c ∷ cs) (d ∷ ds) =
    (if is_chips c then split d.value ≡ chips else d ≡ c)
    × (d.control_type ≡ c.control_type)
    × Filled chips cs ds
Filled chips _ _ = ⊥

fill-Filled :
    (ts : List Text) (cs : List FormControl)
    → split (join ts) ≡ ts
    → Filled ts cs (map (fill (join ts)) cs)
unfolding fill
fill-Filled ts [] h = tt
fill-Filled ts (c ∷ cs) h = elim (Bool-cases (is_chips c)) [
  | inl e ↦ rw e (h, refl, fill-Filled ts cs h)
  | inr e ↦ rw e (refl, refl, fill-Filled ts cs h)
]

-- With chips, none of which contains a comma, the dialog closes with a form of the same controls in
-- which the controls for chips hold a text that splits at the commas into exactly the chips, and in
-- which the others are as they were.
pub submit-Filled :
    (m : Modal)
    → m.chips_ ≢ []
    → All NoComma m.chips_
    → let after = submit m in
      Filled m.chips_ m.form after.form × (after.closed ≡ some (submitted after.form))
unfolding submit
submit-Filled m ne h = (fill-Filled m.chips_ m.form (split-join m.chips_ ne h), refl)
