-- ===== src/Forms/Validators/Unique.antt =====
-- `uniqueValidator` finds exactly the other elements with the control's value.
use text.Mathlib.Text.{◌==◌ as str_eq}
use hellogit.Common.{
  conjuncts, text_eq-eq, text_eq_refl, ℕ, zero, suc, ◌+◌, ◌≡◌, refl, ap, subst, ◌≢◌, ◌↔◌, inl, inr,
  String, Bool, true, false, ◌&&◌, Option, none, some, List, [], ◌∷◌, arith, get_elem?, length, ltb,
  if◌then◌else◌, Bool-cases,
}
use hellogit.Forms.Password.{Text}
use hellogit.Forms.Validators.{
  Value, undef, null, present, passes, fails, Element, array, field, UniqueOps, finds,
  unique_validator, new_error_object, value_eq, differs,
}

value_eq-eq : (v : Value) (t : Text) → value_eq v (present t) ≡ true → v ≡ present t
value_eq-eq undef t h = cc
value_eq-eq null t h = cc
value_eq-eq (present s) t h = ap present (text_eq-eq s t h)

-- An element, not the one at the control's own index, has the value, and the value is not empty.
abbrev pub Conflict : (Element → Value) → Text → Option ℕ → ℕ → List Element → Type 0
Conflict key value index i es =
    (k : ℕ) × (e : Element) × (get_elem? es k ≡ some e)
    × (key e ≡ present value)
    × (value ≢ [])
    × (index ≢ some (i + k))

value_eq-present : (t : Text) (v : Value) → v ≡ present t → value_eq v (present t) ≡ true
value_eq-present t v h = rw h (text_eq_refl t)

full_length : (t : Text) → t ≢ [] → ltb 0 (length t) ≡ true
full_length [] h = absurd (h refl)
full_length (c ∷ cs) h = ground arith

length_full : (t : Text) → ltb 0 (length t) ≡ true → t ≢ []
length_full [] h e = cc
length_full (c ∷ cs) h e = cc

ne-differs : (i : ℕ) (j : Option ℕ) → j ≢ some i → differs i j ≡ true
ne-differs i none h = refl
ne-differs i (some j) h = ground arith

differs-ne : (i : ℕ) (j : Option ℕ) → differs i j ≡ true → j ≢ some i
differs-ne i none h e = cc
differs-ne i (some j) h e = ground arith

module _ (key : Element → Value) (value : Text) (index : Option ℕ) where
  finds-Conflict :
      (i : ℕ) (es : List Element)
      → finds key value index i es ≡ true
      → Conflict key value index i es
  unfolding finds
  finds-Conflict i [] h = cc
  finds-Conflict i (e ∷ es) h =
      elim (Bool-cases
        (ltb 0 (length value) && value_eq (key e) (present value) && differs i index)) [
          | inl found ↦
              let (full, same, other) =
                conjuncts (ltb 0 (length value)) (value_eq (key e) (present value))
                  (differs i index) found in
              (
                0,
                e,
                refl,
                value_eq-eq (key e) value same,
                length_full value full,
                subst (λ n. index ≢ some n) (omega arith) (differs-ne i index other),
              )
          | inr missed ↦
              let (k, d, at, same, full, ne) = finds-Conflict (suc i) es (rw missed at h) in
              (suc k, d, at, same, full, subst (λ n. index ≢ some n) (omega arith) ne)
        ]

  Conflict-finds :
      (i : ℕ) (es : List Element)
      → Conflict key value index i es
      → finds key value index i es ≡ true
  unfolding finds
  Conflict-finds i [] c = cc (c.2)
  Conflict-finds i (e ∷ es) (zero, d, at, same, full, ne) =
      let a = full_length value full in
      let b =
        value_eq-present value (key e) (subst (λ o. key o ≡ present value) (ground arith) same) in
      let c = ne-differs i index (subst (λ n. index ≢ some n) (omega arith) ne) in rw (a, b, c) refl
  Conflict-finds i (e ∷ es) (suc k, d, at, same, full, ne) =
      elim (Bool-cases
        (ltb 0 (length value) && value_eq (key e) (present value) && differs i index)) [
          | inl found ↦ rw found refl
          | inr missed ↦ rw missed (
              Conflict-finds (suc i) es
                (k, d, at, same, full, subst (λ n. index ≢ some n) (omega arith) ne))
        ]

by_field :
    (message : Text → String) (ops : UniqueOps) (name : String) (es : List Element) (t : Text)
    (touched valid : Bool)
    → ops.unique_array ≡ array es
    → ops.form_control_name ≡ some name
    → str_eq name "" ≡ false
    → unique_validator message ops (record { value = present t; touched = touched; valid = valid })
      ≡ (if finds (field name) t ops.index 0 es
          then fails (new_error_object (message t))
          else passes)
unfolding unique_validator
by_field message ops name es t touched valid a n full = rw (a, n, full) refl

-- On a text and an array of objects with the name of their field, the validator fails, with the
-- message of the text, exactly when the text is not empty and some object other than the one at the
-- index of the options has it in the field.
pub unique_validator_iff :
    (message : Text → String) (ops : UniqueOps) (name : String) (es : List Element) (t : Text)
    (touched valid : Bool)
    → ops.unique_array ≡ array es
    → ops.form_control_name ≡ some name
    → str_eq name "" ≡ false
    → let r =
        unique_validator message ops
          (record { value = present t; touched = touched; valid = valid }) in
      ((r ≡ fails (new_error_object (message t))) ↔ Conflict (field name) t ops.index 0 es)
      × ((r ≡ passes) ↔ (¬ Conflict (field name) t ops.index 0 es))
unique_validator_iff message ops name es t touched valid a n full =
    let e = by_field message ops name es t touched valid a n full in
    elim (Bool-cases (finds (field name) t ops.index 0 es)) [
      | inl found ↦
          let c = finds-Conflict (field name) t ops.index 0 es found in
          ((λ _. c, λ _. rw (e, found) refl), (λ h. cc (e, found, h), λ no. absurd (no c)))
      | inr missed ↦
          let no : ¬ Conflict (field name) t ops.index 0 es =
            λ c. cc (missed, Conflict-finds (field name) t ops.index 0 es c) in
          ((λ h. cc (e, missed, h), λ c. absurd (no c)), (λ _. no, λ _. rw (e, missed) refl))
    ]
